-- ===== src/Core/Session/Counting/Tally.antt =====
-- The byte count of a successful `run_source` of crates/rb-core/src/session.rs.
use rust_backup.Prelude.{ℕ, ◌≡◌, ◌+◌, ◌%◌, ◌^◌, ◌<◌, refl, ap, sym, ◌∙◌, String}
use rust_backup.Core.Error.{Result, ok, err, ◌>>=◌, >>=-eq-ok}
use rust_backup.Core.Plan.{BackupPlan}
use rust_backup.Core.Progress.{Progress, bytes}
use rust_backup.Core.Wire.{Stream, done, send_frame}
use rust_backup.Core.Channel.{Counted, new_counted, finish, send_plan, recv_ack}
use rust_backup.Core.Session.{
  upload, Formats, Side, Source, SourceOutcome, DataChannel, on_wire, on_link, on_backend,
  counted_bytes, conclude, stream_payload, serve, prepare, run_source, serve_plan, serve_stream,
}
use rust_backup.Core.Session.Counting.{sent, counted_after, on_wire-ok, on_link-ok, audit_bytes}

module _ (S : Stream) {V : Type 0} (fmt : Formats V) (B : Type 0) (src : Source V B)
    (progress : Progress) where
  -- The steps of a successful run behind its substream, and the number that it counts on the way.
  pub record Tallied (plan : BackupPlan V) (b : B) (opened : S.State) (bytes_sent : ℕ)
      : Type 0 where
    pub offered : S.State
    pub agreed : S.State
    pub streamed : Side S fmt B
    pub finished : Counted S
    pub closed : S.State
    pub offer : send_plan S fmt.control fmt.debug plan opened ≡ (ok tt, offered)
    pub agreement : recv_ack S fmt.control fmt.debug offered ≡ (ok tt, agreed)
    pub payload :
        upload S fmt B (src.stream_out plan b) (new_counted S agreed progress) ≡ (ok tt, streamed)
    pub finishing : finish S fmt.frames fmt.blake3_hex streamed.link ≡ (ok tt, finished)
    pub completion : send_frame S fmt.control (done bytes_sent "") finished.stream ≡ (ok tt, closed)
    pub tally :
        bytes_sent
        ≡ (progress.bytes_done
            + sent S fmt B (src.stream_out plan b) (new_counted S agreed progress))
          % 2 ^ 64

  conclude_bytes :
      (fp : String) (plan : BackupPlan V) (n : ℕ) (d : Side S fmt B) (out : SourceOutcome V)
      (e : Side S fmt B)
      → conclude S fmt B src fp plan n d ≡ (ok out, e)
      → (s : S.State) × (send_frame S fmt.control (done n "") d.link.stream ≡ (ok tt, s))
        × (out.bytes_sent ≡ n)
        × (out.plan ≡ plan)
  unfolding conclude
  conclude_bytes fp plan n d out e h =
      let (_, d1, h1, k1) =
        >>=-eq-ok (on_wire S fmt B (send_frame S fmt.control (done n ""))) _ d h in
      let (s, closed, _) = on_wire-ok S fmt B (send_frame S fmt.control (done n "")) d d1 h1 in
      let (after, d2, _, k2) = >>=-eq-ok (on_backend S fmt B src.fingerprint) _ d1 k1 in
      let (same, same_plan) = audit_bytes S fmt B src plan n fp after d2 k2 in
      (s, closed, same, same_plan)

  abbrev start : B → S.State → Side S fmt B
  start b s = record { backend = b; link = new_counted S s progress }

  stream_payload_bytes :
      (fp : String) (plan : BackupPlan V) (b : B) (s : S.State) (out : SourceOutcome V)
      (e : Side S fmt B)
      → progress.bytes_done < 2 ^ 64
      → stream_payload S fmt B src fp plan (start b s) ≡ (ok out, e)
      → (streamed : Side S fmt B) × (finished : Counted S) × (closed : S.State) × (upload S fmt B
            (src.stream_out plan b)
            (new_counted S s progress)
          ≡ (ok tt, streamed))
        × (finish S fmt.frames fmt.blake3_hex streamed.link ≡ (ok tt, finished))
        × (send_frame S fmt.control (done out.bytes_sent "") finished.stream ≡ (ok tt, closed))
        × (out.bytes_sent
            ≡ (progress.bytes_done
                + sent S fmt B (src.stream_out plan b) (new_counted S s progress))
              % 2 ^ 64)
        × (out.plan ≡ plan)
  unfolding stream_payload bytes
  stream_payload_bytes fp plan b s out e small h =
      let (_, d1, h1, k1) =
        >>=-eq-ok (λ d. upload S fmt B (src.stream_out plan d.backend) d.link) _ (start b s) h in
      let (_, d2, h2, k2) =
        >>=-eq-ok (on_link S fmt B (finish S fmt.frames fmt.blake3_hex)) _ d1 k1 in
      let (finished, finishing, e2) =
        on_link-ok S fmt B (finish S fmt.frames fmt.blake3_hex) d1 d2 h2 in
      let (closed, closing, same, same_plan) =
        conclude_bytes fp plan (counted_bytes S fmt B finished) (record d1 { link = finished }) out
          e
          (ap (λ d. conclude S fmt B src fp plan (counted_bytes S fmt B d.link) d) (sym e2) ∙ k2) in
      let counted =
        counted_after S fmt B (src.stream_out plan b) (new_counted S s progress) finished d1
          progress.bytes_done h1 finishing refl small in
      (
        d1,
        finished,
        closed,
        h1,
        finishing,
        ap (λ n. send_frame S fmt.control (done n "") finished.stream) same ∙ closing,
        same ∙ counted,
        same_plan,
      )

  serve-Tallied :
      (fp : String) (plan : BackupPlan V) (b : B) (opened : S.State) (out : SourceOutcome V)
      (e : Side S fmt B)
      → progress.bytes_done < 2 ^ 64
      → serve S fmt B src fp plan (start b opened) ≡ (ok out, e)
      → Tallied plan b opened out.bytes_sent × (out.plan ≡ plan)
  unfolding serve
  serve-Tallied fp plan b opened out e small h =
      let (_, d1, h1, k1) =
        >>=-eq-ok (on_wire S fmt B (send_plan S fmt.control fmt.debug plan)) _ (start b opened) h in
      let (offered, offer, e1) =
        on_wire-ok S fmt B (send_plan S fmt.control fmt.debug plan) (start b opened) d1 h1 in
      let (_, d2, h2, k2) =
        >>=-eq-ok (on_wire S fmt B (recv_ack S fmt.control fmt.debug))
          (λ _. stream_payload S fmt B src fp plan) (start b offered)
          (ap
              (on_wire S fmt B (recv_ack S fmt.control fmt.debug)
                >>= (λ _. stream_payload S fmt B src fp plan))
              (sym e1)
            ∙ k1) in
      let (agreed, agreement, e2) =
        on_wire-ok S fmt B (recv_ack S fmt.control fmt.debug) (start b offered) d2 h2 in
      let (streamed, finished, closed, payload, finishing, completion, tally, same_plan) =
        stream_payload_bytes fp plan b agreed out e small
          (ap (stream_payload S fmt B src fp plan) (sym e2) ∙ k2) in
      (
        record {
          offered = offered;
          agreed = agreed;
          streamed = streamed;
          finished = finished;
          closed = closed;
          offer = offer;
          agreement = agreement;
          payload = payload;
          finishing = finishing;
          completion = completion;
          tally = tally;
        },
        same_plan,
      )

  module _ {C : Type 0} (channel : DataChannel S C) where
    serve_stream-Tallied :
        (fp : String) (plan : BackupPlan V) (b : B) (r : Result S.State × C) (out : SourceOutcome V)
        → progress.bytes_done < 2 ^ 64
        → (serve_stream S fmt B src channel progress fp plan b r).result ≡ ok out
        → (opened : S.State) × (r.0 ≡ ok opened)
          × Tallied plan b opened out.bytes_sent
          × (out.plan ≡ plan)
    unfolding serve_stream
    serve_stream-Tallied fp plan b (err e, k) out small h = absurd (cc)
    serve_stream-Tallied fp plan b (ok s, k) out small h =
        let d = (serve S fmt B src fp plan (start b s)).1 in
        let (tallied, same) = serve-Tallied fp plan b s out d small (ap (λ r. (r, d)) h) in
        (s, refl, tallied, same)

    -- What stands before it: the plan was made of the backend, and a substream came.
    pub record Delivered (first : B) (k : C) (out : SourceOutcome V) : Type 0 where
      pub fp : String
      pub analysed : B
      pub opened : S.State
      pub prepared : prepare S fmt B src first ≡ (ok (fp, out.plan), analysed)
      pub accepted : (channel.accept_stream k).0 ≡ ok opened
      pub steps : Tallied out.plan analysed opened out.bytes_sent

    serve_plan-Delivered :
        (b : B) (k : C) (r : Result (String × BackupPlan V) × B) (out : SourceOutcome V)
        → progress.bytes_done < 2 ^ 64
        → prepare S fmt B src b ≡ r
        → (serve_plan S fmt B src channel progress k r).result ≡ ok out
        → Delivered b k out
    unfolding serve_plan
    serve_plan-Delivered b k (err e, b') out small p h = absurd (cc)
    serve_plan-Delivered b k (ok (fp, plan), b') out small p h =
        let (opened, accepted, steps, same) =
          serve_stream-Tallied fp plan b' (channel.accept_stream k) out small h in
        record {
          fp = fp;
          analysed = b';
          opened = opened;
          prepared = p ∙ ap (λ q. (ok (fp, q), b')) (sym same);
          accepted = accepted;
          steps = rw same steps;
        }

    -- If `run_source` succeeds, whatever the backend, the channel and the stream do, and the counter
    -- starts below 2 ^ 64, then the plan that it returns was analysed, sent and accepted, and the
    -- number that it returns, which the completion frame also carried, is the counter at the start
    -- plus the bytes of those chunks of `stream_out` whose `send_chunk` succeeded, modulo 2 ^ 64.
    pub run_source-Delivered :
        (b : B) (k : C) (out : SourceOutcome V)
        → progress.bytes_done < 2 ^ 64
        → (run_source S fmt B src channel progress b k).result ≡ ok out
        → Delivered b k out
    unfolding run_source
    run_source-Delivered b k out small h =
        serve_plan-Delivered b k (prepare S fmt B src b) out small refl h
