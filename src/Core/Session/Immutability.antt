-- ===== src/Core/Session/Immutability.antt =====
-- The immutability audit of `run_source` in crates/rb-core/src/session.rs, on any stream, any channel
-- and any backend.
use text.Mathlib.TextEquality.{eq_iff}
use rust_backup.Prelude.{ℕ, ◌≡◌, refl, ap, ◌∙◌, String, arith}
use rust_backup.Core.Error.{Result, ok, err, >>=-eq-ok}
use rust_backup.Core.Plan.{BackupPlan}
use rust_backup.Core.Progress.{Progress}
use rust_backup.Core.Wire.{Stream, done, send_frame}
use rust_backup.Core.Channel.{new_counted, finish, send_plan, recv_ack}
use rust_backup.Core.Session.{
  Formats, Side, Source, SourceOutcome, DataChannel, on_wire, on_link, on_backend, upload,
  counted_bytes, audit, serve, prepare, run_source, serve_plan, serve_stream,
}

module _ (S : Stream) {V : Type 0} (fmt : Formats V) (B : Type 0) (src : Source V B) where
  audit_sound :
      (plan : BackupPlan V) (n : ℕ) (before after : String) (d : Side S fmt B)
      {out : SourceOutcome V} {e : Side S fmt B}
      → audit S fmt B src plan n before after d ≡ (ok out, e)
      → (before ≡ after) × (out.plan ≡ plan) × (d ≡ e)
  unfolding audit
  audit_sound plan n before after d h = ground (arith, eq_iff before after)

  serve_sound :
      (fp : String) (plan : BackupPlan V) (d : Side S fmt B) (out : SourceOutcome V)
      (e : Side S fmt B)
      → serve S fmt B src fp plan d ≡ (ok out, e)
      → (b : B) × (src.fingerprint b ≡ (ok fp, e.backend)) × (out.plan ≡ plan)
  unfolding serve
  serve_sound fp plan d out e h =
      let (_, d1, _, h1) =
        >>=-eq-ok (on_wire S fmt B (send_plan S fmt.control fmt.debug plan)) _ d h in
      let (_, d2, _, h2) = >>=-eq-ok (on_wire S fmt B (recv_ack S fmt.control fmt.debug)) _ d1 h1 in
      let (_, d3, _, h3) =
        >>=-eq-ok (λ d. upload S fmt B (src.stream_out plan d.backend) d.link) _ d2 h2 in
      let (_, d4, _, h4) =
        >>=-eq-ok (on_link S fmt B (finish S fmt.frames fmt.blake3_hex)) _ d3 h3 in
      let (_, d6, _, h6) =
        >>=-eq-ok
          (on_wire S fmt B (send_frame S fmt.control (done (counted_bytes S fmt B d4.link) ""))) _
          d4 h4 in
      let (after, d7, print, h7) = >>=-eq-ok (on_backend S fmt B src.fingerprint) _ d6 h6 in
      let (same, same_plan, last) =
        audit_sound plan (counted_bytes S fmt B d4.link) fp after d7 h7 in
      (
        d6.backend,
        ap (λ (r : Result String × Side S fmt B). (r.0, r.1.backend)) print ∙ cc (same, last),
        same_plan,
      )

  -- The backend of a successful run: fingerprinted, then analysed into the plan that was sent, and at
  -- the end of the run still of the same fingerprint.
  pub record Audited (first : B) (out : SourceOutcome V) (last : B) : Type 0 where
    pub fp : String
    pub before : B
    pub analysed : B
    pub after : B
    pub baseline : src.fingerprint first ≡ (ok fp, before)
    pub planned : src.analyze before ≡ (ok out.plan, analysed)
    pub unchanged : src.fingerprint after ≡ (ok fp, last)

  prepare_sound :
      (b b' : B) (fp : String) (plan : BackupPlan V)
      → prepare S fmt B src b ≡ (ok (fp, plan), b')
      → (before : B) × (src.fingerprint b ≡ (ok fp, before)) × (src.analyze before ≡ (ok plan, b'))
  unfolding prepare
  prepare_sound b b' fp plan h =
      let (fp', before, e, h1) = >>=-eq-ok src.fingerprint _ b h in
      let (plan', analysed, e', h2) = >>=-eq-ok src.analyze _ before h1 in
      (before, e ∙ cc h2, e' ∙ cc h2)

  module _ {C : Type 0} (channel : DataChannel S C) (progress : Progress) where
    serve_stream_sound :
        (fp : String) (plan : BackupPlan V) (b : B) (r : Result S.State × C) (out : SourceOutcome V)
        → (serve_stream S fmt B src channel progress fp plan b r).result ≡ ok out
        → (after : B) × (src.fingerprint after
            ≡ (ok fp, (serve_stream S fmt B src channel progress fp plan b r).backend))
          × (out.plan ≡ plan)
    unfolding serve_stream
    serve_stream_sound fp plan b (err e, k) out h = absurd (cc)
    serve_stream_sound fp plan b (ok s, k) out h =
        let start : Side S fmt B = record { backend = b; link = new_counted S s progress } in
        serve_sound fp plan start out (serve S fmt B src fp plan start).1
          (ap (λ r. (r, (serve S fmt B src fp plan start).1)) h)

    serve_plan_sound :
        (b : B) (k : C) (r : Result (String × BackupPlan V) × B) (out : SourceOutcome V)
        → prepare S fmt B src b ≡ r
        → (serve_plan S fmt B src channel progress k r).result ≡ ok out
        → Audited b out (serve_plan S fmt B src channel progress k r).backend
    unfolding serve_plan
    serve_plan_sound b k (err e, b') out p h = absurd (cc)
    serve_plan_sound b k (ok (fp, plan), b') out p h =
        let (before, baseline, planned) = prepare_sound b b' fp plan p in
        let (after, unchanged, same) =
          serve_stream_sound fp plan b' (channel.accept_stream k) out h in
        record {
          fp = fp;
          before = before;
          analysed = b';
          after = after;
          baseline = baseline;
          planned = planned ∙ cc same;
          unchanged = unchanged;
        }

    -- Whatever the backend, the channel and the stream do: if `run_source` succeeds, the fingerprint
    -- taken before the analysis is that of the backend after all was streamed, and the plan that it
    -- returns is the one that was analysed between the two.
    pub run_source-Audited :
        (b : B) (k : C) (out : SourceOutcome V)
        → (run_source S fmt B src channel progress b k).result ≡ ok out
        → Audited b out (run_source S fmt B src channel progress b k).backend
    unfolding run_source
    run_source-Audited b k out h = serve_plan_sound b k (prepare S fmt B src b) out refl h
