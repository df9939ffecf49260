-- ===== src/Core/Session/EndToEnd.antt =====
-- `run_source` against `run_destination` of crates/rb-core/src/session.rs: each reads what the other
-- writes.
use rust_backup.Prelude.{
  ℕ, ◌<◌, ◌≡◌, refl, ap, sym, ◌∙◌, String, Bool, true, some, List, [], ◌++◌, append-nil, All,
  length,
}
use text.Mathlib.TextPositions.{eq_refl}
use rust_backup.Core.Error.{ok}
use rust_backup.Core.Plan.{BackupPlan, Preflight}
use rust_backup.Core.Progress.{Progress}
use rust_backup.Core.Wire.{Bytes, Stream, plan_frame, plan_ack, done, DataFrame, stream_end}
use rust_backup.Core.Wire.Reliable.{IsReliable}
use rust_backup.Core.Wire.Frames.{framed}
use rust_backup.Core.Channel.{ChunkEvent, Counted, new_counted}
use rust_backup.Core.Channel.Chunks.{Travels}
use rust_backup.Core.Channel.Transfer.{wire, IsSendable}
use rust_backup.Core.Session.{
  Formats, Side, Source, SourceOutcome, Destination, DataChannel, run_source, run_destination,
  answer,
}
use rust_backup.Core.Session.Effects.{sends, takes, apply_all, IsItem}
use rust_backup.Core.Session.Serving.{transcript, total}
use rust_backup.Core.Session.Outcomes.{serve_outcome}
use rust_backup.Core.Session.Opening.{
  ended, source_comes, ended_with, destination_comes, recv_plan-Does,
}
use rust_backup.Core.Session.Restoring.{answer_accepted, consider_accepted}

module _ (S : Stream) (R : IsReliable S) {V : Type 0} (fmt : Formats V) where
  module _ (B : Type 0) (src : Source V B) {C : Type 0} (channel : DataChannel S C)
      (progress : Progress) where
    -- A source whose backend does not change, on an accepted run.
    pub source_runs :
        (encode : DataFrame → Bytes) (fp reason : String) (plan : BackupPlan V)
        (es : List ChunkEvent) (plan_body ack_body done_body : Bytes) (b b0 b1 b2 : B) (k k1 : C)
        (s : S.State)
        → src.fingerprint b ≡ (ok fp, b0)
        → src.analyze b0 ≡ (ok plan, b1)
        → src.stream_out plan b1 ≡ sends es b1
        → src.fingerprint b1 ≡ (ok fp, b2)
        → channel.accept_stream k ≡ (ok s, k1)
        → R.pending s ≡ framed ack_body
        → Travels fmt.control (plan_frame plan) plan_body
        → Travels fmt.control (plan_ack true reason) ack_body
        → All (IsSendable fmt.frames fmt.blake3_hex encode) es
        → Travels fmt.frames stream_end (encode stream_end)
        → Travels fmt.control (done (total es (some progress)) "") done_body
        → (l : Counted S) × (run_source S fmt B src channel progress b k ≡ record {
          result = ok (record { plan = plan; bytes_sent = total es (some progress) });
          backend = b2;
          chan = k1;
          link = some l;
        })
          × (R.sent l.stream ≡ R.sent s ++ transcript fmt encode plan_body es done_body)
    source_runs encode fp reason plan es plan_body ack_body done_body b b0 b1 b2 k k1 s f1 an up f2
          acc p t_plan t_ack t_es t_end t_done =
        let d : Side S fmt B = record { backend = b1; link = new_counted S s progress } in
        let (last, result, back, out) =
          serve_outcome S R fmt B encode src fp fp reason plan es plan_body ack_body done_body [] d
            b2 up (p ∙ sym (append-nil _)) t_plan t_ack t_es t_end t_done f2 in
        let won : SourceOutcome V = record { plan = plan; bytes_sent = total es (some progress) } in
        (
          last.link,
          source_comes S fmt B src channel progress fp plan b b0 b1 k k1 s f1 an acc
              ∙ ap (ended S fmt k1) (result ∙ rw (eq_refl fp) refl)
              ∙ ap (λ b. record { result = ok won; backend = b; chan = k1; link = some last.link })
                  back,
          out,
        )

  module _ (B : Type 0) (dest : Destination V B) {P : Type 0} (accept : BackupPlan V → P → Bool × P)
      {C : Type 0} (channel : DataChannel S C) (progress : Progress) where
    -- A destination that approves, on a complete transfer.
    pub destination_runs :
        (encode : DataFrame → Bytes) (step : ChunkEvent → B → B) (n bytes_sent : ℕ)
        (plan : BackupPlan V) (preflight : Preflight) (es : List ChunkEvent)
        (plan_body ack_body done_body : Bytes) (b b1 : B) (k k1 : C) (q q' : P) (s : S.State)
        → channel.open_stream k ≡ (ok s, k1)
        → dest.validate plan b ≡ (ok preflight, b1)
        → preflight.ok ≡ true
        → accept plan q ≡ (true, q')
        → dest.stream_in plan b1 ≡ takes step n b1
        → length es < n
        → All IsItem es
        → R.pending s ≡ transcript fmt encode plan_body es done_body
        → Travels fmt.control (plan_frame plan) plan_body
        → Travels fmt.control (plan_ack true "accepted") ack_body
        → All (IsSendable fmt.frames fmt.blake3_hex encode) es
        → Travels fmt.frames stream_end (encode stream_end)
        → Travels fmt.control (done bytes_sent "") done_body
        → (l : Counted S) × (run_destination S fmt B dest accept channel progress b k q ≡ record {
          run = record {
            result = ok plan;
            backend = apply_all step es b1;
            chan = k1;
            link = some l;
          };
          policy = q';
        })
          × (R.sent l.stream ≡ R.sent s ++ framed ack_body)
    unfolding answer
    destination_runs encode step n bytes_sent plan preflight es plan_body ack_body done_body b b1 k
          k1 q q' s op v passed yes_please code lt items p t_plan t_ack t_es t_end t_done =
        let body =
          wire fmt.frames fmt.blake3_hex encode es
          ++ (framed (encode stream_end) ++ framed done_body) in
        let s1 = recv_plan-Does S R fmt plan plan_body body s t_plan p in
        let d : Side S fmt B = record { backend = b; link = new_counted S s1.last progress } in
        let d1 : Side S fmt B = record { backend = b1; link = new_counted S s1.last progress } in
        let (last, result, back, out) =
          answer_accepted S R fmt B dest encode step plan es n bytes_sent ack_body done_body [] d1
            code t_es items lt t_ack t_end t_done
            (s1.input
              ∙ ap
                  (λ x.
                    wire fmt.frames fmt.blake3_hex encode es ++ (framed (encode stream_end) ++ x))
                  (sym (append-nil (framed done_body)))) in
        (
          last.link,
          destination_comes S fmt B dest accept channel progress plan b k k1 q s s1.last op
                s1.result
              ∙ ap (ended_with S fmt B dest accept channel progress k1) (
                  consider_accepted S R fmt B dest accept plan preflight q q' b1 d v passed
                    yes_please
                  ∙ ap (λ r. (r, q')) result)
              ∙ ap
                  (λ b. record {
                    run = record {
                      result = ok plan;
                      backend = b;
                      chan = k1;
                      link = some last.link;
                    };
                    policy = q';
                  })
                  back,
          out ∙ ap (λ x. x ++ framed ack_body) (s1.output ∙ append-nil (R.sent s)),
        )

-- A whole backup over two healthy substreams, each side reading what the other writes. If the source
-- is analysed without a failure, sends the events `es` and keeps its fingerprint, the destination
-- takes events up to the end and applies `step` to each, preflight and policy approve the plan, both
-- channels hand out a substream, and the JSON codec carries every frame of the run, then both runs
-- succeed, the destination has applied exactly the events of the source in their order, and the
-- source has written what the destination had to read, and the other way round.
pub backup_completes :
    (S : Stream) (R : IsReliable S) (S' : Stream) (R' : IsReliable S') {V : Type 0}
    (fmt : Formats V) (encode : DataFrame → Bytes) (B : Type 0) (src : Source V B) {C : Type 0}
    (channel : DataChannel S C) (progress : Progress) (B' : Type 0) (dest : Destination V B')
    {P : Type 0} (accept : BackupPlan V → P → Bool × P) {C' : Type 0} (channel' : DataChannel S' C')
    (progress' : Progress) (step : ChunkEvent → B' → B') (n : ℕ) (fp : String) (plan : BackupPlan V)
    (preflight : Preflight) (es : List ChunkEvent) (plan_body ack_body done_body : Bytes)
    (b b0 b1 b2 : B) (k k1 : C) (s : S.State) (b' b1' : B') (k' k1' : C') (q q' : P) (s' : S'.State)
    → src.fingerprint b ≡ (ok fp, b0)
    → src.analyze b0 ≡ (ok plan, b1)
    → src.stream_out plan b1 ≡ sends es b1
    → src.fingerprint b1 ≡ (ok fp, b2)
    → channel.accept_stream k ≡ (ok s, k1)
    → channel'.open_stream k' ≡ (ok s', k1')
    → dest.validate plan b' ≡ (ok preflight, b1')
    → preflight.ok ≡ true
    → accept plan q ≡ (true, q')
    → dest.stream_in plan b1' ≡ takes step n b1'
    → length es < n
    → All IsItem es
    → R.sent s ≡ []
    → R'.sent s' ≡ []
    → R.pending s ≡ framed ack_body
    → R'.pending s' ≡ transcript fmt encode plan_body es done_body
    → Travels fmt.control (plan_frame plan) plan_body
    → Travels fmt.control (plan_ack true "accepted") ack_body
    → All (IsSendable fmt.frames fmt.blake3_hex encode) es
    → Travels fmt.frames stream_end (encode stream_end)
    → Travels fmt.control (done (total es (some progress)) "") done_body
    → (l : Counted S) × (l' : Counted S') × (run_source S fmt B src channel progress b k ≡ record {
      result = ok (record { plan = plan; bytes_sent = total es (some progress) });
      backend = b2;
      chan = k1;
      link = some l;
    })
      × (run_destination S' fmt B' dest accept channel' progress' b' k' q ≡ record {
        run = record {
          result = ok plan;
          backend = apply_all step es b1';
          chan = k1';
          link = some l';
        };
        policy = q';
      })
      × (R.sent l.stream ≡ R'.pending s')
      × (R'.sent l'.stream ≡ R.pending s)
backup_completes S R S' R' fmt encode B src channel progress B' dest accept channel' progress' step
      n fp plan preflight es plan_body ack_body done_body b b0 b1 b2 k k1 s b' b1' k' k1' q q' s' f1
      an up f2 acc op v passed approved code lt items e e' p p' t_plan t_ack t_es t_end t_done =
    let (l, run, out) =
      source_runs S R fmt B src channel progress encode fp "accepted" plan es plan_body ack_body
        done_body b b0 b1 b2 k k1 s f1 an up f2 acc p t_plan t_ack t_es t_end t_done in
    let (l', run', out') =
      destination_runs S' R' fmt B' dest accept channel' progress' encode step n
        (total es (some progress)) plan preflight es plan_body ack_body done_body b' b1' k' k1' q q'
        s' op v passed approved code lt items p' t_plan t_ack t_es t_end t_done in
    (
      l,
      l',
      run,
      run',
      out ∙ ap (λ x. x ++ transcript fmt encode plan_body es done_body) e ∙ sym p',
      out' ∙ ap (λ x. x ++ framed ack_body) e' ∙ sym p,
    )
