-- ===== src/Core/Session/Refusal.antt =====
-- A backup that the destination refuses, on both sides of crates/rb-core/src/session.rs.
use rust_backup.Prelude.{
  ◌≡◌, refl, ap, sym, subst, ◌∙◌, String, Bool, true, false, some, [], ◌++◌, append-nil,
}
use rust_backup.Core.Error.{BackupError, ok, err, plan_rejected, preflight_failed}
use rust_backup.Core.Plan.{BackupPlan, Preflight}
use rust_backup.Core.Progress.{Progress}
use rust_backup.Core.Wire.{Bytes, Stream, plan_frame, plan_ack}
use rust_backup.Core.Wire.Reliable.{IsReliable}
use rust_backup.Core.Wire.Frames.{framed}
use rust_backup.Core.Channel.{Counted, new_counted}
use rust_backup.Core.Channel.Chunks.{Travels}
use rust_backup.Core.Session.{
  Formats, Source, Destination, DataChannel, reason_of, refusal, run_source, run_destination,
}
use rust_backup.Core.Session.Opening.{
  ended, source_comes, ended_with, destination_comes, recv_plan-Does,
}
use rust_backup.Core.Session.Outcomes.{serve_rejected}
use rust_backup.Core.Session.Restoring.{Refuses, consider_refused}

-- What a destination says to its peer, and the error that it fails with itself, by whether its preflight
-- passed.
abbrev pub grounds : Bool → String
grounds true = "rejected by operator"
grounds false = "preflight failed"

abbrev pub own_error : Bool → BackupError
own_error true = plan_rejected "rejected by operator"
own_error false = preflight_failed "preflight failed"

module _ (S : Stream) (R : IsReliable S) (S' : Stream) (R' : IsReliable S') {V : Type 0}
    (fmt : Formats V) (B : Type 0) (src : Source V B) {C : Type 0} (channel : DataChannel S C)
    (progress : Progress) (B' : Type 0) (dest : Destination V B') {P : Type 0}
    (accept : BackupPlan V → P → Bool × P) {C' : Type 0} (channel' : DataChannel S' C')
    (progress' : Progress) where
  reason-grounds :
      (preflight_ok : Bool) → grounds preflight_ok ≡ reason_of S' fmt B' dest preflight_ok false
  reason-grounds true = refl
  reason-grounds false = refl

  refusal-own_error :
      (preflight_ok : Bool)
      → refusal S' fmt B' dest preflight_ok (reason_of S' fmt B' dest preflight_ok false)
        ≡ own_error preflight_ok
  refusal-own_error true = refl
  refusal-own_error false = refl

  -- A backup that the destination refuses, over two healthy substreams, each side reading what the other
  -- writes. If the source is analysed without a failure, the destination's preflight fails or its policy
  -- rejects the plan, both channels hand out a substream, and the codec carries the plan and the refusal,
  -- then the source fails with what the destination says (`grounds`) and its backend is as the analysis left it, the
  -- destination fails with the error that matches (`own_error`) and its backend is as the preflight left it, and the two
  -- frames are all that was written.
  pub backup_refused :
      (fp : String) (plan : BackupPlan V) (preflight : Preflight) (plan_body ack_body : Bytes)
      (b b0 b1 : B) (k k1 : C) (s : S.State) (b' b1' : B') (k' k1' : C') (q q' : P) (s' : S'.State)
      → src.fingerprint b ≡ (ok fp, b0)
      → src.analyze b0 ≡ (ok plan, b1)
      → channel.accept_stream k ≡ (ok s, k1)
      → channel'.open_stream k' ≡ (ok s', k1')
      → dest.validate plan b' ≡ (ok preflight, b1')
      → Refuses S' R' fmt B' dest accept plan preflight q q'
      → R.sent s ≡ []
      → R'.sent s' ≡ []
      → R.pending s ≡ framed ack_body
      → R'.pending s' ≡ framed plan_body
      → Travels fmt.control (plan_frame plan) plan_body
      → Travels fmt.control (plan_ack false (grounds preflight.ok)) ack_body
      → (l : Counted S) × (l' : Counted S') × (run_source S fmt B src channel progress b k
          ≡ record {
            result = err (plan_rejected (grounds preflight.ok));
            backend = b1;
            chan = k1;
            link = some l;
          })
        × (run_destination S' fmt B' dest accept channel' progress' b' k' q ≡ record {
          run = record {
            result = err (own_error preflight.ok);
            backend = b1';
            chan = k1';
            link = some l';
          };
          policy = q';
        })
        × (R.sent l.stream ≡ R'.pending s')
        × (R'.sent l'.stream ≡ R.pending s)
  backup_refused fp plan preflight plan_body ack_body b b0 b1 k k1 s b' b1' k' k1' q q' s' f1 an acc
        op v refuses new new' with_ack with_plan t_plan t_ack =
      let reason = grounds preflight.ok in
      let t_ack' =
        subst (λ r. Travels fmt.control (plan_ack false r) ack_body) (reason-grounds preflight.ok)
          t_ack in
      let (last, failed, same, out) =
        serve_rejected S R fmt B (λ frame. []) src fp reason plan plan_body ack_body []
          (record { backend = b1; link = new_counted S s progress }) (with_ack ∙ sym (append-nil _))
          t_plan t_ack in
      let got =
        recv_plan-Does S' R' fmt plan plan_body [] s' t_plan
          (with_plan ∙ sym (append-nil (framed plan_body))) in
      let (last', failed', same', out') =
        consider_refused S' R' fmt B' dest accept plan preflight q q' b1' ack_body
          (record { backend = b'; link = new_counted S' got.last progress' }) v refuses t_ack' in
      (
        last.link,
        last'.link,
        source_comes S fmt B src channel progress fp plan b b0 b1 k k1 s f1 an acc
            ∙ ap (ended S fmt k1) failed
            ∙ ap
                (λ x. record {
                  result = err (plan_rejected reason);
                  backend = x;
                  chan = k1;
                  link = some last.link;
                })
                same,
        destination_comes S' fmt B' dest accept channel' progress' plan b' k' k1' q s' got.last op
              got.result
            ∙ ap (ended_with S' fmt B' dest accept channel' progress' k1') failed'
            ∙ ap
                (λ (x : BackupError × B'). record {
                  run = record {
                    result = err x.0;
                    backend = x.1;
                    chan = k1';
                    link = some last'.link;
                  };
                  policy = q';
                })
                (λ i. (refusal-own_error preflight.ok i, same' i)),
        out ∙ ap (λ x. x ++ framed plan_body) new ∙ sym with_plan,
        out'
            ∙ ap (λ x. x ++ framed ack_body) (got.output ∙ append-nil (R'.sent s') ∙ new')
            ∙ sym with_ack,
      )
