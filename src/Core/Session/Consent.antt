-- ===== src/Core/Session/Consent.antt =====
-- When `run_destination` of crates/rb-core/src/session.rs lets its backend restore, on any stream, any
-- channel, any backend and any policy.
use rust_backup.Prelude.{◌≡◌, refl, sym, ◌∙◌, subst, Bool, true, false, Bool-cases, inl, inr}
use rust_backup.Core.Error.{BackupError, Result, ok, err, Fails, continue, fail}
use rust_backup.Core.Plan.{BackupPlan, Preflight}
use rust_backup.Core.Progress.{Progress}
use rust_backup.Core.Wire.{Stream}
use rust_backup.Core.Channel.{new_counted, recv_plan, send_ack, on_stream}
use rust_backup.Core.Session.{
  Formats, Side, Destination, DataChannel, reason_of, refusal, answer, decide, judge, consider,
  restore_plan, restore_stream, run_destination,
}

module _ (S : Stream) {V : Type 0} (fmt : Formats V) (B : Type 0) (dest : Destination V B) where
  module _ {P : Type 0} (accept : BackupPlan V → P → Bool × P) where
    -- How a destination that has received `plan` comes out, from the backend `b` and the policy `q`: its
    -- result, and the backend and the policy that it leaves. If the backend cannot validate the plan, or the
    -- preflight fails, it fails and has asked the backend for nothing else, and the policy not at all; if
    -- the policy rejects the plan, it fails and has asked the backend for nothing else; and only what is
    -- behind a passed preflight and the approval of the plan is left open.
    pub data Decided (plan : BackupPlan V) (b : B) (q : P)
        : Result (BackupPlan V) → B → P → Type 0 where
      unprepared :
          {r : Result (BackupPlan V)}
          → Fails (dest.validate plan b).0
          → Fails r
          → Decided plan b q r (dest.validate plan b).1 q
      unfit :
          (preflight : Preflight) {r : Result (BackupPlan V)}
          → (dest.validate plan b).0 ≡ ok preflight
          → preflight.ok ≡ false
          → Fails r
          → Decided plan b q r (dest.validate plan b).1 q
      rejected :
          (preflight : Preflight) {r : Result (BackupPlan V)}
          → (dest.validate plan b).0 ≡ ok preflight
          → preflight.ok ≡ true
          → (accept plan q).0 ≡ false
          → Fails r
          → Decided plan b q r (dest.validate plan b).1 (accept plan q).1
      approved :
          (preflight : Preflight) {r : Result (BackupPlan V)} {last : B}
          → (dest.validate plan b).0 ≡ ok preflight
          → preflight.ok ≡ true
          → (accept plan q).0 ≡ true
          → Decided plan b q r last (accept plan q).1

    -- A refusal fails, and leaves the backend alone.
    answer_refuses :
        (plan : BackupPlan V) (preflight_ok : Bool) (d : Side S fmt B)
        → Fails (answer S fmt B dest plan preflight_ok false d).0
          × ((answer S fmt B dest plan preflight_ok false d).1.backend ≡ d.backend)
    unfolding answer on_stream
    answer_refuses plan preflight_ok d = behind (
        send_ack S fmt.control fmt.debug false (reason_of S fmt B dest preflight_ok false)
          d.link.stream)
      where
        x : BackupError
        x = refusal S fmt B dest preflight_ok (reason_of S fmt B dest preflight_ok false)

        refuse : Result (Unit {0}) × S.State → Result (BackupPlan V) × Side S fmt B
        refuse r =
            continue (λ _. fail x) (r.0, record d { link = record (d.link) { stream = r.1 } })

        behind :
            (r : Result (Unit {0}) × S.State)
            → Fails (refuse r).0 × ((refuse r).1.backend ≡ d.backend)
        behind (ok _, s) = ((x, refl), refl)
        behind (err e, s) = ((e, refl), refl)

    -- The same, whoever says no.
    refused-Fails :
        (plan : BackupPlan V) (preflight_ok agreed : Bool) (d : Side S fmt B)
        → agreed ≡ false
        → Fails (answer S fmt B dest plan preflight_ok agreed d).0
          × ((answer S fmt B dest plan preflight_ok agreed d).1.backend ≡ d.backend)
    refused-Fails plan preflight_ok agreed d denied =
        subst
          (λ x.
            Fails (answer S fmt B dest plan preflight_ok x d).0
            × ((answer S fmt B dest plan preflight_ok x d).1.backend ≡ d.backend))
          (sym denied) (answer_refuses plan preflight_ok d)

    decide-unfit :
        (plan : BackupPlan V) (preflight : Preflight) (q : P)
        → preflight.ok ≡ false
        → decide S fmt B dest accept plan preflight q ≡ (false, q)
    unfolding decide
    decide-unfit plan preflight q failed = rw failed refl

    decide-accept :
        (plan : BackupPlan V) (preflight : Preflight) (q : P)
        → preflight.ok ≡ true
        → decide S fmt B dest accept plan preflight q ≡ accept plan q
    unfolding decide
    decide-accept plan preflight q passed = rw passed refl

    -- How a side comes out, and the policy.
    abbrev Comes : BackupPlan V → B → P → (Result (BackupPlan V) × Side S fmt B) × P → Type 0
    Comes plan b q r = Decided plan b q r.0.0 r.0.1.backend r.1

    answer-Decided :
        (plan : BackupPlan V) (b : B) (q : P) (d : Side S fmt B) (preflight : Preflight)
        → d.backend ≡ (dest.validate plan b).1
        → (dest.validate plan b).0 ≡ ok preflight
        → preflight.ok ≡ true
        → Comes plan b q
            (answer S fmt B dest plan preflight.ok (accept plan q).0 d, (accept plan q).1)
    answer-Decided plan b q d preflight at h passed = elim (Bool-cases (accept plan q).0) [
      | inl agreed ↦ approved preflight h passed agreed
      | inr denied ↦
          let (fails, same) = refused-Fails plan preflight.ok (accept plan q).0 d denied in
          subst
            (λ x.
              Decided plan b q (answer S fmt B dest plan preflight.ok (accept plan q).0 d).0 x
                (accept plan q).1)
            (sym (same ∙ at)) (rejected preflight h passed denied fails)
    ]

    judge-Decided :
        (plan : BackupPlan V) (b : B) (q : P) (d : Side S fmt B) (v : Result Preflight)
        → d.backend ≡ (dest.validate plan b).1
        → (dest.validate plan b).0 ≡ v
        → Comes plan b q (judge S fmt B dest accept plan q (v, d))
    unfolding judge
    judge-Decided plan b q d (err e) at h =
        subst (λ x. Decided plan b q (err e) x q) (sym at) (unprepared (e, h) (e, refl))
    judge-Decided plan b q d (ok preflight) at h = elim (Bool-cases preflight.ok) [
      | inl passed ↦
          subst (λ x. Comes plan b q (answer S fmt B dest plan preflight.ok x.0 d, x.1))
            (sym (decide-accept plan preflight q passed))
            (answer-Decided plan b q d preflight at h passed)
      | inr failed ↦
          let (fails, same) = answer_refuses plan preflight.ok d in
          subst (λ x. Comes plan b q (answer S fmt B dest plan preflight.ok x.0 d, x.1))
            (sym (decide-unfit plan preflight q failed))
            (subst (λ x. Decided plan b q (answer S fmt B dest plan preflight.ok false d).0 x q)
              (sym (same ∙ at)) (unfit preflight h failed fails))
    ]

    consider-Decided :
        (plan : BackupPlan V) (q : P) (d : Side S fmt B)
        → Comes plan d.backend q (consider S fmt B dest accept plan q d)
    unfolding consider
    consider-Decided plan q d =
        judge-Decided plan d.backend q (record d { backend = (dest.validate plan d.backend).1 })
          (dest.validate plan d.backend).0 refl refl

    module _ {C : Type 0} (channel : DataChannel S C) (progress : Progress) where
      -- The substream that the channel opens, and the plan that is received at it.
      pub record Came (k : C) (plan : BackupPlan V) : Type 0 where
        pub before : S.State
        pub after : S.State
        pub left : C
        pub opened : channel.open_stream k ≡ (ok before, left)
        pub received : recv_plan S fmt.control fmt.debug before ≡ (ok plan, after)

      -- The run of a destination: no plan comes and it fails, or it decides on the plan that came.
      pub data Consented (b : B) (k : C) (q : P) : Result (BackupPlan V) → B → P → Type 0 where
        no_plan : {r : Result (BackupPlan V)} → Fails r → Consented b k q r b q
        on_plan :
            (plan : BackupPlan V) {r : Result (BackupPlan V)} {last : B} {q' : P}
            → Came k plan
            → Decided plan b q r last q'
            → Consented b k q r last q'

      restore_plan-Consented :
          (b : B) (k k1 : C) (q : P) (s : S.State) (r : Result (BackupPlan V) × S.State)
          → channel.open_stream k ≡ (ok s, k1)
          → recv_plan S fmt.control fmt.debug s ≡ r
          → Consented b k q
              (restore_plan S fmt B dest accept channel progress b k1 q r).run.result
              (restore_plan S fmt B dest accept channel progress b k1 q r).run.backend
              (restore_plan S fmt B dest accept channel progress b k1 q r).policy
      unfolding restore_plan
      restore_plan-Consented b k k1 q s (err e, t) op h = no_plan (e, refl)
      restore_plan-Consented b k k1 q s (ok plan, t) op h =
          on_plan plan (record { before = s; after = t; left = k1; opened = op; received = h })
            (consider-Decided plan q (record { backend = b; link = new_counted S t progress }))

      restore_stream-Consented :
          (b : B) (k : C) (q : P) (r : Result S.State × C)
          → channel.open_stream k ≡ r
          → Consented b k q
              (restore_stream S fmt B dest accept channel progress b q r).run.result
              (restore_stream S fmt B dest accept channel progress b q r).run.backend
              (restore_stream S fmt B dest accept channel progress b q r).policy
      unfolding restore_stream
      restore_stream-Consented b k q (err e, k1) op = no_plan (e, refl)
      restore_stream-Consented b k q (ok s, k1) op =
          restore_plan-Consented b k k1 q s (recv_plan S fmt.control fmt.debug s) op refl

      -- Whatever the peer sends and whatever the stream does, a destination only lets its backend restore
      -- behind a preflight that passed and a policy that approved the plan, both for the plan that came on
      -- the substream. In every other case the run fails, and the backend is as it was, or as the preflight
      -- left it; the policy is not asked unless the preflight passed.
      pub run_destination-Consented :
          (b : B) (k : C) (q : P)
          → Consented b k q
              (run_destination S fmt B dest accept channel progress b k q).run.result
              (run_destination S fmt B dest accept channel progress b k q).run.backend
              (run_destination S fmt B dest accept channel progress b k q).policy
      unfolding run_destination
      run_destination-Consented b k q = restore_stream-Consented b k q (channel.open_stream k) refl
