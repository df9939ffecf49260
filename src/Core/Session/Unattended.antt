-- ===== src/Core/Session/Unattended.antt =====
-- The policy of `run_destination` in crates/rb-core/src/session.rs: what a run leaves of it.
use rust_backup.Prelude.{◌≡◌, refl, Bool, true, false}
use rust_backup.Core.Error.{Result, ok, err}
use rust_backup.Core.Plan.{BackupPlan, Preflight}
use rust_backup.Core.Progress.{Progress}
use rust_backup.Core.Wire.{Stream}
use rust_backup.Core.Channel.{new_counted, recv_plan}
use rust_backup.Core.Session.{
  DataChannel, Formats, Side, Destination, on_backend, run_destination, restore_stream,
  restore_plan, consider, judge, decide,
}

module _ (S : Stream) {V : Type 0} (fmt : Formats V) (B : Type 0) (dest : Destination V B)
    {P : Type 0} (accept : BackupPlan V → P → Bool × P)
    (still : (plan : BackupPlan V) (q : P) → (accept plan q).1 ≡ q) where
  decide_still :
      (plan : BackupPlan V) (preflight : Preflight) (q : P)
      → (decide S fmt B dest accept plan preflight q).1 ≡ q
  unfolding decide
  decide_still plan preflight q = split preflight.ok
    where
      split :
          (b : Bool)
          → let r : Bool × P = elim b [ true ↦ accept plan q | false ↦ (false, q) ] in r.1 ≡ q
      split true = still plan q
      split false = refl

  judge_still :
      (plan : BackupPlan V) (q : P) (r : Result Preflight × Side S fmt B)
      → (judge S fmt B dest accept plan q r).1 ≡ q
  unfolding judge
  judge_still plan q (err e, d) = refl
  judge_still plan q (ok preflight, d) = decide_still plan preflight q

  consider_still :
      (plan : BackupPlan V) (q : P) (d : Side S fmt B)
      → (consider S fmt B dest accept plan q d).1 ≡ q
  unfolding consider
  consider_still plan q d = judge_still plan q (on_backend S fmt B (dest.validate plan) d)

  module _ {C : Type 0} (channel : DataChannel S C) (progress : Progress) where
    restore_plan_still :
        (b : B) (k : C) (q : P) (r : Result (BackupPlan V) × S.State)
        → (restore_plan S fmt B dest accept channel progress b k q r).policy ≡ q
    unfolding restore_plan
    restore_plan_still b k q (err e, s) = refl
    restore_plan_still b k q (ok plan, s) =
        consider_still plan q (record { backend = b; link = new_counted S s progress })

    restore_stream_still :
        (b : B) (q : P) (r : Result S.State × C)
        → (restore_stream S fmt B dest accept channel progress b q r).policy ≡ q
    unfolding restore_stream
    restore_stream_still b q (err e, k) = refl
    restore_stream_still b q (ok s, k) =
        restore_plan_still b k q (recv_plan S fmt.control fmt.debug s)

    -- A policy that leaves no trace leaves none in a run.
    pub run_destination_still :
        (b : B) (k : C) (q : P)
        → (run_destination S fmt B dest accept channel progress b k q).policy ≡ q
    unfolding run_destination
    run_destination_still b k q = restore_stream_still b q (channel.open_stream k)
