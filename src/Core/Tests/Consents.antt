-- ===== src/Core/Tests/Consents.antt =====
-- Who lets a backend send or restore, in crates/rb-core/src/session.rs, at concrete data.
use rust_backup.Prelude.{ℕ, ◌≡◌, refl, ap, inl, true, ◌+◌, false, List, [], ◌∷◌}
use rust_backup.Core.Error.{err, plan_rejected}
use rust_backup.Core.Progress.{default_progress}
use rust_backup.Core.Wire.Frames.{framed}
use rust_backup.Core.Session.Consent.{Consented, run_destination-Consented}
use rust_backup.Core.Session.Refusal.{backup_refused}
use rust_backup.Core.Session.Release.{Released, run_source-Released}
use rust_backup.Core.Session.{run_source, run_destination, prepare, serve, consider, answer, decide}
use rust_backup.Core.Channel.{recv_plan, recv_ack, send_plan, send_ack, on_stream}
use rust_backup.Core.Wire.{recv_frame, send_frame, read_exact_idle, write_all_idle}
use rust_backup.Core.Pipe.{
  Pipe, pipe, pipe-IsReliable, read_pipe, read_some, write_pipe, read_exact_pipe,
}
use rust_backup.Core.Samples

-- A peer that sends its plan, and a policy that rejects every plan and counts them.
abbrev plan_only : Pipe
plan_only = record { inbox = framed (10 ∷ []); outbox = [] }

run_destination-Consented_example :
    Consented
      (pipe 0)
      Samples.formats
      (List ℕ)
      (Samples.collector Samples.passed)
      (λ p (q : ℕ). (false, q + 1))
      (Samples.prepared 0 plan_only)
      default_progress
      []
      0
      4
      (err (plan_rejected "rejected by operator"))
      []
      5
unfolding run_destination consider answer decide recv_plan recv_frame read_exact_idle send_ack
    send_frame write_all_idle read_pipe read_some write_pipe read_exact_pipe on_stream
run_destination-Consented_example =
    run_destination-Consented (pipe 0) Samples.formats (List ℕ) (Samples.collector Samples.passed)
      (λ p (q : ℕ). (false, q + 1)) (Samples.prepared 0 plan_only) default_progress [] 0 4

-- A peer that rejects the plan.
abbrev rejection : Pipe
rejection = record { inbox = framed (12 ∷ []); outbox = [] }

run_source-Released_example :
    Released
      (pipe 1)
      Samples.formats
      ℕ
      Samples.steady
      (Samples.prepared 1 rejection)
      default_progress
      3
      0
      (err (plan_rejected "preflight failed"))
      3
unfolding run_source prepare serve send_plan recv_ack recv_frame read_exact_idle send_frame
    write_all_idle read_pipe read_some write_pipe read_exact_pipe on_stream
run_source-Released_example =
    run_source-Released (pipe 1) Samples.formats ℕ Samples.steady (Samples.prepared 1 rejection)
      default_progress 3 0

-- A preflight that fails, and both sides.
backup_refused_example :
    (run_source
      (pipe 1)
      Samples.formats
      ℕ
      Samples.steady
      (Samples.prepared 1 rejection)
      default_progress
      0
      0).result
    ≡ err (plan_rejected "preflight failed")
unfolding pipe-IsReliable
backup_refused_example =
    ap (λ r. r.result)
      (backup_refused (pipe 1) (pipe-IsReliable 1) (pipe 0) (pipe-IsReliable 0) Samples.formats ℕ
        Samples.steady (Samples.prepared 1 rejection) default_progress (List ℕ)
        (Samples.collector Samples.failed) (λ p (q : ℕ). (true, q + 1))
        (Samples.prepared 0 plan_only) default_progress "fp" Samples.plan Samples.failed (10 ∷ [])
        (12 ∷ []) 0 0 0 0 1 rejection [] [] 0 1 4 4 plan_only refl refl refl refl refl
        (inl (refl, refl)) refl refl refl refl Samples.plan-Travels Samples.failed-Travels).2
