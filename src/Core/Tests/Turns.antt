-- ===== src/Core/Tests/Turns.antt =====
-- The turns of the two sides of crates/rb-core/src/session.rs at concrete data.
use rust_backup.Prelude.{ℕ, ◌≡◌, refl, true, List, [], ◌∷◌}
use rust_backup.Core.Error.{ok}
use rust_backup.Core.Progress.{default_progress, add_bytes, item_done, bytes}
use rust_backup.Core.Wire.{Bytes}
use rust_backup.Core.Wire.Frames.{framed}
use rust_backup.Core.Session.{Run, SourceOutcome, run_source, run_destination}
use rust_backup.Core.Plan.{BackupPlan}
use rust_backup.Core.Session.Serving.{transcript}
use rust_backup.Core.Session.Turns.{handing, written, sides_take_turns}
use rust_backup.Core.Pipe.{Pipe, pipe, pipe-IsReliable}
use rust_backup.Core.Samples

abbrev hearing : Bytes → Pipe
hearing inbox = record { inbox = inbox; outbox = [] }

abbrev answer : Bytes
answer = transcript Samples.formats Samples.encode_frame (10 ∷ []) Samples.events (13 ∷ [])

abbrev source_on : Bytes → Run (pipe 1) Samples.formats ℕ (Unit {0}) (SourceOutcome (Unit {0}))
source_on inbox =
    run_source (pipe 1) Samples.formats ℕ Samples.steady (handing (pipe 1) (hearing inbox))
      default_progress 0 tt

abbrev destination_on :
    Bytes → Run (pipe 0) Samples.formats (List ℕ) (Unit {0}) (BackupPlan (Unit {0}))
destination_on inbox =
    (run_destination (pipe 0) Samples.formats (List ℕ) (Samples.collector Samples.passed)
      (λ p q. (true, q)) (handing (pipe 0) (hearing inbox)) default_progress [] tt tt).run

sides_take_turns_example :
    (written (pipe 1) (pipe-IsReliable 1) Samples.formats (source_on []).link ≡ framed (10 ∷ []))
    × (written (pipe 0) (pipe-IsReliable 0) Samples.formats (destination_on (framed (10 ∷ []))).link
        ≡ framed (11 ∷ []))
    × (written (pipe 1) (pipe-IsReliable 1) Samples.formats (source_on (framed (11 ∷ []))).link
        ≡ answer)
    × ((source_on (framed (11 ∷ []))).result ≡ ok (record { plan = Samples.plan; bytes_sent = 3 }))
    × ((destination_on answer).result ≡ ok Samples.plan)
    × ((destination_on answer).backend ≡ 65 ∷ 66 ∷ 67 ∷ [])
unfolding pipe-IsReliable add_bytes item_done bytes
sides_take_turns_example =
    sides_take_turns (pipe 1) (pipe-IsReliable 1) (pipe 0) (pipe-IsReliable 0) Samples.formats
      Samples.encode_frame ℕ Samples.steady default_progress (List ℕ)
      (Samples.collector Samples.passed) (λ p q. (true, q)) default_progress Samples.collect
      Samples.plan Samples.events (10 ∷ []) (11 ∷ []) (13 ∷ []) 0 0 [] [] tt tt (hearing [])
      (hearing (framed (11 ∷ []))) (hearing (framed (10 ∷ []))) (hearing answer) Samples.sending
      Samples.taking refl Samples.carried refl refl refl refl
