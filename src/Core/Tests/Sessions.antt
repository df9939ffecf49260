-- ===== src/Core/Tests/Sessions.antt =====
-- The run loops of crates/rb-core/src/session.rs at concrete data.
use rust_backup.Prelude.{ℕ, ◌≡◌, refl, ap, true, List, [], ◌∷◌, ◌++◌, arith}
use rust_backup.Core.Error.{BackupError, ok, err, source_mutated, transfer, phase}
use rust_backup.Core.Progress.{Progress, default_progress, add_bytes, item_done, bytes}
use rust_backup.Core.Wire.{Bytes, write_all_idle, read_exact_idle, send_frame, recv_frame}
use rust_backup.Core.Wire.Frames.{framed}
use rust_backup.Core.Channel.{
  ChunkEvent, chunk, on_stream, count, new_counted, next, send_chunk, finish_item, finish,
  send_plan, recv_ack,
}
use rust_backup.Core.Session.{
  Side, Source, counted_bytes, restore, run_source, run_destination, serve, mutated, prepare,
  stream_payload, conclude, upload,
}
use rust_backup.Core.Session.EndToEnd.{backup_completes}
use rust_backup.Core.Session.Serving.{transcript}
use rust_backup.Core.Session.Outcomes.{serve_outcome}
use rust_backup.Core.Session.Torn.{breaks_off, backup_torn}
use rust_backup.Core.Session.Immutability.{Audited, run_source-Audited}
use rust_backup.Core.Session.Counting.Tally.{Delivered, run_source-Delivered}
use rust_backup.Core.Channel.Counting.{given}
use rust_backup.Core.Session.Counting.Receiving.{taken, restore-counts}
use rust_backup.Core.Session.Effects.{sends, takes}
use rust_backup.Core.Pipe.{
  Pipe, pipe, pipe-IsReliable, read_pipe, read_some, write_pipe, read_exact_pipe,
}
use rust_backup.Core.Samples

-- What the source reads, and what the destination reads.
abbrev decision : Pipe
decision = record { inbox = framed (11 ∷ []); outbox = [] }

abbrev backup : Pipe
backup = record {
  inbox = transcript Samples.formats Samples.encode_frame (10 ∷ []) Samples.events (13 ∷ []);
  outbox = [];
}

source_succeeds :
    (run_source
      (pipe 1)
      Samples.formats
      ℕ
      Samples.steady
      (Samples.prepared 1 decision)
      default_progress
      0
      0).result
    ≡ ok (record { plan = Samples.plan; bytes_sent = 3 })
unfolding run_source prepare serve stream_payload conclude upload sends send_plan recv_ack
    send_frame recv_frame write_all_idle read_exact_idle send_chunk finish_item finish on_stream
    count add_bytes item_done bytes read_pipe read_some write_pipe read_exact_pipe
source_succeeds = refl

-- The destination of a whole backup has collected the three bytes of the source.
backup_completes_example :
    (run_destination
      (pipe 0)
      Samples.formats
      (List ℕ)
      (Samples.collector Samples.passed)
      (λ p q. (true, q))
      (Samples.prepared 0 backup)
      default_progress
      []
      0
      tt).run.backend
    ≡ 65 ∷ 66 ∷ 67 ∷ []
unfolding pipe-IsReliable add_bytes item_done bytes
backup_completes_example =
    ap (λ r. r.run.backend)
      (backup_completes (pipe 1) (pipe-IsReliable 1) (pipe 0) (pipe-IsReliable 0) Samples.formats
        Samples.encode_frame ℕ Samples.steady (Samples.prepared 1 decision) default_progress
        (List ℕ) (Samples.collector Samples.passed) (λ p q. (true, q)) (Samples.prepared 0 backup)
        default_progress Samples.collect 5 "fp" Samples.plan Samples.passed Samples.events (10 ∷ [])
        (11 ∷ []) (13 ∷ []) 0 0 0 0 0 1 decision [] [] 0 1 tt tt backup refl refl refl refl refl
        refl refl refl refl refl (omega arith) (tt, (tt, tt)) refl refl refl refl
        Samples.plan-Travels Samples.accepted-Travels Samples.events-IsSendable Samples.end-Travels
        Samples.done-Travels).3

-- The source of the tests, and a substream on which the peer answers.
abbrev answered : Bytes → Side (pipe 1) Samples.formats ℕ
answered body = record {
  backend = 4;
  link = new_counted (pipe 1) (record { inbox = framed body; outbox = [] }) default_progress;
}

serve_outcome_example :
    (serve (pipe 1) Samples.formats ℕ Samples.steady "old" Samples.plan (answered (11 ∷ []))).0
    ≡ err (source_mutated "source fingerprint changed during backup (old -> fp)")
unfolding pipe-IsReliable mutated add_bytes item_done bytes
serve_outcome_example =
    ap (λ r. r.0)
      (serve_outcome (pipe 1) (pipe-IsReliable 1) Samples.formats ℕ Samples.encode_frame
        Samples.steady "old" "fp" "accepted" Samples.plan Samples.events (10 ∷ []) (11 ∷ [])
        (13 ∷ []) [] (answered (11 ∷ [])) 4 refl refl Samples.plan-Travels Samples.accepted-Travels
        Samples.events-IsSendable Samples.end-Travels Samples.done-Travels refl).1

run_source-Audited_example :
    Audited
      (pipe 1)
      Samples.formats
      ℕ
      Samples.steady
      0
      (record { plan = Samples.plan; bytes_sent = 3 })
      (run_source
        (pipe 1)
        Samples.formats
        ℕ
        Samples.steady
        (Samples.prepared 1 decision)
        default_progress
        0
        0).backend
run_source-Audited_example =
    run_source-Audited (pipe 1) Samples.formats ℕ Samples.steady (Samples.prepared 1 decision)
      default_progress 0 0 (record { plan = Samples.plan; bytes_sent = 3 }) source_succeeds

run_source-Delivered_example :
    Delivered
      (pipe 1)
      Samples.formats
      ℕ
      Samples.steady
      default_progress
      (Samples.prepared 1 decision)
      0
      0
      (record { plan = Samples.plan; bytes_sent = 3 })
run_source-Delivered_example =
    run_source-Delivered (pipe 1) Samples.formats ℕ Samples.steady default_progress
      (Samples.prepared 1 decision) 0 0 (record { plan = Samples.plan; bytes_sent = 3 })
      (omega arith) source_succeeds

-- A backend that fails behind its first event, and what a destination reads of it.
abbrev disk : BackupError
disk = phase transfer "disk failed"

abbrev first_event : List ChunkEvent
first_event = chunk 7 0 (65 ∷ 66 ∷ 67 ∷ []) ∷ []

abbrev failing : Source (Unit {0}) ℕ
failing = record Samples.steady { stream_out = λ p b. breaks_off disk first_event b }

abbrev torn : Pipe
torn = record { inbox = framed (10 ∷ []) ++ (framed (1 ∷ []) ++ (65 ∷ 66 ∷ 67 ∷ [])); outbox = [] }

backup_torn_example :
    (run_destination
      (pipe 0)
      Samples.formats
      (List ℕ)
      (Samples.collector Samples.passed)
      (λ p q. (true, q))
      (Samples.prepared 0 torn)
      default_progress
      []
      0
      tt).run.result
    ≡ ok Samples.plan
unfolding pipe-IsReliable
backup_torn_example =
    ap (λ r. r.run.result)
      (backup_torn (pipe 1) (pipe-IsReliable 1) (pipe 0) (pipe-IsReliable 0) Samples.formats
        Samples.encode_frame ℕ failing (Samples.prepared 1 decision) default_progress (List ℕ)
        (Samples.collector Samples.passed) (λ p q. (true, q)) (Samples.prepared 0 torn)
        default_progress Samples.collect Samples.plan disk first_event (10 ∷ []) (11 ∷ []) 0 0 0 1
        decision [] [] 0 1 tt tt torn
        (record { fp = "fp"; analyzed = 0; before = refl; analysis = refl; stream_out = refl })
        (record {
          preflight = Samples.passed;
          turns = 5;
          validated = refl;
          passed = refl;
          stream_in = refl;
          enough = omega arith;
        })
        refl refl refl refl refl refl refl Samples.plan-Travels Samples.accepted-Travels
        (Samples.events-IsSendable.0, tt) (tt, tt)).3

-- A counter two below its end.
abbrev nearly_full : Progress
nearly_full = record default_progress { bytes_done = 18_446_744_073_709_551_614 }

abbrev restoring : Side (pipe 0) Samples.formats (List ℕ)
restoring = record {
  backend = [];
  link =
      new_counted (pipe 0) (record { inbox = framed (1 ∷ []) ++ (65 ∷ 66 ∷ 67 ∷ []); outbox = [] })
        nearly_full;
}

restore-counts_example :
    counted_bytes
      (pipe 0)
      Samples.formats
      (List ℕ)
      (restore
        (pipe 0)
        Samples.formats
        (List ℕ)
        (Samples.collector Samples.passed)
        Samples.plan
        restoring).1.link
    ≡ 1
unfolding taken given takes next on_stream count recv_frame read_exact_idle read_pipe read_some
    read_exact_pipe add_bytes item_done bytes
restore-counts_example =
    restore-counts (pipe 0) Samples.formats (List ℕ) (Samples.collector Samples.passed) Samples.plan
      restoring 18_446_744_073_709_551_614 refl (omega arith)
