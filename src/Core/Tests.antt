-- ===== src/Core/Tests.antt =====
-- The theorems about crates/rb-core at concrete data.
mod Plans
mod Sessions
mod Turns
mod Consents
mod Registries
use rust_backup.Prelude.{◌≡◌, refl, ap, none, [], ◌∷◌, ◌++◌, ◌+◌}
use rust_backup.Core.Error.{transfer, phase, Result, ok, err}
use rust_backup.Core.Progress.{bytes}
use rust_backup.Core.Wire.{write_all_idle, read_exact_idle, recv_frame}
use rust_backup.Core.Wire.Fuel.Runs.{Writes, takes, all_written, Reads, ends_early, idle_loops-Ends}
use rust_backup.Core.Wire.Frames.{framed, parse_frame, recv_frame-parse_frame}
use rust_backup.Core.Channel.{Counted, ChunkEvent, chunk, next, on_stream, count}
use rust_backup.Core.Channel.Transfer.{wire, next_events, transfer_round_trip}
use rust_backup.Core.Channel.Integrity.{Verified, next-Verified}
use rust_backup.Core.Pipe.{
  Pipe, pipe, pipe-IsReliable, read_pipe, read_some, write_pipe, read_exact_pipe,
}
use rust_backup.Core.Samples

abbrev arrived : Counted (pipe 1)
arrived = record {
  stream = record { inbox = framed (1 ∷ []) ++ (65 ∷ 66 ∷ 67 ∷ []); outbox = [] };
  progress = none;
}

abbrev received : Result ChunkEvent × Counted (pipe 1)
received = next (pipe 1) Samples.frames Samples.digest_of arrived

next_runs : received.0 ≡ ok (chunk 7 0 (65 ∷ 66 ∷ 67 ∷ []))
unfolding next on_stream count recv_frame read_exact_idle read_pipe read_some read_exact_pipe
next_runs = refl

next-Verified_example :
    Verified (pipe 1) Samples.frames Samples.digest_of arrived 7 0 (65 ∷ 66 ∷ 67 ∷ [])
next-Verified_example =
    next-Verified (pipe 1) Samples.frames Samples.digest_of arrived 7 0 (65 ∷ 66 ∷ 67 ∷ [])
      next_runs

transfer_round_trip_example :
    (next_events Samples.frames Samples.digest_of (pipe 2) 2 (record {
      stream = record {
        inbox = wire Samples.frames Samples.digest_of Samples.encode_frame Samples.events;
        outbox = [];
      };
      progress = none;
    })).0
    ≡ ok Samples.events
unfolding pipe-IsReliable
transfer_round_trip_example =
    ap (λ r. r.0)
      ((transfer_round_trip Samples.frames Samples.digest_of Samples.encode_frame (pipe 1)
        (pipe-IsReliable 1) (pipe 2) (pipe-IsReliable 2) Samples.events [] arrived
        (record {
          stream = record {
            inbox = wire Samples.frames Samples.digest_of Samples.encode_frame Samples.events;
            outbox = [];
          };
          progress = none;
        })
        Samples.events-IsSendable refl).1.result)

-- A header whose connection ends inside its body.
recv_frame-parse_frame_example :
    (recv_frame (pipe 1) Samples.frames (record { inbox = 5 ∷ 0 ∷ 0 ∷ 0 ∷ 1 ∷ []; outbox = [] })).0
    ≡ err (phase transfer "unexpected EOF mid-frame")
unfolding pipe-IsReliable parse_frame
recv_frame-parse_frame_example =
    recv_frame-parse_frame (pipe 1) (pipe-IsReliable 1) Samples.frames
      (record { inbox = 5 ∷ 0 ∷ 0 ∷ 0 ∷ 1 ∷ []; outbox = [] })

-- Two bytes to write to a stream that takes one at a time, and three to read off one that has none.
abbrev empty : Pipe
empty = record { inbox = []; outbox = [] }

both_written : Writes (pipe 0) (65 ∷ 66 ∷ []) empty (ok tt) (record empty { outbox = 65 ∷ 66 ∷ [] })
unfolding write_pipe
both_written = takes refl (takes refl all_written)

none_there : Reads (pipe 0) 3 [] empty (err (phase transfer "unexpected EOF mid-frame")) empty
unfolding read_pipe read_some
none_there = ends_early refl

idle_loops-Ends_example :
    (write_all_idle (pipe 0) (65 ∷ 66 ∷ []) empty ≡ (ok tt, record empty { outbox = 65 ∷ 66 ∷ [] }))
    × (read_exact_idle (pipe 0) 3 empty ≡ (err (phase transfer "unexpected EOF mid-frame"), empty))
idle_loops-Ends_example =
    let (writes, reads) =
      idle_loops-Ends (pipe 0) (65 ∷ 66 ∷ []) 3 empty (record empty { outbox = 65 ∷ 66 ∷ [] }) empty
        (ok tt) (err (phase transfer "unexpected EOF mid-frame")) in
    (writes.1 both_written, reads.1 none_there)
