-- ===== src/Core/Session/Counting/Receiving.antt =====
-- The byte counter over the payload of `run_destination` in crates/rb-core/src/session.rs.
use rust_backup.Prelude.{ℕ, ◌≡◌, ◌+◌, ◌%◌, ◌^◌, ◌<◌, refl, ap, ◌∙◌, Option, none, some}
use rust_backup.Core.Error.{Result, ok, err, continue, ◌>>=◌}
use rust_backup.Core.Plan.{BackupPlan}
use rust_backup.Core.Wire.{Stream, ControlFrame, abort, done, plan_frame, plan_ack, recv_frame}
use rust_backup.Core.Channel.{Counted, on_stream, next}
use rust_backup.Core.Channel.Counting.{shown, Moves, zero-Moves, add-Moves, given, next-Gains}
use rust_backup.Core.Session.{
  Download, downloaded, call_next, download, Formats, Side, Destination, on_wire, counted_bytes,
  completion, restore,
}
use rust_backup.Core.Session.Counting.{counted_bytes-shown}

module _ (S : Stream) {V : Type 0} (fmt : Formats V) (B : Type 0) where
  -- The bytes of the chunks that a download is given.
  unfoldable pub taken : Download B → Counted S → ℕ
  taken (downloaded r b) c = 0
  taken (call_next then_do) c =
      let (r, c') = next S fmt.frames fmt.blake3_hex c in given r + taken (then_do r) c'

  download-Moves :
      (t : Download B) (c : Counted S) → Moves S (taken t c) c (download S fmt B t c).1.link
  unfolding taken download
  download-Moves (downloaded r b) c = zero-Moves S c c refl
  download-Moves (call_next then_do) c =
      let (r, d) = next S fmt.frames fmt.blake3_hex c in
      add-Moves S (given r) (taken (then_do r) d) c d (download S fmt B (then_do r) d).1.link
        (next-Gains S fmt.frames fmt.blake3_hex c) (download-Moves (then_do r) d)

  module _ (dest : Destination V B) where
    completion-link :
        (plan : BackupPlan V) (frame : Option (ControlFrame V)) (d : Side S fmt B)
        → (completion S fmt B dest plan frame d).1.link ≡ d.link
    unfolding completion
    completion-link plan none d = refl
    completion-link plan (some (abort reason)) d = refl
    completion-link plan (some (done total_bytes blake3)) d = refl
    completion-link plan (some (plan_frame p)) d = refl
    completion-link plan (some (plan_ack accepted reason)) d = refl

    recv_frame-link :
        (plan : BackupPlan V) (r : Result (Option (ControlFrame V)) × Side S fmt B)
        → (continue (completion S fmt B dest plan) r).1.link ≡ r.1.link
    recv_frame-link plan (ok frame, d) = completion-link plan frame d
    recv_frame-link plan (err e, d) = refl

    download-link :
        (plan : BackupPlan V) (r : Result (Unit {0}) × Side S fmt B)
        → shown S
            (continue
              (λ _. on_wire S fmt B (recv_frame S fmt.control) >>= completion S fmt B dest plan)
              r).1.link
          ≡ shown S r.1.link
    unfolding on_stream
    download-link plan (ok u, d) =
        ap (shown S) (recv_frame-link plan (on_wire S fmt B (recv_frame S fmt.control) d))
    download-link plan (err e, d) = refl

    -- However a restore ends, its counter has grown by the bytes of exactly those chunks that its
    -- backend was given, modulo 2 ^ 64, if the substream is counted and the count starts below that.
    pub restore-counts :
        (plan : BackupPlan V) (d : Side S fmt B) (k : ℕ)
        → shown S d.link ≡ some k
        → k < 2 ^ 64
        → counted_bytes S fmt B (restore S fmt B dest plan d).1.link
          ≡ (k + taken (dest.stream_in plan d.backend) d.link) % 2 ^ 64
    unfolding restore
    restore-counts plan d k h small =
        counted_bytes-shown S fmt B (restore S fmt B dest plan d).1.link
          ((k + taken (dest.stream_in plan d.backend) d.link) % 2 ^ 64)
          (download-link plan (download S fmt B (dest.stream_in plan d.backend) d.link)
            ∙ download-Moves (dest.stream_in plan d.backend) d.link k h small)
