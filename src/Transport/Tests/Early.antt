-- ===== src/Transport/Tests/Early.antt =====
-- A destination that comes before its source, at concrete data.
use rust_backup.Prelude.{ℕ, suc, ◌≡◌, refl, ap, ◌+◌, false, none, List, [], ◌∷◌, ◌++◌}
use rust_backup.Core.Error.{success}
use rust_backup.Core.Progress.{default_progress}
use rust_backup.Core.Session.{run_destination}
use rust_backup.Core.Session.Opening.{no_plan}
use rust_backup.Core.Pipe.{Pipe, pipe, pipe-IsReliable}
use rust_backup.Core.Samples as Core
use rust_backup.Transport.Paired.{stream_ready, Mux, destination, paired}
use rust_backup.Transport.Pool.{new}
use rust_backup.Transport.Samples as Memory
use rust_backup.Transport.Server.{started, start}
use rust_backup.Transport.Unpaired.{destination_first}

-- A driver whose substreams end at once.
abbrev dropped : Mux (pipe 0) ℕ
dropped = record {
  open_next = λ k. (success (record { inbox = []; outbox = [] }), suc k);
  accept = λ k. (none, k);
  write_all = λ b s. (none, record s { outbox = s.outbox ++ b });
  early_eof = "early eof";
}

abbrev waiting : Pipe
waiting = record { inbox = stream_ready ∷ []; outbox = [] }

destination_first_example :
    (run_destination
      (pipe 0)
      Core.formats
      (List ℕ)
      (Core.collector Core.passed)
      (λ p q. (false, q + 1))
      (paired (pipe 0) ℕ dropped destination)
      default_progress
      []
      0
      4).run.result
    ≡ no_plan Core.formats
unfolding pipe-IsReliable
destination_first_example =
    ap (λ r. r.run.result)
      (destination_first Core.formats (pipe 0) (pipe-IsReliable 0) dropped (pipe 2)
        (pipe-IsReliable 2) Memory.yamux (λ t. "nightly") new started "nightly" waiting 0
        stream_ready [] (List ℕ) (Core.collector Core.passed) (λ p q. (false, q + 1))
        default_progress [] 0 1 4 (record { inbox = []; outbox = [] })
        (record { inbox = []; outbox = stream_ready ∷ [] }) start (λ t h. absurd (cc)) refl refl
        refl (λ e h. refl)).3
