-- ===== src/Transport/Tests/Backups.antt =====
-- A whole backup through the server of crates/rb-transport at concrete data.
use rust_backup.Prelude.{ℕ, suc, ◌≡◌, refl, ap, List, true, none, some, [], ◌∷◌, ◌++◌}
use rust_backup.Core.Error.{success, failure}
use rust_backup.Core.Wire.{Bytes}
use rust_backup.Core.Wire.Frames.{framed}
use rust_backup.Core.Progress.{default_progress, add_bytes, item_done, bytes}
use rust_backup.Core.Session.{run_destination}
use rust_backup.Core.Session.Serving.{transcript}
use rust_backup.Core.Pipe.{Pipe, pipe, pipe-IsReliable, read_exact_pipe}
use rust_backup.Core.Samples as Core
use rust_backup.Transport.Paired.{stream_ready, Mux, destination, paired}
use rust_backup.Transport.Pool.{CarrierPool, retain, pick}
use rust_backup.Transport.Relay.{relay}
use rust_backup.Transport.Samples as Memory
use rust_backup.Transport.EndToEnd.{Connected, relayed_backup_completes}

abbrev request : Bytes
request = framed (11 ∷ [])

abbrev answer : Bytes
answer = transcript Core.formats Core.encode_frame (10 ∷ []) Core.events (13 ∷ [])

-- The source is handed a substream at which the marker and the request arrive.
abbrev at_source : Mux (pipe 1) ℕ
at_source = record {
  open_next = λ k. (failure "closed", k);
  accept = λ k. (some (record { inbox = stream_ready ∷ request; outbox = [] }), suc k);
  write_all = λ b s. (none, record s { outbox = s.outbox ++ b });
  early_eof = "early eof";
}

-- The destination opens one at which the answer arrives.
abbrev at_destination : Mux (pipe 0) ℕ
at_destination = record {
  open_next = λ k. (success (record { inbox = answer; outbox = [] }), suc k);
  accept = λ k. (none, k);
  write_all = λ b s. (none, record s { outbox = s.outbox ++ b });
  early_eof = "early eof";
}

abbrev pool : CarrierPool ℕ
pool = record { carriers = Memory.live 8 ∷ []; next = 0 }

abbrev consumer : Pipe
consumer = record { inbox = stream_ready ∷ request; outbox = [] }

copied :
    (t : Pipe)
    → (relay (pipe 2) Memory.yamux "nightly" (some pool) consumer 0).joined
      ≡ success (t, stream_ready ∷ [])
    → stream_ready ∷ request ≡ (stream_ready ∷ []) ++ t.inbox
unfolding relay pipe-IsReliable read_exact_pipe retain pick
copied t h =
    let e : record { inbox = request; outbox = [] } ≡ t = cc in
    ap (λ (p : Pipe). stream_ready ∷ p.inbox) e

connection :
    Connected Core.formats Core.encode_frame
      (pipe 1)
      (pipe-IsReliable 1)
      at_source
      (pipe 0)
      (pipe-IsReliable 0)
      at_destination
      (pipe 2)
      (pipe-IsReliable 2)
      Memory.yamux
      (λ p. p)
      "nightly"
      pool
      0
      1
      0
      1
      request
      answer
unfolding pipe-IsReliable retain pick
connection = record {
  opened = record { inbox = answer; outbox = [] };
  marked = record { inbox = answer; outbox = stream_ready ∷ [] };
  open_next = refl;
  write_marker = refl;
  only_marker = refl;
  answered = refl;
  consumer = consumer;
  requested = refl;
  idle = 0;
  idle' = 1;
  carrier = 8;
  provider = [];
  provider' = stream_ready ∷ [];
  picked = refl;
  open_provider = refl;
  mark_provider = refl;
  provider_marked = refl;
  inbound = record { inbox = stream_ready ∷ request; outbox = [] };
  accepted = refl;
  silent = refl;
  copied = copied;
}

-- The destination has collected the three bytes of the source.
relayed_backup_completes_example :
    (run_destination
      (pipe 0)
      Core.formats
      (List ℕ)
      (Core.collector Core.passed)
      (λ p q. (true, q))
      (paired (pipe 0) ℕ at_destination destination)
      default_progress
      []
      0
      tt).run.backend
    ≡ 65 ∷ 66 ∷ 67 ∷ []
unfolding pipe-IsReliable add_bytes item_done bytes
relayed_backup_completes_example =
    ap (λ r. r.run.backend)
      (relayed_backup_completes Core.formats Core.encode_frame (pipe 1) (pipe-IsReliable 1)
        at_source (pipe 0) (pipe-IsReliable 0) at_destination (pipe 2) (pipe-IsReliable 2)
        Memory.yamux (λ p. p) "nightly" pool 0 1 0 1 ℕ Core.steady default_progress (List ℕ)
        (Core.collector Core.passed) (λ p q. (true, q)) default_progress Core.collect Core.plan
        Core.events (10 ∷ []) (11 ∷ []) (13 ∷ []) 0 0 [] [] tt tt connection Core.sending
        Core.taking refl Core.carried).3
