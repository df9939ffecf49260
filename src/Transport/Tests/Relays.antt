-- ===== src/Transport/Tests/Relays.antt =====
-- The relays and the pool of crates/rb-transport at concrete data.
use rust_backup.Prelude.{ℕ, ◌≤◌, ◌≡◌, refl, false, some, [], ◌∷◌, length, All}
use rust_backup.Transport.Samples as Memory
use rust_backup.Transport.Pool.{CarrierPool, retain, pick}
use rust_backup.Transport.Pool.Live.{Alive, pick_live}
use rust_backup.Transport.Relay.{idle, inbound, arrives, started, moved}
use rust_backup.Transport.Relay.Permits.{relays_bound}

-- A pool of one dead carrier and two that live.
abbrev some_dead : CarrierPool ℕ
some_dead = record {
  carriers = record { opener = 7; alive = false } ∷ Memory.live 8 ∷ Memory.live 9 ∷ [];
  next = 3;
}

pick_dead : (pick some_dead).0 ≡ some 9
unfolding retain pick
pick_dead = refl

pick_live_example : All Alive (pick some_dead).1.carriers
pick_live_example = (pick_live some_dead).1

-- One permit, which a relay has taken, and a second inbound substream.
relays_bound_example :
    (length (inbound 4 (idle 1)).active ≤ 1) × ((inbound 5 (inbound 4 (idle 1))).active ≡ 4 ∷ [])
unfolding inbound
relays_bound_example = relays_bound 1 (inbound 4 (idle 1)) 5 (moved started (arrives 4 (idle 1)))
