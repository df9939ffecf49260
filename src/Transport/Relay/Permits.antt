-- ===== src/Transport/Relay/Permits.antt =====
-- How many relays crates/rb-transport/src/server.rs runs at once.
use rust_backup.Prelude.{
  ℕ, zero, suc, ◌+◌, ◌≤◌, ◌≡◌, refl, ◌∙◌, List, [], ◌∷◌, ◌==◌, ==_iff, Bool-cases, inl, inr,
  if◌then◌else◌, length, arith, ltb, lt→ltb, ltb-false,
}
use rust_backup.Transport.Relay.{
  Relays, admit, inbound, without, ended, Runs, first, later, Move, arrives, ends, Running, started,
  moved,
}

length-without : (t : ℕ) (ts : List ℕ) → Runs t ts → length (without t ts) + 1 ≡ length ts
unfolding without
length-without t [] h = elim h [ ]
length-without t (_ ∷ _) (first ts) = rw ((==_iff t t).1 refl) (omega arith)
length-without t (_ ∷ _) (later u {ts} h) = elim (Bool-cases (t == u)) [
  | inl e ↦ rw e (omega arith)
  | inr e ↦ rw e (omega (arith, length-without t ts h))
]

admit_counts :
    (available : ℕ) (active : List ℕ) (t : ℕ)
    → (admit available active t).available + length (admit available active t).active
      ≡ available + length active
admit_counts zero active t = refl
admit_counts (suc left) active t = omega arith

counts-Move :
    {r r' : Relays} → Move r r' → r'.available + length r'.active ≡ r.available + length r.active
unfolding inbound ended
counts-Move (arrives t r) = admit_counts r.available r.active t
counts-Move (ends t r h) = omega (arith, length-without t r.active h)

pub counts :
    (max_conns : ℕ) {r : Relays} → Running max_conns r → r.available + length r.active ≡ max_conns
counts max_conns started = omega arith
counts max_conns (moved before move) = counts-Move move ∙ counts max_conns before

-- However substreams arrive and relays end, at most `max_conns` relays run at once, and an inbound
-- substream becomes a relay when fewer run, and is turned away otherwise.
pub relays_bound :
    (max_conns : ℕ) (r : Relays) (t : ℕ)
    → Running max_conns r
    → (length r.active ≤ max_conns)
      × ((inbound t r).active
          ≡ (if ltb (length r.active) max_conns then t ∷ r.active else r.active))
unfolding inbound
relays_bound max_conns r t run =
    (omega (arith, counts max_conns run), turned r.available (counts max_conns run))
  where
    turned :
        (available : ℕ)
        → available + length r.active ≡ max_conns
        → (admit available r.active t).active
          ≡ (if ltb (length r.active) max_conns then t ∷ r.active else r.active)
    turned zero all = rw (ltb-false (length r.active) max_conns (omega arith)) refl
    turned (suc left) all = rw (lt→ltb (length r.active) max_conns (omega arith)) refl
