-- ===== src/Transport/Pool.antt =====
-- `CarrierPool` of crates/rb-transport/src/pool.rs: the substream openers of a provider, taken in turn.
-- The mutex makes a call of `pick` one step. `Opener` is the type of the yamux driver's handle.
pub mod Live
pub mod Pending
use mathlib.Core.Option
use rust_backup.Prelude.{
  ℕ, ◌+◌, ◌%◌, ◌^◌, Bool, true, false, Option, none, some, List, [], ◌∷◌, length, get_elem?,
  if◌then◌else◌,
}

pub record Carrier (Opener : Type 0) : Type 0 where
  pub opener : Opener
  pub alive : Bool

pub record CarrierPool (Opener : Type 0) : Type 0 where
  pub carriers : List (Carrier Opener)
  pub next : ℕ

module _ {Opener : Type 0} where
  -- `Carrier::new`
  abbrev pub fresh : Opener → Carrier Opener
  fresh opener = record { opener = opener; alive = true }

  -- `CarrierPool::new`
  unfoldable pub new : Opener → CarrierPool Opener
  new first = record { carriers = fresh first ∷ []; next = 0 }

  abbrev pub keep : Bool → Carrier Opener → List (Carrier Opener) → List (Carrier Opener)
  keep true c rest = c ∷ rest
  keep false c rest = rest

  -- `Vec::retain`
  unfoldable pub retain : List (Carrier Opener) → List (Carrier Opener)
  retain [] = []
  retain (c ∷ cs) = keep c.alive c (retain cs)

  abbrev pub opener_at : List (Carrier Opener) → ℕ → Option Opener
  opener_at cs i = Option.map (λ (c : Carrier Opener). c.opener) (get_elem? cs i)

  -- The turn among those that are left.
  abbrev pub take_turn : List (Carrier Opener) → ℕ → Option Opener × CarrierPool Opener
  take_turn [] next = (none, record { carriers = []; next = next })
  take_turn (c ∷ cs) next = (
    opener_at (c ∷ cs) (next % length (c ∷ cs)),
    record { carriers = c ∷ cs; next = (next + 1) % 2 ^ 64 },
  )

  unfoldable pub pick : CarrierPool Opener → Option Opener × CarrierPool Opener
  pick pool = take_turn (retain pool.carriers) pool.next
