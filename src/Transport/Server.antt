-- ===== src/Transport/Server.antt =====
-- `serve_provider` of crates/rb-transport/src/server.rs: the registry of providers, which all the
-- connections of the server share, and the steps that a connection takes on it. Each of these is one
-- call on the concurrent map; between two of them, any other connection may run.
-- A connection is a number, which stands for its `CarrierPool` in the registry too.
pub mod Ownership
pub mod Race
pub mod Pools
use text.Mathlib.Text.{◌==◌ as str_eq}
use rust_backup.Prelude.{ℕ, ◌≡◌, String, Bool, true, false, Option, none, some, ◌==◌, if◌then◌else◌}

-- `DashMap<String, Arc<CarrierPool>>`
abbrev pub Registry : Type 0
Registry = String → Option ℕ

abbrev pub contains_key : Option ℕ → Bool
contains_key none = false
contains_key (some t) = true

unfoldable pub insert : String → ℕ → Registry → Registry
insert channel t reg k = if str_eq channel k then some t else reg k

-- `DropGuard::drop`
unfoldable pub remove : String → Registry → Registry
remove channel reg k = if str_eq channel k then none else reg k

-- Where a connection stands in `serve_provider`.
pub data Stage : Type 0 where
  arrived cleared registered refused gone : Stage

pub record World : Type 0 where
  pub registry : Registry
  pub stage : ℕ → Stage

unfoldable pub move : ℕ → Stage → (ℕ → Stage) → ℕ → Stage
move t p stage u = if t == u then p else stage u

-- The server has started: no channel is registered, and every connection is still to come.
abbrev pub started : World
started = record { registry = λ k. none; stage = λ t. arrived }

-- `channel t` is the channel for which connection `t` registers.
module _ (channel : ℕ → String) where
  -- `if registry.contains_key(&id)`: the connection is refused, or goes on.
  unfoldable pub after_check : Bool → ℕ → World → World
  after_check true t w = record w { stage = move t refused w.stage }
  after_check false t w = record w { stage = move t cleared w.stage }

  unfoldable pub check_free : ℕ → World → World
  unfolding after_check
  check_free t w = after_check (contains_key (w.registry (channel t))) t w

  -- `registry.insert`, behind which the guard lives.
  unfoldable pub enter : ℕ → World → World
  enter t w = record {
    registry = insert (channel t) t w.registry;
    stage = move t registered w.stage;
  }

  -- Any of the returns from the heartbeat loop: the guard is dropped.
  unfoldable pub leave : ℕ → World → World
  leave t w = record { registry = remove (channel t) w.registry; stage = move t gone w.stage }

  pub data Step : World → World → Type 0 where
    checks : (t : ℕ) (w : World) → w.stage t ≡ arrived → Step w (check_free t w)
    enters : (t : ℕ) (w : World) → w.stage t ≡ cleared → Step w (enter t w)
    leaves : (t : ℕ) (w : World) → w.stage t ≡ registered → Step w (leave t w)

  -- The worlds that the server can get to.
  pub data Reachable : World → Type 0 where
    start : Reachable started
    extend : {w w' : World} → Reachable w → Step w w' → Reachable w'
