-- ===== src/Transport/Server/Pools.antt =====
-- The pools behind the registry of crates/rb-transport/src/server.rs, and the relays that take openers from
-- them. A pool is shared (`Arc`): a relay that has looked it up keeps it when the registry loses it. The
-- opener of a connection is its number. `registry.get` and `pool.pick` are two steps of a relay.
pub mod Entering
pub mod Isolation
pub mod Service
use rust_backup.Prelude.{ℕ, ◌≡◌, String, Option, none, some, [], ◌==◌, if◌then◌else◌}
use rust_backup.Transport.Pool.{CarrierPool, new, pick}
use rust_backup.Transport.Server.{
  World, started, registered, cleared, arrived, check_free, enter, leave,
}

unfoldable pub update {ℓ} : {A : Type ℓ} → ℕ → A → (ℕ → A) → ℕ → A
update t a f u = if t == u then a else f u

-- `pool t` is the pool that connection `t` has put into the registry, `held r` the owner of the pool that
-- relay `r` has looked up, and `given r` the opener that it was given.
pub record Pools : Type 0 where
  pub world : World
  pub pool : ℕ → CarrierPool ℕ
  pub held : ℕ → Option ℕ
  pub given : ℕ → Option ℕ

abbrev pub at_start : Pools
at_start = record {
  world = started;
  pool = λ t. record { carriers = []; next = 0 };
  held = λ r. none;
  given = λ r. none;
}

-- `channel t` is the channel for which connection `t` registers, and `id r` the one that the consumer of
-- relay `r` has asked for.
module _ (channel id : ℕ → String) where
  -- `CarrierPool::new`, and `registry.insert`.
  unfoldable pub enter_pool : ℕ → Pools → Pools
  enter_pool t w = record w { world = enter channel t w.world; pool = update t (new t) w.pool }

  -- `registry.get(id)`
  unfoldable pub look_up : ℕ → Pools → Pools
  look_up r w = record w { held = update r (w.world.registry (id r)) w.held }

  -- `pool.pick()`, on the pool of `t`.
  unfoldable pub take_opener : ℕ → ℕ → Pools → Pools
  take_opener r t w = record w {
    pool = update t (pick (w.pool t)).1 w.pool;
    given = update r (pick (w.pool t)).0 w.given;
  }

  pub data PoolStep : Pools → Pools → Type 0 where
    checks_free :
        (t : ℕ) (w : Pools)
        → w.world.stage t ≡ arrived
        → PoolStep w (record w { world = check_free channel t w.world })
    enters_pool : (t : ℕ) (w : Pools) → w.world.stage t ≡ cleared → PoolStep w (enter_pool t w)
    leaves_pool :
        (t : ℕ) (w : Pools)
        → w.world.stage t ≡ registered
        → PoolStep w (record w { world = leave channel t w.world })
    looks_up : (r : ℕ) (w : Pools) → PoolStep w (look_up r w)
    takes : (r t : ℕ) (w : Pools) → w.held r ≡ some t → PoolStep w (take_opener r t w)

  pub data Ran : Pools → Type 0 where
    began : Ran at_start
    went : {w w' : Pools} → Ran w → PoolStep w w' → Ran w'
