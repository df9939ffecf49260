-- ===== src/Transport/Relay.antt =====
-- `relay` and the substream branch of `serve_consumer` in crates/rb-transport/src/server.rs: a consumer's
-- substream is joined to one of the provider's, as long as the server has a permit left.
-- The yamux driver is a parameter, and so is the copy between the two substreams that follows.
pub mod Joining
pub mod Permits
use rust_backup.Prelude.{
  ℕ, zero, suc, ◌+◌, ◌≡◌, String, ◌<>◌, Option, none, some, List, [], ◌∷◌, ◌==◌, if◌then◌else◌,
  length,
}
use rust_backup.Core.Error.{Outcome, success, failure}
use rust_backup.Core.Wire.{Bytes, Stream, ReadExact, filled, unexpected_eof, failed}
use rust_backup.Transport.Paired.{stream_ready}
use rust_backup.Transport.Pool.{CarrierPool, pick}

pub record Driver (Opener : Type 0) : Type 1 where
  pub State : Type 0
  pub Provider : Type 0
  pub open_next : Opener → State → Outcome Provider × State
  pub write_all : Bytes → Provider → Option String × Provider
  -- the text of the error for a stream that ends too early
  pub early_eof : String

module _ {Opener : Type 0} (S : Stream) (D : Driver Opener) where
  -- The two substreams, as `copy_bidirectional` gets them; the pool that stays in the registry; and the
  -- driver.
  pub record Relayed : Type 0 where
    pub joined : Outcome (S.State × D.Provider)
    pub pool : Option (CarrierPool Opener)
    pub driver : D.State

  abbrev pub ready_provider : S.State → Option String × D.Provider → Outcome (S.State × D.Provider)
  ready_provider s (none, p) = success (s, p)
  ready_provider s (some e, p) = failure e

  abbrev pub join : S.State → CarrierPool Opener → Outcome D.Provider × D.State → Relayed
  join s pool (failure e, w) = record {
    joined = failure "provider unavailable";
    pool = some pool;
    driver = w;
  }
  join s pool (success p, w) = record {
    joined = ready_provider s (D.write_all (stream_ready ∷ []) p);
    pool = some pool;
    driver = w;
  }

  abbrev pub with_opener : S.State → D.State → Option Opener × CarrierPool Opener → Relayed
  with_opener s w (none, pool) = record {
    joined = failure "no live provider carrier";
    pool = some pool;
    driver = w;
  }
  with_opener s w (some o, pool) = join s pool (D.open_next o w)

  abbrev pub with_pool : String → S.State → D.State → Option (CarrierPool Opener) → Relayed
  with_pool id s w none = record {
    joined = failure ("no provider registered for '" <> id <> "'");
    pool = none;
    driver = w;
  }
  with_pool id s w (some pool) = with_opener s w (pick pool)

  -- The first byte of the consumer is taken off, whatever it is.
  abbrev pub behind_marker :
      String → D.State → Option (CarrierPool Opener) → ReadExact × S.State → Relayed
  behind_marker id w pool (filled marker, s) = with_pool id s w pool
  behind_marker id w pool (unexpected_eof, s) = record {
    joined = failure D.early_eof;
    pool = pool;
    driver = w;
  }
  behind_marker id w pool (failed e, s) = record { joined = failure e; pool = pool; driver = w }

  -- `pool` is what the registry has under `id`.
  unfoldable pub relay : String → Option (CarrierPool Opener) → S.State → D.State → Relayed
  relay id pool s w = behind_marker id w pool (S.read_exact 1 s)

-- The permits of the semaphore, and the relays that hold one, over all connections of the server.
pub record Relays : Type 0 where
  pub available : ℕ
  pub active : List ℕ

-- `Semaphore::new(cfg.max_conns)`
abbrev pub idle : ℕ → Relays
idle max_conns = record { available = max_conns; active = [] }

-- What `try_acquire_owned` does for an inbound substream: a relay, or the stream is dropped.
abbrev pub admit : ℕ → List ℕ → ℕ → Relays
admit zero active t = record { available = zero; active = active }
admit (suc left) active t = record { available = left; active = t ∷ active }

unfoldable pub inbound : ℕ → Relays → Relays
inbound t r = admit r.available r.active t

unfoldable pub without : ℕ → List ℕ → List ℕ
without t [] = []
without t (u ∷ us) = let rest = without t us in if t == u then us else u ∷ rest

-- A relay ends, and its permit is dropped.
unfoldable pub ended : ℕ → Relays → Relays
ended t r = record { available = r.available + 1; active = without t r.active }

pub data Runs (t : ℕ) : List ℕ → Type 0 where
  first : (ts : List ℕ) → Runs t (t ∷ ts)
  later : (u : ℕ) {ts : List ℕ} → Runs t ts → Runs t (u ∷ ts)

pub data Move : Relays → Relays → Type 0 where
  arrives : (t : ℕ) (r : Relays) → Move r (inbound t r)
  ends : (t : ℕ) (r : Relays) → Runs t r.active → Move r (ended t r)

-- What the server gets to from its start with `max_conns` permits.
pub data Running (max_conns : ℕ) : Relays → Type 0 where
  started : Running max_conns (idle max_conns)
  moved : {r r' : Relays} → Running max_conns r → Move r r' → Running max_conns r'
