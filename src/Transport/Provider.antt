-- ===== src/Transport/Provider.antt =====
-- `serve_provider` of crates/rb-transport/src/server.rs as a whole: its calls of the registry, what it says
-- on the control stream, the loop, and the guard that is dropped on every return. What the other
-- connections do to the registry meanwhile is a parameter, at each point where they may.
pub mod Lifetime
pub mod Alone
use rust_backup.Prelude.{ℕ, String, Bool, true, false, Option, none, some, List, []}
use rust_backup.Core.Error.{Outcome, success, failure}
use rust_backup.Core.Wire.{Codec}
use rust_backup.Transport.Proto.{ServerMsg, accepted, error, Output, send}
use rust_backup.Transport.Server.{World, contains_key, check_free, enter, leave}
use rust_backup.Transport.Serving.{Event, serve_loop}

-- Between the check and the insertion, across the answer, and across the loop.
pub data Point : Type 0 where
  entering answering serving : Point

module _ (out : Output) {Uuid : Type 0} (server : Codec (ServerMsg Uuid)) (channel : ℕ → String)
    (others : Point → World → World) where
  -- The registry and the control stream, and what the call returned; none as long as it goes on.
  pub record Provided : Type 0 where
    pub result : Option (Outcome (Unit {0}))
    pub world : World
    pub control : out.State

  -- `_guard`, which lives as long as the call.
  abbrev pub guarded : ℕ → Option (Outcome (Unit {0})) → World → World
  guarded t none w = w
  guarded t (some r) w = leave channel t w

  -- `control.send_server(ServerMsg::Ok).await?`, and the loop behind it.
  abbrev pub after_ok : ℕ → List (Event ⊥) → World → Outcome (Unit {0}) × out.State → Provided
  after_ok t es w (failure e, s) = record {
    result = some (failure e);
    world = guarded t (some (failure e)) w;
    control = s;
  }
  after_ok t es w (success _, s) =
      let (r, last) = serve_loop out server ⊥ es (record { control = s; relayed = [] }) in
      record { result = r; world = guarded t r (others serving w); control = last.control }

  abbrev pub register_pool : ℕ → List (Event ⊥) → World → out.State → Provided
  register_pool t es w s =
      after_ok t es (others answering (enter channel t (others entering w)))
        (send server out accepted s)

  -- A channel that is in use: the error is said, without a guard.
  abbrev pub turn_away : World → out.State → Provided
  turn_away w s =
      let (r, last) = send server out (error "channel already in use") s in
      record { result = some r; world = others answering w; control = last }

  abbrev pub on_check : Bool → ℕ → List (Event ⊥) → World → out.State → Provided
  on_check true t es w s = turn_away w s
  on_check false t es w s = register_pool t es w s

  -- Connection `t`, with the events to come.
  unfoldable pub serve_provider : ℕ → List (Event ⊥) → World → out.State → Provided
  serve_provider t es w s =
      on_check (contains_key (w.registry (channel t))) t es (check_free channel t w) s
