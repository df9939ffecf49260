-- ===== src/Transport/Serving.antt =====
-- The loops of `serve_provider` and `serve_consumer` of crates/rb-transport/src/server.rs. What
-- `tokio::select!` takes next is an event: a tick of the heartbeat, a result of `recv_client`, or an
-- inbound substream, with whether the semaphore has a permit for it. Logging is left out.
use rust_backup.Prelude.{Bool, true, false, Option, none, some, List, [], ◌∷◌, ◌++◌}
use rust_backup.Core.Error.{Outcome, success, failure}
use rust_backup.Core.Wire.{Codec}
use rust_backup.Transport.Proto.{ClientMsg, ServerMsg, heartbeat_echo, Output, send}

-- `Inbound` is the type of the substreams, which is empty for a provider.
pub data Event (Inbound : Type 0) : Type 0 where
  tick : Event Inbound
  message : Outcome (Option ClientMsg) → Event Inbound
  arrival : Option Inbound → (permit : Bool) → Event Inbound

abbrev pub go_on : {W R : Type 0} → (W → Option R × W) → Option R × W → Option R × W
go_on more (some r, w) = (some r, w)
go_on more (none, w) = more w

-- A loop without an end of its own: what it returns, or none as long as it goes on.
unfoldable pub looped : {E W R : Type 0} → (E → W → Option R × W) → List E → W → Option R × W
looped turn [] w = (none, w)
looped turn (e ∷ es) w = go_on (looped turn es) (turn e w)

module _ (out : Output) {Uuid : Type 0} (server : Codec (ServerMsg Uuid)) (Inbound : Type 0) where
  -- The control stream, and the substreams that were handed to a relay.
  pub record Serving : Type 0 where
    pub control : out.State
    pub relayed : List Inbound

  -- A heartbeat that cannot be written ends the loop without an error.
  abbrev pub after_beat : Outcome (Unit {0}) → Option (Outcome (Unit {0}))
  after_beat (success _) = none
  after_beat (failure e) = some (success tt)

  abbrev pub beat : Serving → Option (Outcome (Unit {0})) × Serving
  beat w =
      let (r, s) = send server out heartbeat_echo w.control in
      (after_beat r, record w { control = s })

  abbrev pub on_message : Outcome (Option ClientMsg) → Option (Outcome (Unit {0}))
  on_message (failure e) = some (failure e)
  on_message (success none) = some (success tt)
  on_message (success (some msg)) = none

  abbrev pub on_inbound : Option Inbound → Bool → Serving → Option (Outcome (Unit {0})) × Serving
  on_inbound none permit w = (some (success tt), w)
  on_inbound (some s) false w = (none, w)
  on_inbound (some s) true w = (none, record w { relayed = w.relayed ++ (s ∷ []) })

  unfoldable pub turn : Event Inbound → Serving → Option (Outcome (Unit {0})) × Serving
  turn tick w = beat w
  turn (message r) w = (on_message r, w)
  turn (arrival s permit) w = on_inbound s permit w

  unfoldable pub serve_loop : List (Event Inbound) → Serving → Option (Outcome (Unit {0})) × Serving
  serve_loop = looped turn
