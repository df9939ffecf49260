-- ===== src/Transport/Consumer.antt =====
-- `serve_consumer` of crates/rb-transport/src/server.rs as a whole: its answer, and the loop in which each
-- inbound substream asks the semaphore of the server for a permit. What the other connections and the relays
-- do to the semaphore before an event stands beside the event.
pub mod Bounded
use rust_backup.Prelude.{ℕ, zero, suc, Bool, true, false, Option, none, some, List, []}
use rust_backup.Core.Error.{Outcome, success, failure}
use rust_backup.Core.Wire.{Codec}
use rust_backup.Transport.Proto.{ClientMsg, ServerMsg, accepted, Output, send}
use rust_backup.Transport.Relay.{Relays, inbound}
use rust_backup.Transport.Serving.{Event, tick, message, arrival, looped, Serving, turn}

-- What `tokio::select!` takes next; an inbound substream is the number of the relay that it may become.
pub data Happening : Type 0 where
  ticks : Happening
  hears : Outcome (Option ClientMsg) → Happening
  comes : Option ℕ → Happening

abbrev pub has_permit : (available : ℕ) → Bool
has_permit zero = false
has_permit (suc left) = true

abbrev pub as_event : Relays → Happening → Event ℕ
as_event r ticks = tick
as_event r (hears msg) = message msg
as_event r (comes s) = arrival s (has_permit r.available)

-- `try_acquire_owned`, and the relay that is spawned with the permit.
abbrev pub acquire : Happening → Relays → Relays
acquire (comes (some t)) r = inbound t r
acquire _ r = r

-- An event, behind what was done to the semaphore before it.
abbrev pub Turn : Type 0
Turn = (Relays → Relays) × Happening

module _ (out : Output) {Uuid : Type 0} (server : Codec (ServerMsg Uuid)) where
  pub record Consuming : Type 0 where
    pub serving : Serving out server ℕ
    pub relays : Relays

  abbrev pub consumer_turn : Turn → Consuming → Option (Outcome (Unit {0})) × Consuming
  consumer_turn (others, h) c =
      let r = others c.relays in
      let (result, s) = turn out server ℕ (as_event r h) c.serving in
      (result, record { serving = s; relays = acquire h r })

  -- `control.send_server(ServerMsg::Ok).await?`, and the loop behind it.
  abbrev pub after_ok :
      List Turn → Relays → Outcome (Unit {0}) × out.State → Option (Outcome (Unit {0})) × Consuming
  after_ok es r (failure e, s) =
      (some (failure e), record { serving = record { control = s; relayed = [] }; relays = r })
  after_ok es r (success _, s) =
      looped consumer_turn es
        (record { serving = record { control = s; relayed = [] }; relays = r })

  unfoldable pub serve_consumer :
      List Turn → Relays → out.State → Option (Outcome (Unit {0})) × Consuming
  serve_consumer es r s = after_ok es r (send server out accepted s)
