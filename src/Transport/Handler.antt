-- ===== src/Transport/Handler.antt =====
-- `handle_conn` of crates/rb-transport/src/server.rs as a whole, from the first message of a connection to
-- the end of its service. `w` and `r` are the registry and the semaphore as the other connections have left
-- them when the talk on the control stream is over.
pub mod Untouched
use rust_backup.Prelude.{ℕ, String, Option, none, some, List, []}
use rust_backup.Core.Error.{Outcome, success, failure}
use rust_backup.Core.Wire.{Codec}
use rust_backup.Transport.Admission.{
  Admission, provides, consumes, unexpected, disconnected, handle_conn,
}
use rust_backup.Transport.Auth.{Crypto, Authenticator}
use rust_backup.Transport.Consumer.{Turn, Consuming, serve_consumer}
use rust_backup.Transport.Proto.{ClientMsg, ServerMsg, Output, Delimited}
use rust_backup.Transport.Provider.{Point, serve_provider}
use rust_backup.Transport.Relay.{Relays}
use rust_backup.Transport.Server.{World}
use rust_backup.Transport.Serving.{Event}

-- What the server shares, what the connection has made of it, and what the handler returned.
pub record Handled : Type 0 where
  pub result : Option (Outcome (Unit {0}))
  pub world : World
  pub relays : Relays
  pub relayed : List ℕ

module _ (out : Output) {Uuid : Type 0} (crypto : Crypto Uuid) (client : Codec ClientMsg)
    (server : Codec (ServerMsg Uuid))
    -- what the others do, and the events to come, for a provider and for a consumer
    (others : Point → World → World) (messages : List (Event ⊥)) (turns : List Turn) where
  abbrev pub returned : Outcome (Unit {0}) → World → Relays → Handled
  returned result w r = record { result = some result; world = w; relays = r; relayed = [] }

  abbrev pub consumed : World → Option (Outcome (Unit {0})) × Consuming out server → Handled
  consumed w (result, c) = record {
    result = result;
    world = w;
    relays = c.relays;
    relayed = c.serving.relayed;
  }

  -- `match first`, behind the handshake.
  abbrev pub dispatch : ℕ → World → Relays → Outcome Admission × Delimited out → Handled
  dispatch t w r (failure e, d) = returned (failure e) w r
  dispatch t w r (success (provides channel), d) =
      let p = serve_provider out server (λ u. channel) others t messages w d.inner in
      record { result = p.result; world = p.world; relays = r; relayed = [] }
  dispatch t w r (success (consumes channel), d) =
      consumed w (serve_consumer out server turns r d.inner)
  dispatch t w r (success (unexpected msg), d) = returned (success tt) w r
  dispatch t w r (success disconnected, d) = returned (success tt) w r

  -- Connection `t`, with the challenge `c` if there is a secret, and the control stream that the yamux driver
  -- accepts, if the peer opens one.
  unfoldable pub handle :
      Option (Authenticator crypto) → Uuid → ℕ → World → Relays → Option (Delimited out) → Handled
  handle auth c t w r none = returned (success tt) w r
  handle auth c t w r (some d) = dispatch t w r (handle_conn out crypto client server auth c d)
