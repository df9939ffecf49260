-- ===== src/Transport/Listener.antt =====
-- `run_server` of crates/rb-transport/src/server.rs: the loop that accepts connections. The listener is a
-- parameter: what `bind` gives for an address, and then the row of results that `accept` gives. A
-- connection that is handed to `tokio::spawn` is its socket and the authenticator that it got; `control`
-- is the first substream that the yamux driver accepts on a socket, if the peer opens one.
pub mod Guarded
use rust_backup.Prelude.{
  String, ◌<>◌, Bool, true, false, Option, none, some, List, [], ◌∷◌, decimal,
}
use mathlib.Core.Option
use rust_backup.Core.Config.{ServerConfig}
use rust_backup.Core.Error.{Outcome, success, failure}
use rust_backup.Core.Wire.{Codec}
use rust_backup.Transport.Admission.{serve_conn}
use rust_backup.Transport.Auth.{Crypto, Authenticator, new}
use rust_backup.Transport.Proto.{ClientMsg, ServerMsg, Output, Delimited}
use rust_backup.Transport.Tuning.{TcpStream, tune_tcp}

module _ (Tcp : TcpStream) (out : Output) {Uuid : Type 0} (crypto : Crypto Uuid) where
  pub record Spawned : Type 0 where
    pub socket : Tcp.State
    pub auth : Option (Authenticator crypto)

  -- An accept that fails is logged, and the loop goes on.
  unfoldable pub accept_loop :
      Option (Authenticator crypto) → List (Outcome Tcp.State) → List Spawned
  accept_loop auth [] = []
  accept_loop auth (failure e ∷ arrivals) = accept_loop auth arrivals
  accept_loop auth (success socket ∷ arrivals) =
      record { socket = tune_tcp Tcp socket; auth = auth } ∷ accept_loop auth arrivals

  abbrev pub listen_address : ServerConfig → String
  listen_address cfg = cfg.bind_addr <> ":" <> decimal cfg.control_port

  abbrev pub authenticator : ServerConfig → Option (Authenticator crypto)
  authenticator cfg = Option.map (new crypto) cfg.secret

  abbrev pub on_listener :
      ServerConfig → List (Outcome Tcp.State) → Outcome (Unit {0}) → Outcome (List Spawned)
  on_listener cfg arrivals (failure e) = failure ("bind " <> listen_address cfg <> ": " <> e)
  on_listener cfg arrivals (success _) = success (accept_loop (authenticator cfg) arrivals)

  -- The connections that were spawned until now, or the error that ends the server before the first.
  unfoldable pub run_server :
      (bind : String → Outcome (Unit {0}))
      → ServerConfig
      → List (Outcome Tcp.State)
      → Outcome (List Spawned)
  run_server bind cfg arrivals = on_listener cfg arrivals (bind (listen_address cfg))

  module _ (client : Codec ClientMsg) (server : Codec (ServerMsg Uuid))
      (control : Tcp.State → Option (Delimited out)) where
    -- What becomes of a spawned connection; the first argument says whether it serves.
    abbrev pub serve_control :
        Option (Authenticator crypto)
        → Uuid
        → (String → Bool)
        → Option (Delimited out)
        → Outcome Bool × Option (Delimited out)
    serve_control auth c taken none = (success false, none)
    serve_control auth c taken (some d) =
        let (r, last) = serve_conn out crypto client server auth c taken d in (r, some last)

    unfoldable pub serve_spawned :
        Spawned → Uuid → (String → Bool) → Outcome Bool × Option (Delimited out)
    serve_spawned s c taken = serve_control s.auth c taken (control s.socket)
