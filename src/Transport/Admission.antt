-- ===== src/Transport/Admission.antt =====
-- `handle_conn` of crates/rb-transport/src/server.rs, and the first answers of `serve_provider` and
-- `serve_consumer`: what a connection says on its control stream before it serves.
pub mod Registering
pub mod Authenticated
use rust_backup.Prelude.{String, Bool, true, false, Option, none, some}
use rust_backup.Core.Anyhow.{Call, give, ◌>>=◌, ◌>>◌}
use rust_backup.Core.Wire.{Codec}
use rust_backup.Transport.Proto.{
  ClientMsg, authenticate, register, connect, heartbeat, ServerMsg, accepted, error, Output,
  Delimited, send_msg, recv_msg,
}
use rust_backup.Transport.Auth.{Crypto, Authenticator, server_handshake}

-- What the first message makes of a connection.
pub data Admission : Type 0 where
  provides : (channel : String) → Admission
  consumes : (channel : String) → Admission
  unexpected : ClientMsg → Admission
  disconnected : Admission

abbrev pub admit : Option ClientMsg → Admission
admit (some (register channel)) = provides channel
admit (some (connect channel)) = consumes channel
admit (some msg) = unexpected msg
admit none = disconnected

module _ (out : Output) {Uuid : Type 0} (crypto : Crypto Uuid) (client : Codec ClientMsg)
    (server : Codec (ServerMsg Uuid)) where
  abbrev pub authenticate_first :
      Option (Authenticator crypto) → Uuid → Call (Delimited out) (Unit {0})
  authenticate_first none c = give tt
  authenticate_first (some a) c = server_handshake crypto out client server a c

  -- The first message is read before the handshake, and looked at behind it.
  unfoldable pub handle_conn : Option (Authenticator crypto) → Uuid → Call (Delimited out) Admission
  handle_conn auth c = do first ← recv_msg out client; authenticate_first auth c; give (admit first)

  -- Whether the connection serves, and the answer that the peer gets; `taken` is what the registry says.
  abbrev pub greet_provider : Bool → Call (Delimited out) Bool
  greet_provider true = do send_msg out server (error "channel already in use"); give false
  greet_provider false = do send_msg out server accepted; give true

  abbrev pub greet : (String → Bool) → Admission → Call (Delimited out) Bool
  greet taken (provides channel) = greet_provider (taken channel)
  greet taken (consumes channel) = do send_msg out server accepted; give true
  greet taken (unexpected msg) = give false
  greet taken disconnected = give false

  unfoldable pub serve_conn :
      Option (Authenticator crypto) → Uuid → (String → Bool) → Call (Delimited out) Bool
  unfolding handle_conn
  serve_conn auth c taken = do admission ← handle_conn auth c; greet taken admission
