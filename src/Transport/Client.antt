-- ===== src/Transport/Client.antt =====
-- crates/rb-transport/src/client.rs: how a source and a destination come to their channel. The
-- connection (TCP, TLS and the yamux driver) is a parameter, and so is the derived `Debug` text.
pub mod Introducing
use rust_backup.Prelude.{String, ◌<>◌, Bool, Option, none, some}
use rust_backup.Core.Config.{TransportConfig}
use rust_backup.Core.Anyhow.{Call}
use rust_backup.Core.Error.{
  Result, ok, err, Action, ◌>>=◌, ◌>>◌, pure, fail, Outcome, success, failure, connect, phase,
}
use rust_backup.Core.Wire.{Codec}
use rust_backup.Transport.Auth.{Crypto, new, client_handshake}
use rust_backup.Transport.Endpoint
use rust_backup.Transport.Endpoint.{Endpoint}
use rust_backup.Transport.Paired.{Inner, source, destination}
use rust_backup.Transport.Proto
use rust_backup.Transport.Proto.{
  ClientMsg, register, ServerMsg, accepted, error, Output, Delimited, send_msg, recv_msg,
}

-- `map_err(|e| BackupError::phase(Phase::Connect, format!("{label}{e}")))`
abbrev pub labelled {ℓ} : {S : Type 0} {A : Type ℓ} → String → Outcome A × S → Result A × S
labelled label (success a, s) = (ok a, s)
labelled label (failure e, s) = (err (phase connect (label <> e)), s)

abbrev pub at {ℓ} : {S : Type 0} {A : Type ℓ} → String → Call S A → Action S A
at label m s = labelled label (m s)

module _ (out : Output) {Uuid : Type 0} (crypto : Crypto Uuid) (client : Codec ClientMsg)
    (server : Codec (ServerMsg Uuid)) (debug : Option (ServerMsg Uuid) → String) where
  abbrev pub prove : Option String → Action (Delimited out) (Unit {0})
  prove none = pure tt
  prove (some secret) = at "auth: " (client_handshake crypto out client server (new crypto secret))

  abbrev pub conclude : Option (ServerMsg Uuid) → Action (Delimited out) (Unit {0})
  conclude (some accepted) = pure tt
  conclude (some (error reason)) = fail (phase connect ("server error: " <> reason))
  conclude other = fail (phase connect ("unexpected response: " <> debug other))

  -- The talk on the control stream, from the first message on.
  unfoldable pub introduce : String → ClientMsg → Option String → Action (Delimited out) (Unit {0})
  introduce label first secret = do
    at label (send_msg out client first)
    prove secret
    answer ← at "recv: " (recv_msg out server)
    conclude answer

  pub record Net : Type 1 where
    pub Socket : Type 0
    pub connect_to : Endpoint → Bool → Outcome Socket
    pub open_control : Socket → Outcome (Delimited out)

  pub record PairedChannel : Type 0 where
    pub inner : Inner
    pub control : Delimited out

  module _ (net : Net) where
    abbrev pub paired : Inner → Result (Unit {0}) × Delimited out → Result PairedChannel
    paired inner (ok _, d) = ok (record { inner = inner; control = d })
    paired inner (err e, d) = err e

    abbrev pub on_control :
        Inner → String → ClientMsg → Option String → Outcome (Delimited out) → Result PairedChannel
    on_control inner label first secret (failure e) = err (phase connect ("open control: " <> e))
    on_control inner label first secret (success d) = paired inner (introduce label first secret d)

    abbrev pub on_socket :
        Inner → String → ClientMsg → Option String → Outcome net.Socket → Result PairedChannel
    on_socket inner label first secret (failure e) = err (phase connect ("transport: " <> e))
    on_socket inner label first secret (success s) =
        on_control inner label first secret (net.open_control s)

    unfoldable pub connect_source : TransportConfig → Result PairedChannel
    connect_source cfg =
        on_socket source "send register: " (register cfg.channel) cfg.secret
          (net.connect_to (Endpoint.parse cfg.to) cfg.insecure)

    unfoldable pub connect_destination : TransportConfig → Result PairedChannel
    connect_destination cfg =
        on_socket destination "send connect: " (Proto.connect cfg.channel) cfg.secret
          (net.connect_to (Endpoint.parse cfg.to) cfg.insecure)
