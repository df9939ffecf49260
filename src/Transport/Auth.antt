-- ===== src/Transport/Auth.antt =====
-- crates/rb-transport/src/auth.rs: the handshake by which a client shows that it knows the secret.
-- SHA-256, HMAC, the hexadecimal codec and the uuid crate are parameters, and so is the random
-- challenge.
pub mod Tags
use rust_backup.Prelude.{
  ℕ, String, Bool, true, false, ◌&&◌, Option, none, some, List, [], ◌∷◌, ◌==◌, if◌then◌else◌,
}
use rust_backup.Core.Anyhow.{Call, give, bail, ◌>>=◌, ◌>>◌}
use rust_backup.Core.Wire.{Bytes, Codec}
use rust_backup.Transport.Proto.{
  ClientMsg, authenticate, register, connect, heartbeat, ServerMsg, challenge, accepted,
  heartbeat_echo, error, Output, Delimited, send_msg, recv_msg,
}

pub record Crypto (Uuid : Type 0) : Type 0 where
  pub sha256 : String → Bytes
  pub hmac : Bytes → Bytes → Bytes
  pub as_bytes : Uuid → Bytes
  pub encode : Bytes → String
  pub decode : String → Option Bytes

-- What `verify_slice` compares, the lengths included.
unfoldable pub same_bytes : Bytes → Bytes → Bool
same_bytes [] [] = true
same_bytes [] (y ∷ ys) = false
same_bytes (x ∷ xs) [] = false
same_bytes (x ∷ xs) (y ∷ ys) = let rest = same_bytes xs ys in (x == y) && rest

module _ {Uuid : Type 0} (crypto : Crypto Uuid) where
  -- An HMAC is its key.
  pub record Authenticator : Type 0 where
    pub key : Bytes

  -- `Authenticator::new`
  unfoldable pub new : String → Authenticator
  new secret = record { key = crypto.sha256 secret }

  abbrev pub tag_of : Authenticator → Uuid → Bytes
  tag_of a c = crypto.hmac a.key (crypto.as_bytes c)

  unfoldable pub answer : Authenticator → Uuid → String
  answer a c = crypto.encode (tag_of a c)

  unfoldable pub validate : Authenticator → Uuid → String → Bool
  validate a c tag = elim (crypto.decode tag) [
    | none ↦ false
    | some bytes ↦ same_bytes (tag_of a c) bytes
  ]

  module _ (out : Output) (client : Codec ClientMsg) (server : Codec (ServerMsg Uuid)) where
    abbrev pub judge : Authenticator → Uuid → Option ClientMsg → Call (Delimited out) (Unit {0})
    judge a c (some (authenticate tag)) =
        if validate a c tag then give tt else bail "invalid secret"
    judge a c _ = bail "server requires secret, but no secret was provided"

    unfoldable pub server_handshake : Authenticator → Uuid → Call (Delimited out) (Unit {0})
    server_handshake a c = do
      send_msg out server (challenge c)
      msg ← recv_msg out client
      judge a c msg

    abbrev pub respond : Authenticator → Option (ServerMsg Uuid) → Call (Delimited out) (Unit {0})
    respond a (some (challenge c)) = send_msg out client (authenticate (answer a c))
    respond a (some _) = bail "expected authentication challenge, but no secret was required"
    respond a none = bail "connection closed before authentication"

    unfoldable pub client_handshake : Authenticator → Call (Delimited out) (Unit {0})
    client_handshake a = do msg ← recv_msg out server; respond a msg
