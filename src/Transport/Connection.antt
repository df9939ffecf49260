-- ===== src/Transport/Connection.antt =====
-- `ControlStream` and `connect` of crates/rb-transport/src/transport.rs: the connection to the server, over
-- TLS or not. The sockets, rustls and the roots of webpki are parameters; a connection that is not there in
-- time is one of the results of `connect_tcp`. An error is its outermost context, as `{}` writes it.
pub mod Delegation
pub mod Verification
use rust_backup.Prelude.{
  ℕ, String, Bool, true, false, if◌then◌else◌, List, [], ◌∷◌, Option, none, some,
}
use rust_backup.Core.Error.{Outcome, success, failure}
use rust_backup.Core.Wire.{Bytes}
use rust_backup.Transport.Endpoint.{Endpoint}

-- `AsyncRead` and `AsyncWrite`. A poll that is not ready is one that has not come to its result yet.
pub record Socket : Type 1 where
  pub State : Type 0
  pub poll_read : ℕ → State → Outcome Bytes × State
  pub poll_write : Bytes → State → Outcome ℕ × State
  pub poll_flush : State → Option String × State
  pub poll_shutdown : State → Option String × State
  pub poll_write_vectored : List Bytes → State → Outcome ℕ × State
  pub is_write_vectored : State → Bool

pub data ControlStream (Tcp Tls : Socket) : Type 0 where
  plain : Tcp.State → ControlStream Tcp Tls
  tls : Tls.State → ControlStream Tcp Tls

module _ (Tcp Tls : Socket) where
  abbrev pub as_plain {ℓ} : {A : Type ℓ} → A × Tcp.State → A × ControlStream Tcp Tls
  as_plain (a, s) = (a, plain s)

  abbrev pub as_tls {ℓ} : {A : Type ℓ} → A × Tls.State → A × ControlStream Tcp Tls
  as_tls (a, s) = (a, tls s)

  unfoldable pub poll_read : ℕ → ControlStream Tcp Tls → Outcome Bytes × ControlStream Tcp Tls
  poll_read n (plain s) = as_plain (Tcp.poll_read n s)
  poll_read n (tls s) = as_tls (Tls.poll_read n s)

  unfoldable pub poll_write : Bytes → ControlStream Tcp Tls → Outcome ℕ × ControlStream Tcp Tls
  poll_write buf (plain s) = as_plain (Tcp.poll_write buf s)
  poll_write buf (tls s) = as_tls (Tls.poll_write buf s)

  unfoldable pub poll_flush : ControlStream Tcp Tls → Option String × ControlStream Tcp Tls
  poll_flush (plain s) = as_plain (Tcp.poll_flush s)
  poll_flush (tls s) = as_tls (Tls.poll_flush s)

  unfoldable pub poll_shutdown : ControlStream Tcp Tls → Option String × ControlStream Tcp Tls
  poll_shutdown (plain s) = as_plain (Tcp.poll_shutdown s)
  poll_shutdown (tls s) = as_tls (Tls.poll_shutdown s)

  unfoldable pub poll_write_vectored :
      List Bytes → ControlStream Tcp Tls → Outcome ℕ × ControlStream Tcp Tls
  poll_write_vectored bufs (plain s) = as_plain (Tcp.poll_write_vectored bufs s)
  poll_write_vectored bufs (tls s) = as_tls (Tls.poll_write_vectored bufs s)

  unfoldable pub is_write_vectored : ControlStream Tcp Tls → Bool
  is_write_vectored (plain s) = Tcp.is_write_vectored s
  is_write_vectored (tls s) = Tls.is_write_vectored s

  abbrev pub control_stream : Socket
  control_stream = record {
    State = ControlStream Tcp Tls;
    poll_read = poll_read;
    poll_write = poll_write;
    poll_flush = poll_flush;
    poll_shutdown = poll_shutdown;
    poll_write_vectored = poll_write_vectored;
    is_write_vectored = is_write_vectored;
  }

pub data SignatureScheme : Type 0 where
  rsa_pkcs1_sha256 ecdsa_nistp256_sha256 ed25519 : SignatureScheme
  other_scheme : ℕ → SignatureScheme

-- `ServerCertVerifier`: whether it accepts a certificate for a name, and a signature.
pub record Verifier (Cert Name Signature : Type 0) : Type 0 where
  pub verify_server_cert : Cert → Name → Bool
  pub verify_tls12_signature : Cert → Signature → Bool
  pub verify_tls13_signature : Cert → Signature → Bool
  pub supported_verify_schemes : List SignatureScheme

-- What `rustls`, `webpki_roots` and tokio's sockets supply.
pub record Rustls (Tcp Tls : Socket) : Type 1 where
  pub Cert : Type 0
  pub Name : Type 0
  pub Signature : Type 0
  pub webpki : Verifier Cert Name Signature
  -- none when the time is over
  pub connect_tcp : String → ℕ → Option (Outcome Tcp.State)
  pub server_name : String → Outcome Name
  pub handshake : Verifier Cert Name Signature → Name → Tcp.State → Outcome Tls.State

module _ {Tcp Tls : Socket} (rustls : Rustls Tcp Tls) where
  abbrev pub default_client_config : Verifier rustls.Cert rustls.Name rustls.Signature
  default_client_config = rustls.webpki

  abbrev pub insecure_client_config : Verifier rustls.Cert rustls.Name rustls.Signature
  insecure_client_config = record {
    verify_server_cert = λ cert name. true;
    verify_tls12_signature = λ cert signature. true;
    verify_tls13_signature = λ cert signature. true;
    supported_verify_schemes = rsa_pkcs1_sha256 ∷ ecdsa_nistp256_sha256 ∷ ed25519 ∷ [];
  }

  abbrev pub in_time : Option (Outcome Tcp.State) → Outcome Tcp.State
  in_time none = failure "connection timeout"
  in_time (some (failure e)) = failure "failed to connect"
  in_time (some (success tcp)) = success tcp

  unfoldable pub connect_with_timeout : String → ℕ → Outcome Tcp.State
  connect_with_timeout host port = in_time (rustls.connect_tcp host port)

  abbrev pub over_tls : Outcome Tls.State → Outcome (ControlStream Tcp Tls)
  over_tls (failure e) = failure "tls handshake failed"
  over_tls (success s) = success (tls s)

  abbrev pub client_config : Bool → Verifier rustls.Cert rustls.Name rustls.Signature
  client_config insecure = if insecure then insecure_client_config else default_client_config

  abbrev pub named : Bool → Tcp.State → Outcome rustls.Name → Outcome (ControlStream Tcp Tls)
  named insecure tcp (failure e) = failure "invalid server name"
  named insecure tcp (success name) = over_tls (rustls.handshake (client_config insecure) name tcp)

  abbrev pub on_tcp : Endpoint → Bool → Outcome Tcp.State → Outcome (ControlStream Tcp Tls)
  on_tcp endpoint insecure (failure e) = failure e
  on_tcp endpoint insecure (success tcp) =
      if endpoint.tls
      then named insecure tcp (rustls.server_name endpoint.host)
      else success (plain tcp)

  unfoldable pub connect : Endpoint → Bool → Outcome (ControlStream Tcp Tls)
  connect endpoint insecure =
      on_tcp endpoint insecure (connect_with_timeout endpoint.host endpoint.port)
