-- ===== src/Transport/Tests/Connections.antt =====
-- The connection to the server of crates/rb-transport/src/transport.rs at concrete data: sockets in memory, and a
-- rustls whose peers all show the same certificate.
use rust_backup.Prelude.{
  ◌≡◌, refl, Bool, true, false, if◌then◌else◌, none, some, [], ◌∷◌, ◌++◌, length, take, drop,
  strip_prefix, before, rsplit_once, parse_unsigned, codes, same_codes,
}
use rust_backup.Core.Error.{Outcome, success, failure}
use rust_backup.Core.Wire.{Bytes}
use rust_backup.Transport.Connection.{
  Socket, tls, Verifier, Rustls, connect_with_timeout, connect, default_client_config,
}
use rust_backup.Transport.Connection.Verification.{IsHonest, Verified, connect-Verified}
use rust_backup.Transport.Endpoint.{scheme, parse}

abbrev socket : Socket
socket = record {
  State = Bytes;
  poll_read = λ n s. (success (take n s), drop n s);
  poll_write = λ buf s. (success (length buf), s ++ buf);
  poll_flush = λ s. (none, s);
  poll_shutdown = λ s. (none, []);
  poll_write_vectored = λ bufs s. (failure "unsupported", s);
  is_write_vectored = λ s. false;
}

abbrev relay_host : Verifier Bytes Bytes (Unit {0})
relay_host = record {
  verify_server_cert = λ cert name. same_codes cert name;
  verify_tls12_signature = λ cert signature. true;
  verify_tls13_signature = λ cert signature. true;
  supported_verify_schemes = [];
}

abbrev certificate : Bytes
certificate = 114 ∷ 101 ∷ 108 ∷ 97 ∷ 121 ∷ []

-- A handshake asks the verifier about the one certificate.
abbrev offer : Bool → Outcome Bytes
offer b = if b then success [] else failure "bad certificate"

abbrev rustls : Rustls socket socket
rustls = record {
  Cert = Bytes;
  Name = Bytes;
  Signature = Unit {0};
  webpki = relay_host;
  connect_tcp = λ host port. some (success []);
  server_name = λ host. success (codes host);
  handshake = λ v name tcp. offer (v.verify_server_cert certificate name);
}

offered : (b : Bool) (s : Bytes) → offer b ≡ success s → b ≡ true
offered true s h = refl
offered false s h = absurd (cc)

rustls-IsHonest : IsHonest rustls (λ s. certificate)
rustls-IsHonest v name tcp s h = offered (v.verify_server_cert certificate name) s h

connected : connect rustls (parse "https://relay") false ≡ success (tls [])
unfolding connect connect_with_timeout parse scheme strip_prefix before rsplit_once parse_unsigned
    same_codes
connected = refl

stripped : strip_prefix "https://" "https://relay" ≡ some "relay"
unfolding strip_prefix
stripped = refl

connect-Verified_example :
    Verified rustls
      (λ s. certificate)
      (default_client_config rustls)
      (parse "https://relay")
      (tls [])
connect-Verified_example =
    connect-Verified rustls (λ s. certificate) rustls-IsHonest "https://relay" "relay" false
      (tls []) stripped connected
