-- ===== src/Transport/Connection/Verification.antt =====
-- When a connection of crates/rb-transport/src/transport.rs is encrypted, and whose certificate it has seen.
use rust_backup.Prelude.{◌≡◌, refl, ap, ◌∙◌, String, Bool, true, if◌then◌else◌, some, strip_prefix}
use rust_backup.Core.Error.{Outcome, success, failure}
use rust_backup.Transport.Connection.{
  Socket, ControlStream, tls, Verifier, Rustls, default_client_config, insecure_client_config,
  client_config, connect_with_timeout, over_tls, named, on_tcp, connect,
}
use rust_backup.Transport.Endpoint.{Endpoint, parse}
use rust_backup.Transport.Endpoint.Ports.{is_some, parse_bounds}

module _ {Tcp Tls : Socket} (rustls : Rustls Tcp Tls) (peer : Tls.State → rustls.Cert) where
  -- What rustls promises: a handshake that succeeds has shown the certificate of the peer to the verifier,
  -- under the name that was asked for, and was not refused.
  abbrev pub IsHonest : Type 0
  IsHonest =
      (v : Verifier rustls.Cert rustls.Name rustls.Signature) (name : rustls.Name) (tcp : Tcp.State)
      (s : Tls.State)
      → rustls.handshake v name tcp ≡ success s
      → v.verify_server_cert (peer s) name ≡ true

  -- An encrypted connection to the host of an endpoint, whose certificate the verifier accepts.
  pub record Verified (v : Verifier rustls.Cert rustls.Name rustls.Signature) (endpoint : Endpoint)
      (c : ControlStream Tcp Tls) : Type 0 where
    pub stream : Tls.State
    pub name : rustls.Name
    pub encrypted : c ≡ tls stream
    pub host : rustls.server_name endpoint.host ≡ success name
    pub accepted : v.verify_server_cert (peer stream) name ≡ true

  over_tls-Verified :
      (honest : IsHonest) (endpoint : Endpoint) (insecure : Bool) (name : rustls.Name)
      (tcp : Tcp.State) (c : ControlStream Tcp Tls) (r : Outcome Tls.State)
      → rustls.server_name endpoint.host ≡ success name
      → rustls.handshake (client_config rustls insecure) name tcp ≡ r
      → over_tls rustls r ≡ success c
      → Verified (client_config rustls insecure) endpoint c
  over_tls-Verified honest endpoint insecure name tcp c (failure e) n ran h = absurd (cc)
  over_tls-Verified honest endpoint insecure name tcp c (success s) n ran h = record {
    stream = s;
    name = name;
    encrypted = let e : c ≡ tls s = cc in e;
    host = n;
    accepted = honest (client_config rustls insecure) name tcp s ran;
  }

  named-Verified :
      (honest : IsHonest) (endpoint : Endpoint) (insecure : Bool) (tcp : Tcp.State)
      (c : ControlStream Tcp Tls) (n : Outcome rustls.Name)
      → rustls.server_name endpoint.host ≡ n
      → named rustls insecure tcp n ≡ success c
      → Verified (client_config rustls insecure) endpoint c
  named-Verified honest endpoint insecure tcp c (failure e) asked h = absurd (cc)
  named-Verified honest endpoint insecure tcp c (success name) asked h =
      over_tls-Verified honest endpoint insecure name tcp c
        (rustls.handshake (client_config rustls insecure) name tcp) asked refl h

  on_tcp-Verified :
      (honest : IsHonest) (endpoint : Endpoint) (insecure : Bool) (c : ControlStream Tcp Tls)
      (r : Outcome Tcp.State)
      → endpoint.tls ≡ true
      → on_tcp rustls endpoint insecure r ≡ success c
      → Verified (client_config rustls insecure) endpoint c
  on_tcp-Verified honest endpoint insecure c (failure e) t h = absurd (cc)
  on_tcp-Verified honest endpoint insecure c (success tcp) t h =
      named-Verified honest endpoint insecure tcp c (rustls.server_name endpoint.host) refl
        (rw t at h)

  -- If rustls is honest, a client that is given an `https://` address either gets no connection, or one
  -- that is encrypted and whose certificate is accepted for the host of the address: by the roots of
  -- webpki, unless the configuration says `insecure`.
  pub connect-Verified :
      (honest : IsHonest) (to rest : String) (insecure : Bool) (c : ControlStream Tcp Tls)
      → strip_prefix "https://" to ≡ some rest
      → connect rustls (parse to) insecure ≡ success c
      → Verified
          (if insecure then insecure_client_config rustls else default_client_config rustls)
          (parse to)
          c
  unfolding connect
  connect-Verified honest to rest insecure c secure h =
      on_tcp-Verified honest (parse to) insecure c
        (connect_with_timeout rustls (parse to).host (parse to).port)
        ((parse_bounds to).1 ∙ ap is_some secure) h
