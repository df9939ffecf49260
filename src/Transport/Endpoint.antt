-- ===== src/Transport/Endpoint.antt =====
-- `Endpoint` of crates/rb-transport/src/transport.rs: where the coordination server is.
pub mod Ports
pub mod RoundTrip
use rust_backup.Prelude.{
  ℕ, String, Bool, true, false, Option, none, some, strip_prefix, before, rsplit_once,
  parse_unsigned,
}

abbrev pub control_port : ℕ
control_port = 7835

pub record Endpoint : Type 0 where
  pub host : String
  pub port : ℕ
  pub tls : Bool

-- The scheme: whether to speak TLS, the port if none is given, and the rest.
pub record Scheme : Type 0 where
  pub tls : Bool
  pub default_port : ℕ
  pub rest : String

abbrev or_plain : String → Option String → Scheme
or_plain to (some rest) = record { tls = false; default_port = 80; rest = rest }
or_plain to none = record { tls = false; default_port = control_port; rest = to }

abbrev or_other : String → Option String → Scheme
or_other to (some rest) = record { tls = true; default_port = 443; rest = rest }
or_other to none = or_plain to (strip_prefix "http://" to)

unfoldable pub scheme : String → Scheme
scheme to = or_other to (strip_prefix "https://" to)

abbrev pub with_port : String → ℕ → String → Option ℕ → String × ℕ
with_port authority default_port host (some port) = (host, port)
with_port authority default_port host none = (authority, default_port)

-- A host without a character is none.
abbrev pub split_authority : String → ℕ → Option (String × String) → String × ℕ
split_authority authority default_port none = (authority, default_port)
split_authority authority default_port (some (String.[], port)) = (authority, default_port)
split_authority authority default_port (some (String.◌∷◌ c host, port)) =
    with_port authority default_port (String.◌∷◌ c host) (parse_unsigned 65535 port)

abbrev pub endpoint_of : Scheme → Endpoint
endpoint_of s =
    let authority = before 47 s.rest in
    let (host, port) = split_authority authority s.default_port (rsplit_once 58 authority) in
    record { host = host; port = port; tls = s.tls }

-- `Endpoint::parse`
unfoldable pub parse : String → Endpoint
parse to = endpoint_of (scheme to)
