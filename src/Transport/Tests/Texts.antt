-- ===== src/Transport/Tests/Texts.antt =====
-- The addresses and sizes that crates/rb-transport reads, at concrete data.
use rust_backup.Prelude.{
  strip_prefix, before, rsplit_once, parse_unsigned, ◌≡◌, refl, false, true, arith,
}
use rust_backup.Transport.Endpoint.{scheme, parse}
use rust_backup.Transport.Endpoint.RoundTrip.{address, parse-address}

parse-address_example :
    parse (address (record { host = "::1"; port = 7835; tls = true }))
    ≡ record { host = "::1"; port = 7835; tls = true }
parse-address_example = parse-address true ":" ":1" 7835 (refl, (refl, (refl, tt))) (omega arith)

parse_runs :
    parse "https://backup.example:8443/x"
    ≡ record { host = "backup.example"; port = 8443; tls = true }
unfolding parse scheme strip_prefix before rsplit_once parse_unsigned
parse_runs = refl

parse_plain : parse "[::1]" ≡ record { host = "[::1]"; port = 7835; tls = false }
unfolding parse scheme strip_prefix before rsplit_once parse_unsigned
parse_plain = refl
