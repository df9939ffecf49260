-- ===== src/Transport/Endpoint/Ports.antt =====
-- The port of an endpoint (crates/rb-transport/src/transport.rs).
use Prim.Native.Char.{code}
use rust_backup.Prelude.{
  ◌==◌, ℕ, ◌≤◌, ◌≡◌, refl, String, Bool, true, false, Option, none, some, arith, leb, leb→le,
  Bool-cases, inl, inr, strip_prefix, before, rsplit_once, parse_unsigned, number, at_most,
}
use rust_backup.Transport.Endpoint.{scheme, or_other, or_plain, with_port, split_authority, parse}

abbrev pub is_some {ℓ} : {A : Type ℓ} → Option A → Bool
is_some none = false
is_some (some a) = true

at_most_bound : (bound : ℕ) (x : Option ℕ) (n : ℕ) → at_most bound x ≡ some n → n ≤ bound
at_most_bound bound none n h = absurd (cc)
at_most_bound bound (some m) n h = elim (Bool-cases (leb m bound)) [
  | inl e ↦
      let within = leb→le m bound e in
      let same : m ≡ n = (let kept : some m ≡ some n = rw e at h in cc) in omega arith
  | inr e ↦ absurd (let out : none ≡ some n = rw e at h in cc)
]

parse_unsigned_bound :
    (bound : ℕ) (s : String) (n : ℕ) → parse_unsigned bound s ≡ some n → n ≤ bound
unfolding parse_unsigned
parse_unsigned_bound bound String.[] n h = absurd (cc)
parse_unsigned_bound bound (String.◌∷◌ c s) n h = elim (Bool-cases (code c == 43)) [
  | inl e ↦ at_most_bound bound (number s) n (rw e at h)
  | inr e ↦ at_most_bound bound (number (String.◌∷◌ c s)) n (rw e at h)
]

with_port_bound :
    (authority host : String) (d : ℕ) (x : Option ℕ)
    → d ≤ 65535
    → ((n : ℕ) → x ≡ some n → n ≤ 65535)
    → (with_port authority d host x).1 ≤ 65535
with_port_bound authority host d none p q = p
with_port_bound authority host d (some n) p q = q n refl

split_authority_bound :
    (authority : String) (d : ℕ) (x : Option (String × String))
    → d ≤ 65535
    → (split_authority authority d x).1 ≤ 65535
split_authority_bound authority d none h = h
split_authority_bound authority d (some (String.[], port)) h = h
split_authority_bound authority d (some (String.◌∷◌ c host, port)) h =
    with_port_bound authority (String.◌∷◌ c host) d (parse_unsigned 65535 port) h
      (parse_unsigned_bound 65535 port)

scheme_bound : (to : String) → (scheme to).default_port ≤ 65535
unfolding scheme
scheme_bound to = other (strip_prefix "https://" to)
  where
    plain : (x : Option String) → (or_plain to x).default_port ≤ 65535
    plain none = omega arith
    plain (some rest) = omega arith

    other : (x : Option String) → (or_other to x).default_port ≤ 65535
    other (some rest) = omega arith
    other none = plain (strip_prefix "http://" to)

scheme_tls : (to : String) → (scheme to).tls ≡ is_some (strip_prefix "https://" to)
unfolding scheme
scheme_tls to = other (strip_prefix "https://" to)
  where
    plain : (x : Option String) → (or_plain to x).tls ≡ false
    plain none = refl
    plain (some rest) = refl

    other : (x : Option String) → (or_other to x).tls ≡ is_some x
    other (some rest) = refl
    other none = plain (strip_prefix "http://" to)

-- Whatever the text, the port of its endpoint is one of 16 bits, and TLS is spoken exactly when the text
-- begins with `https://`.
pub parse_bounds :
    (to : String)
    → ((parse to).port ≤ 65535) × ((parse to).tls ≡ is_some (strip_prefix "https://" to))
unfolding parse
parse_bounds to = (
  split_authority_bound (before 47 (scheme to).rest) (scheme to).default_port
      (rsplit_once 58 (before 47 (scheme to).rest)) (scheme_bound to),
  scheme_tls to,
)
