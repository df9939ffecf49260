-- ===== src/Transport/Endpoint/RoundTrip.antt =====
-- An endpoint written as an address, and read back by `Endpoint::parse` of
-- crates/rb-transport/src/transport.rs.
use Prim.Native.Char.{Char, code}
use text.Mathlib.TextLemmas.{nil-append, cons-append}
use rust_backup.Prelude.{
  ℕ, ◌≤◌, ◌≡◌, refl, ap, ◌∙◌, String, ◌<>◌, Bool, true, false, some, arith, leb, ◌==◌,
  if◌then◌else◌, rsplit_once, parse_unsigned, number, decimal, number-decimal, IsNumeral, IsDigits,
  IsFree, IsFree-append, before-IsFree, rsplit_once_last, strip_prefix-append, strip_prefix_other,
  differ,
}
use rust_backup.Transport.Endpoint.{
  Endpoint, scheme, or_other, or_plain, with_port, split_authority, endpoint_of, parse,
}

-- The address of an endpoint, its port written out.
abbrev pub address : Endpoint → String
address e = (if e.tls then "https://" else "http://") <> (e.host <> (":" <> decimal e.port))

IsDigits-IsFree :
    (k : ℕ) (s : String)
    → ((c : Char) → 48 ≤ code c → code c ≤ 57 → (code c == k) ≡ false)
    → IsDigits s
    → IsFree k s
IsDigits-IsFree k String.[] other h = tt
IsDigits-IsFree k (String.◌∷◌ c s) other ((low, high), h) =
    (other c low high, IsDigits-IsFree k s other h)

numeral-IsFree :
    (k : ℕ) (s : String)
    → ((c : Char) → 48 ≤ code c → code c ≤ 57 → (code c == k) ≡ false)
    → IsNumeral s
    → IsFree k s
numeral-IsFree k String.[] other h = elim h [ ]
numeral-IsFree k (String.◌∷◌ c s) other h = IsDigits-IsFree k (String.◌∷◌ c s) other h

parse_numeral :
    (s : String) (n : ℕ)
    → IsNumeral s
    → number s ≡ some n
    → n ≤ 65535
    → parse_unsigned 65535 s ≡ some n
unfolding parse_unsigned
parse_numeral String.[] n h e within = elim h [ ]
parse_numeral (String.◌∷◌ c s) n ((low, high), h) e within =
    let no_plus : (code c == 43) ≡ false = ground arith in
    let fits : leb n 65535 ≡ true = ground arith in rw (no_plus, e, fits) refl

scheme-address :
    (tls : Bool) (rest : String)
    → scheme ((if tls then "https://" else "http://") <> rest)
      ≡ record { tls = tls; default_port = if tls then 443 else 80; rest = rest }
unfolding scheme
scheme-address true rest = ap (or_other ("https://" <> rest)) (strip_prefix-append "https://" rest)
scheme-address false rest =
    ap (or_other ("http://" <> rest)) (strip_prefix_other "https://" "http://" rest differs)
    ∙ ap (or_plain ("http://" <> rest)) (strip_prefix-append "http://" rest)
  where
    differs : differ "https://" "http://" ≡ true
    differs = unfold differ in refl

-- The address of an endpoint with a host of one character at least and without a slash, and a port of 16
-- bits, is parsed to this very endpoint, over TLS and without, also if the host has colons.
pub parse-address :
    (tls : Bool) (c : Char) (host : String) (port : ℕ)
    → IsFree 47 (String.◌∷◌ c host)
    → port ≤ 65535
    → parse (address (record { host = String.◌∷◌ c host; port = port; tls = tls }))
      ≡ record { host = String.◌∷◌ c host; port = port; tls = tls }
unfolding parse
parse-address tls c host port free within =
    let (back, numeral) = number-decimal port (omega arith) in
    let h : String = String.◌∷◌ c host in
    let no_slash : IsFree 47 (":" <> decimal port) =
      IsFree-append 47 ":" (decimal port) (refl, tt)
        (numeral-IsFree 47 (decimal port) (λ c low high. ground arith) numeral) in
    let no_colon = numeral-IsFree 58 (decimal port) (λ c low high. ground arith) numeral in
    let authority =
      before-IsFree 47 (h <> (":" <> decimal port))
        (IsFree-append 47 h (":" <> decimal port) free no_slash) in
    let colon : ":" <> decimal port ≡ String.◌∷◌ ":" (decimal port) =
      cons-append ":" "" (decimal port) ∙ ap (String.◌∷◌ ":") (nil-append (decimal port)) in
    let cut =
      ap (λ x. rsplit_once 58 (h <> x)) colon
      ∙ rsplit_once_last 58 h ":" (decimal port) refl no_colon in
    let d : ℕ = if tls then 443 else 80 in
    let ends : String × ℕ → Endpoint = λ p. record { host = p.0; port = p.1; tls = tls } in
    ap endpoint_of (scheme-address tls (h <> (":" <> decimal port)))
    ∙ ap (λ a. ends (split_authority a d (rsplit_once 58 a))) authority
    ∙ ap (λ x. ends (split_authority (h <> (":" <> decimal port)) d x)) cut
    ∙ ap (λ x. ends (with_port (h <> (":" <> decimal port)) d h x))
        (parse_numeral (decimal port) port numeral back within)
