-- ===== src/Transport/Size.antt =====
-- crates/rb-transport/src/shared.rs: a size as a text, and the size of a relay's buffer. The environment
-- variable is an argument, none if it cannot be read; `usize` has 64 bits.
pub mod Reading
pub mod Units
use rust_backup.Prelude.{
  ℕ, ◌+◌, ◌-◌, ◌*◌, ◌^◌, String, Bool, ◌&&◌, ◌||◌, Option, none, some, List, [], ◌∷◌, leb, ltb,
  if◌then◌else◌, at_most, codes, trim, lowercase, same_codes,
}

abbrev pub default_proxy_buffer_size : ℕ
default_proxy_buffer_size = 262_144

abbrev pub min_proxy_buffer_size : ℕ
min_proxy_buffer_size = 4_096

abbrev pub max_proxy_buffer_size : ℕ
max_proxy_buffer_size = 16_777_216

abbrev pub is_digit : ℕ → Bool
is_digit c = leb 48 c && leb c 57

-- The text before and from the first character that is no digit.
unfoldable pub split_digits : List ℕ → List ℕ × List ℕ
split_digits [] = ([], [])
split_digits (c ∷ cs) =
    let rest = split_digits cs in if is_digit c then (c ∷ rest.0, rest.1) else ([], c ∷ cs)

unfoldable pub value : ℕ → List ℕ → ℕ
value n [] = n
value n (c ∷ cs) = value (10 * n + (c - 48)) cs

-- `parse::<u64>` of digits.
abbrev pub parse_digits : List ℕ → Option ℕ
parse_digits [] = none
parse_digits (c ∷ cs) = at_most (2 ^ 64 - 1) (some (value 0 (c ∷ cs)))

abbrev pub either : String → String → List ℕ → Bool
either short long s = same_codes s (codes short) || same_codes s (codes long)

unfoldable pub multiplier : List ℕ → Option ℕ
multiplier s =
    if either "" "b" s
    then some 1
    else if either "k" "kb" s
    then some 1_000
    else if either "m" "mb" s
    then some 1_000_000
    else if either "g" "gb" s
    then some 1_000_000_000
    else if either "ki" "kib" s
    then some 1_024
    else if either "mi" "mib" s
    then some (1_024 * 1_024)
    else if either "gi" "gib" s
    then some (1_024 * 1_024 * 1_024)
    else none

abbrev pub checked_mul : Option ℕ → Option ℕ → Option ℕ
checked_mul none m = none
checked_mul (some bytes) none = none
checked_mul (some bytes) (some m) = at_most (2 ^ 64 - 1) (some (bytes * m))

abbrev pub parse_trimmed : List ℕ → Option ℕ
parse_trimmed [] = none
parse_trimmed (c ∷ cs) =
    let (number, suffix) = split_digits (c ∷ cs) in
    checked_mul (parse_digits number) (multiplier (lowercase (trim suffix)))

unfoldable pub parse_size_bytes : String → Option ℕ
parse_size_bytes text = parse_trimmed (trim (codes text))

abbrev pub clamp : ℕ → ℕ → ℕ → ℕ
clamp low high n = if ltb n low then low else if ltb high n then high else n

abbrev pub resolved : Option ℕ → ℕ
resolved none = default_proxy_buffer_size
resolved (some bytes) = clamp min_proxy_buffer_size max_proxy_buffer_size bytes

unfoldable pub proxy_buffer_size : Option String → ℕ
proxy_buffer_size none = default_proxy_buffer_size
proxy_buffer_size (some raw) = resolved (parse_size_bytes raw)
