-- ===== src/Prelude/Parse.antt =====
-- `str::split_once`, `rsplit_once`, `strip_prefix` and the first part of a `split`, on one character,
-- and `str::parse` at `i64` and at the unsigned widths, on native texts.
use Prim.Native.Nat.{ℕ, zero, suc, ◌+◌, ◌-◌, ◌*◌, ◌^◌}
use Prim.Native.Char.{code}
use Prim.Native.String.{String, [], ◌∷◌}
use mathlib.Core.Option
use mathlib.Core.Bool.{◌&&◌}
use mathlib.Core.Option.{Option, none, some}
use mathlib.Core.Path.{◌≡◌, refl}
use rust_backup.Prelude.Tests.{leb, ◌==◌, if◌then◌else◌}
use rust_backup.Prelude.Integers.{ℤ, pos, negsuc}

-- The text before and the text behind the first character with the code `c`.
unfoldable pub split_once : ℕ → String → Option (String × String)
split_once c [] = none
split_once c (d ∷ s) =
    let rest = split_once c s in
    if code d == c then some ([], s) else Option.map (λ p. (d ∷ p.0, p.1)) rest

-- The same at the last such character.
unfoldable pub rsplit_once : ℕ → String → Option (String × String)
rsplit_once c [] = none
rsplit_once c (d ∷ s) = elim (rsplit_once c s) [
  | some p ↦ some (d ∷ p.0, p.1)
  | none ↦ if code d == c then some ([], s) else none
]

-- The text up to the first such character, or all of it.
unfoldable pub before : ℕ → String → String
before c [] = []
before c (d ∷ s) = let rest = before c s in if code d == c then [] else d ∷ rest

unfoldable pub strip_prefix : String → String → Option String
strip_prefix [] s = some s
strip_prefix (p ∷ prefix) [] = none
strip_prefix (p ∷ prefix) (d ∷ s) =
    let rest = strip_prefix prefix s in if code p == code d then rest else none

-- The digits of a text behind those read so far.
unfoldable pub digits : ℕ → String → Option ℕ
digits n [] = some n
digits n (d ∷ s) =
    let rest = digits (10 * n + (code d - 48)) s in
    if leb 48 (code d) && leb (code d) 57 then rest else none

-- A number wants one digit at least.
unfoldable pub number : String → Option ℕ
unfolding digits
number [] = none
number (d ∷ s) = digits 0 (d ∷ s)

up_to : ℕ → (ℕ → ℤ) → Option ℕ → Option ℤ
up_to bound f none = none
up_to bound f (some n) = if leb n bound then some (f n) else none

negated : ℕ → ℤ
negated zero = pos 0
negated (suc n) = negsuc n

-- An optional sign, digits, and a value of 64 bits.
unfoldable pub parse_i64 : String → Option ℤ
unfolding number up_to negated
parse_i64 [] = none
parse_i64 (c ∷ s) =
    if code c == 45
    then up_to (2 ^ 63) negated (number s)
    else if code c == 43
    then up_to (2 ^ 63 - 1) pos (number s)
    else up_to (2 ^ 63 - 1) pos (number (c ∷ s))

-- `None` above the bound, which is the largest number of the width.
abbrev pub at_most : ℕ → Option ℕ → Option ℕ
at_most bound none = none
at_most bound (some n) = if leb n bound then some n else none

-- An optional plus, digits, and a value of the width.
unfoldable pub parse_unsigned : ℕ → String → Option ℕ
unfolding number
parse_unsigned bound [] = none
parse_unsigned bound (c ∷ s) =
    if code c == 43 then at_most bound (number s) else at_most bound (number (c ∷ s))

parse_unsigned_runs : parse_unsigned 65535 "65536" ≡ none
unfolding parse_unsigned
parse_unsigned_runs = refl

rsplit_once_runs : rsplit_once 58 "a:b:c" ≡ some ("a:b", "c")
unfolding rsplit_once
rsplit_once_runs = refl

parse_i64_runs : parse_i64 "-42" ≡ some (negsuc 41)
unfolding parse_i64
parse_i64_runs = refl

split_once_runs : split_once 61 "a=b=c" ≡ some ("a", "b=c")
unfolding split_once
split_once_runs = refl
