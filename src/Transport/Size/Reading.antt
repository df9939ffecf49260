-- ===== src/Transport/Size/Reading.antt =====
-- What crates/rb-transport/src/shared.rs reads as a size, and what it makes of it.
use native.Mathlib.Nat.{le-mul_of_pos_right}
use rust_backup.Prelude.{
  ℕ, ◌-◌, ◌*◌, ◌^◌, ◌≤◌, ◌<◌, ◌≡◌, ◌↔◌, refl, ap, sym, ◌∙◌, String, true, false, Option, none, some,
  List, [], ◌∷◌, ◌++◌, All, Bool-cases, inl, inr, leb, at_most, codes, trim, lowercase, arith,
  length,
}
use rust_backup.Transport.Size.Units.{
  IsDigit, is_digit_iff, All-IsDigit, decimal_value, value-decimal_value, IsUnit, multiplier_iff,
  IsUnit-positive,
}
use rust_backup.Transport.Size.{
  is_digit, split_digits, value, parse_digits, multiplier, checked_mul, parse_trimmed,
  parse_size_bytes, min_proxy_buffer_size, max_proxy_buffer_size, resolved, proxy_buffer_size,
}

abbrev NoDigit : List ℕ → Type 0
NoDigit [] = Unit {0}
NoDigit (c ∷ cs) = is_digit c ≡ false

-- The text does not begin with a digit.
abbrev pub DigitsEnd : List ℕ → Type 0
DigitsEnd [] = Unit {0}
DigitsEnd (c ∷ cs) = ¬ IsDigit c

NoDigit-DigitsEnd : (cs : List ℕ) → NoDigit cs ↔ DigitsEnd cs
NoDigit-DigitsEnd [] = (λ h. tt, λ h. tt)
NoDigit-DigitsEnd (c ∷ cs) = (
  λ h d. let e = (is_digit_iff c).1 d in cc,
  λ h. elim (Bool-cases (is_digit c)) [ inl e ↦ absurd (h ((is_digit_iff c).0 e)) | inr e ↦ e ],
)

-- The digits and the suffix that a text begins with, and the number that they stand for.
pub record IsSize (text : List ℕ) (n : ℕ) : Type 0 where
  pub number : List ℕ
  pub suffix : List ℕ
  pub unit : ℕ
  pub parts : number ++ suffix ≡ text
  pub digits : All IsDigit number
  pub one : 0 < length number
  pub no_more : DigitsEnd suffix
  pub named : IsUnit (lowercase (trim suffix)) unit
  pub size : n ≡ decimal_value number * unit
  pub fits : n < 2 ^ 64

split_digits-parts :
    (cs : List ℕ)
    → ((split_digits cs).0 ++ (split_digits cs).1 ≡ cs)
      × All (λ c. is_digit c ≡ true) (split_digits cs).0
      × NoDigit (split_digits cs).1
unfolding split_digits
split_digits-parts [] = (refl, tt, tt)
split_digits-parts (c ∷ cs) = elim (Bool-cases (is_digit c)) [
  | inl e ↦
      let (parts, digits, rest) = split_digits-parts cs in
      rw e (ap (◌∷◌ c) parts, (e, digits), rest)
  | inr e ↦ rw e (refl, tt, e)
]

split_digits-append :
    (ds cs : List ℕ)
    → All (λ c. is_digit c ≡ true) ds
    → NoDigit cs
    → split_digits (ds ++ cs) ≡ (ds, cs)
unfolding split_digits
split_digits-append [] [] h no_more = refl
split_digits-append [] (c ∷ cs) h no_more = rw no_more refl
split_digits-append (d ∷ ds) cs (e, h) no_more =
    rw e (ap (λ r. (d ∷ r.0, r.1)) (split_digits-append ds cs h no_more))

at_most-some : (bound n m : ℕ) → at_most bound (some n) ≡ some m → (n ≡ m) × (m ≤ bound)
at_most-some bound n m h = elim (Bool-cases (leb n bound)) [
  | inl e ↦ let same : some n ≡ some m = rw e at h in let q : n ≡ m = cc in (q, ground arith)
  | inr e ↦ absurd (let bad : none ≡ some m = rw e at h in cc)
]

parse_digits-value :
    (ds : List ℕ) (n : ℕ) → parse_digits ds ≡ some n → (value 0 ds ≡ n) × (0 < length ds)
parse_digits-value [] n h = absurd (cc)
parse_digits-value (d ∷ ds) n h =
    ((at_most-some (2 ^ 64 - 1) (value 0 (d ∷ ds)) n h).0, omega arith)

some-at_most : (bound n : ℕ) → n ≤ bound → at_most bound (some n) ≡ some n
some-at_most bound n h = let e : leb n bound ≡ true = ground arith in rw e refl

parse_value :
    (ds : List ℕ) → 0 < length ds → value 0 ds < 2 ^ 64 → parse_digits ds ≡ some (value 0 ds)
parse_value [] pos small = absurd (omega arith)
parse_value (d ∷ ds) pos small = some-at_most (2 ^ 64 - 1) (value 0 (d ∷ ds)) (omega arith)

product :
    (x y : Option ℕ) (n : ℕ)
    → checked_mul x y ≡ some n
    → (a b : ℕ) × (x ≡ some a) × (y ≡ some b) × (n ≡ a * b) × (n < 2 ^ 64)
product none y n h = absurd (cc)
product (some a) none n h = absurd (cc)
product (some a) (some b) n h =
    let (e, within) = at_most-some (2 ^ 64 - 1) (a * b) n h in
    (a, b, refl, refl, sym e, omega arith)

parse_trimmed-IsSize : (text : List ℕ) (n : ℕ) → parse_trimmed text ≡ some n → IsSize text n
parse_trimmed-IsSize [] n h = absurd (cc)
parse_trimmed-IsSize (c ∷ cs) n h =
    let (number, suffix) = split_digits (c ∷ cs) in
    let (parts, digits, no_more) = split_digits-parts (c ∷ cs) in
    let (a, unit, read, named, size, fits) =
      product (parse_digits number) (multiplier (lowercase (trim suffix))) n h in
    let (same, one) = parse_digits-value number a read in
    record {
      number = number;
      suffix = suffix;
      unit = unit;
      parts = parts;
      digits = (All-IsDigit number).0 digits;
      one = one;
      no_more = (NoDigit-DigitsEnd suffix).0 no_more;
      named = (multiplier_iff (lowercase (trim suffix)) unit).0 named;
      size = size ∙ ap (λ x. x * unit) (sym same ∙ value-decimal_value number);
      fits = fits;
    }

factor_small : (a u b : ℕ) → 0 < u → a * u < b → a < b
factor_small a u b pos h = let grows : a ≤ a * u = le-mul_of_pos_right a pos in omega arith

empty : (xs ys : List ℕ) → 0 < length xs → ¬ (xs ++ ys ≡ [])
empty [] ys pos h = absurd (omega arith)
empty (x ∷ xs) ys pos h = cc

IsSize-parse_trimmed : (text : List ℕ) (n : ℕ) → IsSize text n → parse_trimmed text ≡ some n
IsSize-parse_trimmed [] n s = absurd (empty s.number s.suffix s.one s.parts)
IsSize-parse_trimmed (c ∷ cs) n s =
    let named = (multiplier_iff (lowercase (trim s.suffix)) s.unit).1 s.named in
    let size : n ≡ value 0 s.number * s.unit =
      s.size ∙ ap (λ x. x * s.unit) (sym (value-decimal_value s.number)) in
    let total : value 0 s.number * s.unit < 2 ^ 64 = rw size at s.fits in
    let small : value 0 s.number < 2 ^ 64 =
      factor_small (value 0 s.number) s.unit (2 ^ 64) (IsUnit-positive s.named) total in
    ap (λ r. checked_mul (parse_digits r.0) (multiplier (lowercase (trim r.1))))
      (ap split_digits (sym s.parts)
        ∙ split_digits-append s.number s.suffix ((All-IsDigit s.number).1 s.digits)
            ((NoDigit-DigitsEnd s.suffix).1 s.no_more))
    ∙ ap (λ x. checked_mul x (multiplier (lowercase (trim s.suffix))))
        (parse_value s.number s.one small)
    ∙ ap (checked_mul (some (value 0 s.number))) named
    ∙ some-at_most (2 ^ 64 - 1) (value 0 s.number * s.unit) (omega arith)
    ∙ ap some (sym size)

pub parse_size_bytes-IsSize :
    (text : String) (n : ℕ) → (parse_size_bytes text ≡ some n) ↔ IsSize (trim (codes text)) n
unfolding parse_size_bytes
parse_size_bytes-IsSize text n =
    (parse_trimmed-IsSize (trim (codes text)) n, IsSize-parse_trimmed (trim (codes text)) n)

least_resolved : (x : Option ℕ) → min_proxy_buffer_size ≤ resolved x
least_resolved none = omega arith
least_resolved (some n) = ground arith

most_resolved : (x : Option ℕ) → resolved x ≤ max_proxy_buffer_size
most_resolved none = omega arith
most_resolved (some n) = ground arith

within : (n : ℕ) → min_proxy_buffer_size ≤ n → n ≤ max_proxy_buffer_size → resolved (some n) ≡ n
within n low high = ground arith

-- Whatever the environment says, the buffer of a relay has from 4 KiB to 16 MiB, and it has exactly the
-- size that the environment gives when this lies within them.
pub proxy_buffer_size_bounds :
    (raw : String) (n : ℕ) (env : Option String)
    → min_proxy_buffer_size ≤ n
    → n ≤ max_proxy_buffer_size
    → IsSize (trim (codes raw)) n
    → (min_proxy_buffer_size ≤ proxy_buffer_size env)
      × (proxy_buffer_size env ≤ max_proxy_buffer_size)
      × (proxy_buffer_size (some raw) ≡ n)
unfolding proxy_buffer_size
proxy_buffer_size_bounds raw n env low high s = (least env, most env, exact)
  where
    least : (env : Option String) → min_proxy_buffer_size ≤ proxy_buffer_size env
    least none = omega arith
    least (some raw) = least_resolved (parse_size_bytes raw)

    most : (env : Option String) → proxy_buffer_size env ≤ max_proxy_buffer_size
    most none = omega arith
    most (some raw) = most_resolved (parse_size_bytes raw)

    exact : proxy_buffer_size (some raw) ≡ n
    exact = ap resolved ((parse_size_bytes-IsSize raw n).1 s) ∙ within n low high
