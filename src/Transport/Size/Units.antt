-- ===== src/Transport/Size/Units.antt =====
-- The digits and the units of the sizes that crates/rb-transport/src/shared.rs reads.
use native.Mathlib.Nat.{pow-suc, add-mul, mul_assoc, mul_comm, add_assoc}
use rust_backup.Prelude.{
  ℕ, suc, ◌+◌, ◌-◌, ◌*◌, ◌^◌, ◌≤◌, ◌<◌, ◌≡◌, ◌↔◌, refl, ap, sym, ◌∙◌, subst, String, Bool, true,
  false, ◌||◌, Option, none, some, List, [], ◌∷◌, All, if◌then◌else◌, codes, same_codes, arith,
  length,
}
use rust_backup.Transport.Size.{is_digit, either, value, multiplier}

-- The characters from `0` to `9`.
abbrev pub IsDigit : ℕ → Type 0
IsDigit c = (48 ≤ c) × (c ≤ 57)

pub is_digit_iff : (c : ℕ) → (is_digit c ≡ true) ↔ IsDigit c
is_digit_iff c = (λ h. (ground arith, ground arith), λ h. let (low, high) = h in ground arith)

pub All-IsDigit : (cs : List ℕ) → All (λ c. is_digit c ≡ true) cs ↔ All IsDigit cs
All-IsDigit [] = (λ h. tt, λ h. tt)
All-IsDigit (c ∷ cs) =
    let rest = All-IsDigit cs in
    (λ h. ((is_digit_iff c).0 h.0, rest.0 h.1), λ h. ((is_digit_iff c).1 h.0, rest.1 h.1))

-- The number that digits stand for, each worth ten times the one behind it.
unfoldable pub decimal_value : List ℕ → ℕ
decimal_value [] = 0
decimal_value (c ∷ cs) = (c - 48) * 10 ^ length cs + decimal_value cs

value_on : (n : ℕ) (cs : List ℕ) → value n cs ≡ n * 10 ^ length cs + decimal_value cs
unfolding value decimal_value
value_on n [] = omega arith
value_on n (c ∷ cs) =
    let p = 10 ^ length cs in
    let split : (10 * n + (c - 48)) * p ≡ 10 * n * p + (c - 48) * p = add-mul (10 * n) (c - 48) p in
    let ten : n * 10 ^ suc (length cs) ≡ 10 * n * p =
      ap (λ x. n * x) (pow-suc 10 (length cs))
      ∙ sym (mul_assoc n p 10)
      ∙ mul_comm (n * p) 10
      ∙ sym (mul_assoc 10 n p) in
    value_on (10 * n + (c - 48)) cs
    ∙ ap (λ x. x + decimal_value cs) split
    ∙ add_assoc (10 * n * p) ((c - 48) * p) (decimal_value cs)
    ∙ ap (λ x. x + ((c - 48) * p + decimal_value cs)) (sym ten)

pub value-decimal_value : (cs : List ℕ) → value 0 cs ≡ decimal_value cs
value-decimal_value cs = value_on 0 cs ∙ omega arith

-- The suffixes, in lower case, and what they are worth in bytes.
pub data IsUnit : List ℕ → ℕ → Type 0 where
  none_given : IsUnit (codes "") 1
  b : IsUnit (codes "b") 1
  k : IsUnit (codes "k") 1_000
  kb : IsUnit (codes "kb") 1_000
  m : IsUnit (codes "m") 1_000_000
  mb : IsUnit (codes "mb") 1_000_000
  g : IsUnit (codes "g") 1_000_000_000
  gb : IsUnit (codes "gb") 1_000_000_000
  ki : IsUnit (codes "ki") 1_024
  kib : IsUnit (codes "kib") 1_024
  mi : IsUnit (codes "mi") 1_048_576
  mib : IsUnit (codes "mib") 1_048_576
  gi : IsUnit (codes "gi") 1_073_741_824
  gib : IsUnit (codes "gib") 1_073_741_824

IsUnit-multiplier : {s : List ℕ} {u : ℕ} → IsUnit s u → multiplier s ≡ some u
unfolding multiplier same_codes
IsUnit-multiplier none_given = refl
IsUnit-multiplier b = refl
IsUnit-multiplier k = refl
IsUnit-multiplier kb = refl
IsUnit-multiplier m = refl
IsUnit-multiplier mb = refl
IsUnit-multiplier g = refl
IsUnit-multiplier gb = refl
IsUnit-multiplier ki = refl
IsUnit-multiplier kib = refl
IsUnit-multiplier mi = refl
IsUnit-multiplier mib = refl
IsUnit-multiplier gi = refl
IsUnit-multiplier gib = refl

same_codes-path : (s t : List ℕ) → same_codes s t ≡ true → t ≡ s
unfolding same_codes
same_codes-path [] [] h = refl
same_codes-path [] (d ∷ ds) h = absurd (cc)
same_codes-path (c ∷ cs) [] h = absurd (cc)
same_codes-path (c ∷ cs) (d ∷ ds) h = ground (arith, same_codes-path cs ds)

-- One test of the chain: either the suffix is one of the two texts and the unit is known, or the rest
-- of the chain decides.
tested :
    (short long : String) (s : List ℕ) (n u : ℕ) (rest : Option ℕ)
    → IsUnit (codes short) n
    → IsUnit (codes long) n
    → (rest ≡ some u → IsUnit s u)
    → (if either short long s then some n else rest) ≡ some u
    → IsUnit s u
tested short long s n u rest p q next h =
    go (same_codes s (codes short)) (same_codes s (codes long)) refl refl h
  where
    go :
        (x y : Bool)
        → same_codes s (codes short) ≡ x
        → same_codes s (codes long) ≡ y
        → (if x || y then some n else rest) ≡ some u
        → IsUnit s u
    go true y e f h =
        let same : n ≡ u = cc in
        subst (IsUnit s) same (subst (λ t. IsUnit t n) (same_codes-path s (codes short) e) p)
    go false true e f h =
        let same : n ≡ u = cc in
        subst (IsUnit s) same (subst (λ t. IsUnit t n) (same_codes-path s (codes long) f) q)
    go false false e f h = next h

multiplier-IsUnit : (s : List ℕ) (u : ℕ) → multiplier s ≡ some u → IsUnit s u
unfolding multiplier
multiplier-IsUnit s u = tested "" "b" s 1 u _ none_given b (
    tested "k" "kb" s 1_000 u _ k kb (
      tested "m" "mb" s 1_000_000 u _ m mb (
        tested "g" "gb" s 1_000_000_000 u _ g gb (
          tested "ki" "kib" s 1_024 u _ ki kib (
            tested "mi" "mib" s 1_048_576 u _ mi mib
              (tested "gi" "gib" s 1_073_741_824 u none gi gib λ h. absurd (cc)))))))

pub multiplier_iff : (s : List ℕ) (u : ℕ) → (multiplier s ≡ some u) ↔ IsUnit s u
multiplier_iff s u = (multiplier-IsUnit s u, IsUnit-multiplier)

pub IsUnit-positive : {s : List ℕ} {u : ℕ} → IsUnit s u → 0 < u
IsUnit-positive none_given = omega arith
IsUnit-positive b = omega arith
IsUnit-positive k = omega arith
IsUnit-positive kb = omega arith
IsUnit-positive m = omega arith
IsUnit-positive mb = omega arith
IsUnit-positive g = omega arith
IsUnit-positive gb = omega arith
IsUnit-positive ki = omega arith
IsUnit-positive kib = omega arith
IsUnit-positive mi = omega arith
IsUnit-positive mib = omega arith
IsUnit-positive gi = omega arith
IsUnit-positive gib = omega arith
