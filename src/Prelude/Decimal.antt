-- ===== src/Prelude/Decimal.antt =====
-- What `decimal` writes, and that the numbers are read back from it.
use Prim.Native.Nat.{ℕ, zero, suc, ◌+◌, ◌-◌, ◌*◌, ◌/◌, ◌%◌, ◌^◌, ◌<◌, ◌≤◌}
use Prim.Native.Char.{code}
use Prim.Native.String.{String, [], ◌∷◌, ◌++◌}
use mathlib.Core.Bool.{false, ◌&&◌}
use mathlib.Core.Logic.{inl, inr}
use mathlib.Core.Option.{none, some}
use mathlib.Core.Path.{◌≡◌, refl, ap, ◌∙◌}
use native.Mathlib.Omega.{arith}
use native.Mathlib.Nat.{pow-suc, pow-zero}
use text.Mathlib.TextLemmas.{nil-append, cons-append}
use rust_backup.Prelude.Tests.{ltb, leb, ltb→lt, lt→ltb, Bool-cases}
use rust_backup.Prelude.Text.{digit, digits_of, decimal}
use rust_backup.Prelude.Parse.{digits, number}

-- A text of decimal digits.
abbrev pub IsDigits : String → Type 0
IsDigits [] = Unit {0}
IsDigits (c ∷ s) = ((48 ≤ code c) × (code c ≤ 57)) × IsDigits s

-- One of a digit at least.
abbrev pub IsNumeral : String → Type 0
IsNumeral [] = ⊥
IsNumeral (c ∷ s) = ((48 ≤ code c) × (code c ≤ 57)) × IsDigits s

digits-append : (s t : String) (m n : ℕ) → digits m s ≡ some n → digits m (s ++ t) ≡ digits n t
unfolding digits
digits-append [] t m n h = let e : m ≡ n = cc in rw (nil-append t) (ap (λ x. digits x t) e)
digits-append (c ∷ s) t m n h =
    rw (cons-append c s t) (elim (Bool-cases (leb 48 (code c) && leb (code c) 57)) [
      | inl e ↦ rw e (digits-append s t (10 * m + (code c - 48)) n (rw e at h))
      | inr e ↦ absurd (let bad : none ≡ some n = rw e at h in cc)
    ])

digits-digit : (m n : ℕ) → n < 10 → digits m (digit n) ≡ some (10 * m + n)
unfolding digits digit
digits-digit m zero h = refl
digits-digit m (suc zero) h = refl
digits-digit m (suc (suc zero)) h = refl
digits-digit m (suc (suc (suc zero))) h = refl
digits-digit m (suc (suc (suc (suc zero)))) h = refl
digits-digit m (suc (suc (suc (suc (suc zero))))) h = refl
digits-digit m (suc (suc (suc (suc (suc (suc zero)))))) h = refl
digits-digit m (suc (suc (suc (suc (suc (suc (suc zero))))))) h = refl
digits-digit m (suc (suc (suc (suc (suc (suc (suc (suc zero)))))))) h = refl
digits-digit m (suc (suc (suc (suc (suc (suc (suc (suc (suc zero))))))))) h = refl
digits-digit m (suc (suc (suc (suc (suc (suc (suc (suc (suc (suc n)))))))))) h =
    absurd (omega arith)

digit-IsNumeral : (n : ℕ) → n < 10 → IsNumeral (digit n)
unfolding digit
digit-IsNumeral zero h = (omega arith, tt)
digit-IsNumeral (suc zero) h = (omega arith, tt)
digit-IsNumeral (suc (suc zero)) h = (omega arith, tt)
digit-IsNumeral (suc (suc (suc zero))) h = (omega arith, tt)
digit-IsNumeral (suc (suc (suc (suc zero)))) h = (omega arith, tt)
digit-IsNumeral (suc (suc (suc (suc (suc zero))))) h = (omega arith, tt)
digit-IsNumeral (suc (suc (suc (suc (suc (suc zero)))))) h = (omega arith, tt)
digit-IsNumeral (suc (suc (suc (suc (suc (suc (suc zero))))))) h = (omega arith, tt)
digit-IsNumeral (suc (suc (suc (suc (suc (suc (suc (suc zero)))))))) h = (omega arith, tt)
digit-IsNumeral (suc (suc (suc (suc (suc (suc (suc (suc (suc zero))))))))) h = (omega arith, tt)
digit-IsNumeral (suc (suc (suc (suc (suc (suc (suc (suc (suc (suc n)))))))))) h =
    absurd (omega arith)

IsDigits-append : (s t : String) → IsDigits s → IsDigits t → IsDigits (s ++ t)
IsDigits-append [] t p q = rw (nil-append t) q
IsDigits-append (c ∷ s) t (d, p) q = rw (cons-append c s t) (d, IsDigits-append s t p q)

numeral-IsDigits : (s : String) → IsNumeral s → IsDigits s
numeral-IsDigits [] h = tt
numeral-IsDigits (c ∷ s) h = h

IsNumeral-append : (s t : String) → IsNumeral s → IsNumeral t → IsNumeral (s ++ t)
IsNumeral-append [] t p q = elim p [ ]
IsNumeral-append (c ∷ s) t (d, p) q =
    rw (cons-append c s t) (d, IsDigits-append s t p (numeral-IsDigits t q))

digits_of_short : (places n : ℕ) → n < 10 → digits_of (suc places) n ≡ digit n
unfolding digits_of
digits_of_short places n h = rw (lt→ltb n 10 h) refl

digits_of_long :
    (places n : ℕ)
    → ltb n 10 ≡ false
    → digits_of (suc places) n ≡ digits_of places (n / 10) ++ digit (n % 10)
unfolding digits_of
digits_of_long places n e = rw e refl

digit_back : (n : ℕ) → n < 10 → (digits 0 (digit n) ≡ some n) × IsNumeral (digit n)
digit_back n h = (digits-digit 0 n h ∙ ap some (omega arith), digit-IsNumeral n h)

-- With places enough, what is written are digits, and the number is read back.
digits-digits_of :
    (places n : ℕ)
    → n < 10 ^ suc places
    → (digits 0 (digits_of (suc places) n) ≡ some n) × IsNumeral (digits_of (suc places) n)
digits-digits_of zero n h =
    let small : n < 10 = omega (arith, pow-suc 10 0, pow-zero 10) in
    rw (digits_of_short 0 n small) (digit_back n small)
digits-digits_of (suc places) n h = elim (Bool-cases (ltb n 10)) [
  | inl e ↦ rw (digits_of_short (suc places) n (ltb→lt n 10 e)) (digit_back n (ltb→lt n 10 e))
  | inr e ↦
      let (front, numeral) =
        digits-digits_of places (n / 10) (omega (arith, pow-suc 10 (suc places))) in
      let (last, one) = digit_back (n % 10) (omega arith) in
      rw (digits_of_long (suc places) n e) (
        digits-append (digits_of (suc places) (n / 10)) (digit (n % 10)) 0 (n / 10) front
            ∙ digits-digit (n / 10) (n % 10) (omega arith)
            ∙ ap some (omega arith),
        IsNumeral-append (digits_of (suc places) (n / 10)) (digit (n % 10)) numeral one,
      )
]

number-digits : (s : String) → IsNumeral s → number s ≡ digits 0 s
unfolding number
number-digits [] h = elim h [ ]
number-digits (c ∷ s) h = refl

-- Every `u64` is written in digits and read back.
pub number-decimal : (n : ℕ) → n < 2 ^ 64 → (number (decimal n) ≡ some n) × IsNumeral (decimal n)
unfolding decimal
number-decimal n h =
    let (back, numeral) = digits-digits_of 19 n (omega arith) in
    (number-digits (digits_of 20 n) numeral ∙ back, numeral)
