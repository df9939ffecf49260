-- ===== src/Prelude/Compare.antt =====
-- The order of texts by their bytes, `Ord for str`: lemmas on `compare`.
use text.Mathlib.TextPositions.{compare_self}
use Prim.Native.Nat.{ℕ, ◌<◌, Ordering, compare as compare_ℕ}
use native.Mathlib.Omega.{arith, compare-gt, compare-lt, compare-eq}
use Prim.Native.Char.{code}
use Prim.Native.String.compare
use Prim.Native.String.{String, [], ◌∷◌, compare, then}
use mathlib.Core.Path.{◌≡◌, refl, ap, sym, ◌∙◌}

above : {m n : ℕ} → m < n → compare_ℕ n m ≡ Ordering.gt
above {m} {n} l = go (compare_ℕ n m) refl
  where
    go : (o : Ordering) → compare_ℕ n m ≡ o → compare_ℕ n m ≡ Ordering.gt
    go Ordering.gt e = e
    go Ordering.eq e = let same = compare-eq n m e in absurd (omega arith)
    go Ordering.lt e = let less = compare-lt n m e in absurd (omega arith)

flip_number : (m n : ℕ) → compare_ℕ m n ≡ Ordering.gt → compare_ℕ n m ≡ Ordering.lt
flip_number m n h = go (compare_ℕ n m) refl
  where
    go : (o : Ordering) → compare_ℕ n m ≡ o → compare_ℕ n m ≡ Ordering.lt
    go Ordering.lt e = e
    go Ordering.eq e =
        let same = compare-eq n m e in let less = compare-gt m n h in absurd (omega arith)
    go Ordering.gt e =
        let more = compare-gt n m e in let less = compare-gt m n h in absurd (omega arith)

-- The verdict on the heads, turned, and that on the tails, turned.
then-flip :
    (m n : ℕ) (o p : Ordering)
    → (o ≡ Ordering.gt → p ≡ Ordering.lt)
    → then (compare_ℕ m n) o ≡ Ordering.gt
    → then (compare_ℕ n m) p ≡ Ordering.lt
then-flip m n o p f h = go (compare_ℕ m n) refl h
  where
    go :
        (q : Ordering)
        → compare_ℕ m n ≡ q
        → then q o ≡ Ordering.gt
        → then (compare_ℕ n m) p ≡ Ordering.lt
    go Ordering.lt e h = absurd (cc)
    go Ordering.eq e h =
        let same : compare_ℕ n m ≡ Ordering.eq =
          ap (λ k. compare_ℕ n k) (compare-eq m n e) ∙ compare_self n in
        ap (λ q. then q p) same ∙ f h
    go Ordering.gt e h = ap (λ q. then q p) (flip_number m n e)

-- A text that is above another has that one below it.
pub compare-flip : (s t : String) → compare s t ≡ Ordering.gt → compare t s ≡ Ordering.lt
compare-flip [] [] h = absurd (let e = sym h ∙ compare.nil-nil in cc)
compare-flip [] (d ∷ t) h = absurd (let e = sym h ∙ compare.nil-cons d t in cc)
compare-flip (c ∷ s) [] h = compare.nil-cons c s
compare-flip (c ∷ s) (d ∷ t) h =
    compare.cons-cons d c t s
    ∙ then-flip (code c) (code d) (compare s t) (compare t s) (compare-flip s t)
        (sym (compare.cons-cons c d s t) ∙ h)

-- The verdict on the heads and on the tails, in a row.
then_trans :
    (k m n : ℕ) (o p q : Ordering)
    → (o ≡ Ordering.lt → p ≡ Ordering.lt → q ≡ Ordering.lt)
    → then (compare_ℕ k m) o ≡ Ordering.lt
    → then (compare_ℕ m n) p ≡ Ordering.lt
    → then (compare_ℕ k n) q ≡ Ordering.lt
then_trans k m n o p q f g h = go (compare_ℕ k m) (compare_ℕ m n) refl refl g h
  where
    less : k < n → then (compare_ℕ k n) q ≡ Ordering.lt
    less l = ap (λ r. then r q) (flip_number n k (above l))

    go :
        (u v : Ordering)
        → compare_ℕ k m ≡ u
        → compare_ℕ m n ≡ v
        → then u o ≡ Ordering.lt
        → then v p ≡ Ordering.lt
        → then (compare_ℕ k n) q ≡ Ordering.lt
    go Ordering.gt v e d g h = absurd (cc)
    go u Ordering.gt e d g h = absurd (cc)
    go Ordering.lt Ordering.lt e d g h =
        let a = compare-lt k m e in let b = compare-lt m n d in less (omega arith)
    go Ordering.lt Ordering.eq e d g h =
        let a = compare-lt k m e in let b = compare-eq m n d in less (omega arith)
    go Ordering.eq Ordering.lt e d g h =
        let a = compare-eq k m e in let b = compare-lt m n d in less (omega arith)
    go Ordering.eq Ordering.eq e d g h =
        ap (λ r. then r q)
          (ap (λ i. compare_ℕ k i) (sym (compare-eq k m e ∙ compare-eq m n d)) ∙ compare_self k)
        ∙ f g h

pub compare_trans :
    (s t u : String)
    → compare s t ≡ Ordering.lt
    → compare t u ≡ Ordering.lt
    → compare s u ≡ Ordering.lt
compare_trans [] [] u g h = absurd (let e = sym g ∙ compare.nil-nil in cc)
compare_trans (c ∷ s) [] u g h = absurd (let e = sym g ∙ compare.cons-nil c s in cc)
compare_trans s (d ∷ t) [] g h = absurd (let e = sym h ∙ compare.cons-nil d t in cc)
compare_trans [] (d ∷ t) (e ∷ u) g h = compare.nil-cons e u
compare_trans (c ∷ s) (d ∷ t) (e ∷ u) g h =
    compare.cons-cons c e s u
    ∙ then_trans (code c) (code d) (code e) (compare s t) (compare t u) (compare s u)
        (compare_trans s t u) (sym (compare.cons-cons c d s t) ∙ g)
        (sym (compare.cons-cons d e t u) ∙ h)
