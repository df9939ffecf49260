-- ===== src/Core/Module/Names.antt =====
-- `ModuleRegistry::names` of crates/rb-core/src/module.rs: what sorting makes of distinct names.
use text.Mathlib.Text.{◌==◌ as str_eq}
use text.Mathlib.TextEquality.{eq_iff, path_by_compare}
use text.Mathlib.TextPositions.{eq_refl, compare_refl}
use Prim.Native.Nat.{Ordering}
use Prim.Native.String.{compare}
use rust_backup.Prelude.{
  ◌≡◌, refl, ap, sym, ◌∙◌, String, Bool, true, false, ◌||◌, List, [], ◌∷◌, arith, compare-flip,
  compare_trans,
}
use rust_backup.Core.Module.{insert_sorted, sort_unstable}

abbrev pub contains : String → List String → Bool
contains n [] = false
contains n (x ∷ xs) = str_eq x n || contains n xs

-- No name twice.
abbrev pub Distinct : List String → Type 0
Distinct [] = Unit {0}
Distinct (x ∷ xs) = (contains x xs ≡ false) × Distinct xs

abbrev pub Below : String → List String → Type 0
Below x [] = Unit {0}
Below x (y ∷ ys) = compare x y ≡ Ordering.lt

-- Each name is less than the next one.
abbrev pub Ascending : List String → Type 0
Ascending [] = Unit {0}
Ascending (x ∷ xs) = Below x xs × Ascending xs

insert_sorted-contains :
    (n x : String) (l : List String) → contains n (insert_sorted x l) ≡ (str_eq x n || contains n l)
unfolding insert_sorted
insert_sorted-contains n x [] = refl
insert_sorted-contains n x (y ∷ ys) = go (insert_sorted-contains n x ys) (compare x y)
  where
    go :
        contains n (insert_sorted x ys) ≡ (str_eq x n || contains n ys)
        → (o : Ordering)
        → contains n (elim o [
          | Ordering.lt ↦ x ∷ y ∷ ys
          | Ordering.eq ↦ x ∷ y ∷ ys
          | Ordering.gt ↦ y ∷ insert_sorted x ys
        ])
          ≡ (str_eq x n || (str_eq y n || contains n ys))
    go rest Ordering.lt = refl
    go rest Ordering.eq = refl
    go rest Ordering.gt = ground arith

insert_sorted-Below :
    (y x : String) (l : List String)
    → Below y l
    → compare y x ≡ Ordering.lt
    → Below y (insert_sorted x l)
unfolding insert_sorted
insert_sorted-Below y x [] b h = h
insert_sorted-Below y x (z ∷ zs) b h = go (compare x z)
  where
    go :
        (o : Ordering)
        → Below y (elim o [
          | Ordering.lt ↦ x ∷ z ∷ zs
          | Ordering.eq ↦ x ∷ z ∷ zs
          | Ordering.gt ↦ z ∷ insert_sorted x zs
        ])
    go Ordering.lt = h
    go Ordering.eq = h
    go Ordering.gt = b

insert_sorted-Ascending :
    (x : String) (l : List String)
    → Ascending l
    → contains x l ≡ false
    → Ascending (insert_sorted x l)
unfolding insert_sorted
insert_sorted-Ascending x [] a new = (tt, tt)
insert_sorted-Ascending x (y ∷ ys) (b, a) new =
    go (insert_sorted-Ascending x ys a (ground arith)) (compare x y) refl
  where
    go :
        Ascending (insert_sorted x ys)
        → (o : Ordering) → compare x y ≡ o
        → Ascending (elim o [
          | Ordering.lt ↦ x ∷ y ∷ ys
          | Ordering.eq ↦ x ∷ y ∷ ys
          | Ordering.gt ↦ y ∷ insert_sorted x ys
        ])
    go rest Ordering.lt e = (e, (b, a))
    go rest Ordering.eq e =
        let same = (eq_iff y x).1 (sym (path_by_compare x y e)) in absurd (ground arith)
    go rest Ordering.gt e = (insert_sorted-Below y x ys b (compare-flip x y e), rest)

pub sort_unstable-contains :
    (n : String) (l : List String) → contains n (sort_unstable l) ≡ contains n l
unfolding sort_unstable
sort_unstable-contains n [] = refl
sort_unstable-contains n (x ∷ xs) =
    insert_sorted-contains n x (sort_unstable xs)
    ∙ ap (λ b. str_eq x n || b) (sort_unstable-contains n xs)

pub sort_unstable-Ascending : (l : List String) → Distinct l → Ascending (sort_unstable l)
unfolding sort_unstable
sort_unstable-Ascending [] d = tt
sort_unstable-Ascending (x ∷ xs) (new, d) =
    insert_sorted-Ascending x (sort_unstable xs) (sort_unstable-Ascending xs d)
      (sort_unstable-contains x xs ∙ new)

-- The head of an ascending list is less than every other name in it.
head_least :
    (y : String) (ys : List String) (x : String)
    → Ascending (y ∷ ys)
    → contains x ys ≡ true
    → compare y x ≡ Ordering.lt
head_least y [] x a h = absurd (ground arith)
head_least y (z ∷ zs) x (b, a) h = go (str_eq z x) refl (head_least z zs x a)
  where
    go :
        (same : Bool)
        → str_eq z x ≡ same
        → (contains x zs ≡ true → compare z x ≡ Ordering.lt)
        → compare y x ≡ Ordering.lt
    go true e rest = ap (compare y) (sym ((eq_iff z x).0 e)) ∙ b
    go false e rest = compare_trans y z x b (rest (ground arith))

irreflexive : (x : String) → compare x x ≡ Ordering.lt → ⊥
irreflexive x h = let e = sym h ∙ compare_refl x in cc

head_once : (x : String) (xs : List String) → Ascending (x ∷ xs) → contains x xs ≡ false
head_once x xs a = go (contains x xs) refl
  where
    go : (found : Bool) → contains x xs ≡ found → contains x xs ≡ false
    go false e = e
    go true e = absurd (irreflexive x (head_least x xs x a e))

not_below :
    (x y : String) (ys : List String)
    → Ascending (y ∷ ys)
    → contains x (y ∷ ys) ≡ true
    → compare x y ≡ Ordering.lt
    → ⊥
not_below x y ys a h less = go (str_eq y x) refl
  where
    go : (same : Bool) → str_eq y x ≡ same → ⊥
    go true e = irreflexive x (ap (compare x) (sym ((eq_iff y x).0 e)) ∙ less)
    go false e = irreflexive x (compare_trans x y x less (head_least y ys x a (ground arith)))

heads_equal :
    (x y : String) (xs ys : List String)
    → Ascending (x ∷ xs)
    → Ascending (y ∷ ys)
    → ((n : String) → contains n (x ∷ xs) ≡ contains n (y ∷ ys))
    → x ≡ y
heads_equal x y xs ys a b same = go (compare x y) refl
  where
    go : (o : Ordering) → compare x y ≡ o → x ≡ y
    go Ordering.eq e = path_by_compare x y e
    go Ordering.lt e =
        absurd (not_below x y ys b (sym (same x) ∙ ap (λ t. t || contains x xs) (eq_refl x)) e)
    go Ordering.gt e = absurd (
        not_below y x xs a (same y ∙ ap (λ t. t || contains y ys) (eq_refl y)) (compare-flip x y e))

tails_equal :
    (x y : String) (xs ys : List String)
    → x ≡ y
    → Ascending (x ∷ xs)
    → Ascending (y ∷ ys)
    → (n : String) → contains n (x ∷ xs) ≡ contains n (y ∷ ys)
    → contains n xs ≡ contains n ys
tails_equal x y xs ys e a b n same =
    let left = head_once x xs a in let right = head_once y ys b in go (str_eq x n) refl left right
  where
    go :
        (hit : Bool)
        → str_eq x n ≡ hit
        → contains x xs ≡ false
        → contains y ys ≡ false
        → contains n xs ≡ contains n ys
    go true h left right = let at = (eq_iff x n).0 h in cc
    go false h left right =
        let other : str_eq y n ≡ false = ap (λ z. str_eq z n) (sym e) ∙ h in ground arith

-- There is one ascending list of given names.
pub Ascending-unique :
    (l r : List String)
    → Ascending l
    → Ascending r
    → ((n : String) → contains n l ≡ contains n r)
    → l ≡ r
Ascending-unique [] [] a b same = refl
Ascending-unique [] (y ∷ ys) a b same = let e = same y in let f = eq_refl y in absurd (ground arith)
Ascending-unique (x ∷ xs) [] a b same = let e = same x in let f = eq_refl x in absurd (ground arith)
Ascending-unique (x ∷ xs) (y ∷ ys) a b same =
    let e = heads_equal x y xs ys a b same in
    let f = Ascending-unique xs ys a.1 b.1 (λ n. tails_equal x y xs ys e a b n (same n)) in
    λ i. e i ∷ f i
