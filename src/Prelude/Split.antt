-- ===== src/Prelude/Split.antt =====
-- Texts cut at a character or behind a prefix.
use Prim.Native.Nat.{ℕ}
use Prim.Native.Char.{Char, code}
use Prim.Native.String.{String, [], ◌∷◌, ◌++◌}
use mathlib.Core.Bool.{Bool, true, false}
use mathlib.Core.Logic.{inl, inr}
use mathlib.Core.Option.{none, some}
use mathlib.Core.Path.{◌≡◌, refl}
use text.Mathlib.TextLemmas.{nil-append, cons-append}
use rust_backup.Prelude.Tests.{◌==◌, ==_iff, if◌then◌else◌, Bool-cases}
use rust_backup.Prelude.Parse.{rsplit_once, before, strip_prefix}

-- No character of the text has the code `k`.
abbrev pub IsFree : ℕ → String → Type 0
IsFree k [] = Unit {0}
IsFree k (c ∷ s) = ((code c == k) ≡ false) × IsFree k s

pub IsFree-append : (k : ℕ) (s t : String) → IsFree k s → IsFree k t → IsFree k (s ++ t)
IsFree-append k [] t p q = rw (nil-append t) q
IsFree-append k (c ∷ s) t (d, p) q = rw (cons-append c s t) (d, IsFree-append k s t p q)

pub before-IsFree : (k : ℕ) (s : String) → IsFree k s → before k s ≡ s
unfolding before
before-IsFree k [] h = refl
before-IsFree k (c ∷ s) (d, h) = rw (d, before-IsFree k s h) refl

rsplit_once_free : (k : ℕ) (s : String) → IsFree k s → rsplit_once k s ≡ none
unfolding rsplit_once
rsplit_once_free k [] h = refl
rsplit_once_free k (c ∷ s) (d, h) = rw (rsplit_once_free k s h, d) refl

-- A text is cut at its last separator, if the part behind it has none.
pub rsplit_once_last :
    (k : ℕ) (s : String) (c : Char) (t : String)
    → (code c == k) ≡ true
    → IsFree k t
    → rsplit_once k (s ++ (c ∷ t)) ≡ some (s, t)
unfolding rsplit_once
rsplit_once_last k [] c t e h = rw (nil-append (c ∷ t)) (rw (rsplit_once_free k t h, e) refl)
rsplit_once_last k (d ∷ s) c t e h =
    rw (cons-append d s (c ∷ t)) (rw (rsplit_once_last k s c t e h, rsplit_once) refl)

pub strip_prefix-append : (prefix s : String) → strip_prefix prefix (prefix ++ s) ≡ some s
unfolding strip_prefix
strip_prefix-append [] s = rw (nil-append s) refl
strip_prefix-append (c ∷ prefix) s =
    rw (cons-append c prefix s)
      (rw ((==_iff (code c) (code c)).1 refl, strip_prefix-append prefix s) refl)

-- Two texts that differ at a place that both have.
unfoldable pub differ : String → String → Bool
differ [] q = false
differ (c ∷ p) [] = false
differ (c ∷ p) (d ∷ q) = let rest = differ p q in if code c == code d then rest else true

pub strip_prefix_other : (p q s : String) → differ p q ≡ true → strip_prefix p (q ++ s) ≡ none
unfolding strip_prefix differ
strip_prefix_other [] q s h = absurd (cc)
strip_prefix_other (c ∷ p) [] s h = absurd (cc)
strip_prefix_other (c ∷ p) (d ∷ q) s h =
    rw (cons-append d q s) (elim (Bool-cases (code c == code d)) [
      | inl e ↦ rw e (strip_prefix_other p q s (rw e at h))
      | inr e ↦ rw e refl
    ])
