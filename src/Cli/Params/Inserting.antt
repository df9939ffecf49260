-- ===== src/Cli/Params/Inserting.antt =====
-- The map of the module parameters in crates/rust-backup/src/main.rs.
use text.Mathlib.Text.{◌==◌ as str_eq}
use text.Mathlib.TextEquality.{eq_iff}
use text.Mathlib.TextPositions.{eq_refl}
use rust_backup.Prelude.{
  ◌≡◌, refl, sym, ap, ◌∙◌, String, Bool, true, false, some, [], ◌∷◌, if◌then◌else◌, Bool-cases, inl,
  inr,
}
use rust_backup.Cli.{Scalar, Params, insert, get}

-- An insertion is read back under its key, and changes no other.
pub get-insert :
    (k : String) (v : Scalar) (m : Params) (j : String)
    → get (insert k v m) j ≡ (if str_eq k j then some v else get m j)
unfolding get insert
get-insert k v [] j = refl
get-insert k v ((k', v') ∷ m) j = elim (Bool-cases (str_eq k' k)) [
  | inl e ↦
      let same = (eq_iff k' k).0 e in
      elim (Bool-cases (str_eq k j)) [
        | inl f ↦ rw (e, f) refl
        | inr f ↦ let g : str_eq k' j ≡ false = rw same f in rw (e, f, g) refl
      ]
  | inr e ↦ elim (Bool-cases (str_eq k' j)) [
    | inl f ↦ elim (Bool-cases (str_eq k j)) [
      | inl g ↦ let c = clash ((eq_iff k' j).0 f) ((eq_iff k j).0 g) e in absurd (cc)
      | inr g ↦ rw (e, f, g) refl
    ]
    | inr f ↦ rw (e, f) (get-insert k v m j)
  ]
]
  where
    clash : k' ≡ j → k ≡ j → str_eq k' k ≡ false → ◌≡◌ {A = Bool} true false
    clash p q e = sym (eq_refl k) ∙ ap (λ x. str_eq x k) (q ∙ sym p) ∙ e
