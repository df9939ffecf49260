-- ===== src/Cli/Params.antt =====
-- `TargetArgs::params` of crates/rust-backup/src/main.rs: which value each key ends with.
pub mod Inserting
pub mod Typed
use text.Mathlib.Text.{◌==◌ as str_eq}
use text.Mathlib.TextEquality.{eq_iff}
use rust_backup.Prelude.{
  ◌≡◌, refl, sym, ap, ◌∙◌, String, true, false, Option, none, some, List, [], ◌∷◌, if◌then◌else◌,
  Bool-cases, Option-cases, inl, inr, split_once, parse_i64, ℤ, ◌≢◌, subst,
}
use rust_backup.Core.Error.{Outcome, success, failure}
use rust_backup.Cli.Params.Inserting.{get-insert}
use rust_backup.Cli.Params.Typed.{typed_flags, found, typed_params-found}
use rust_backup.Cli.{
  Scalar, bool_value, number_value, string_value, Params, TargetArgs, insert, get, parse_scalar,
  typed_params, expects, overrides, params,
}

abbrev malformed_or : String → Option (String × String) → Option String → Option String
malformed_or kv none rest = some kv
malformed_or kv (some p) rest = rest

-- The first argument of `-P` that has no `=`.
unfoldable pub first_malformed : List String → Option String
first_malformed [] = none
first_malformed (kv ∷ kvs) = malformed_or kv (split_once 61 kv) (first_malformed kvs)

-- The value that one `-P` argument gives to a key, or the one it had.
abbrev assigned : Option (String × String) → String → Option Scalar → Option Scalar
assigned none k v = v
assigned (some (k', text)) k v = if str_eq k' k then some (parse_scalar text) else v

-- The value of a key behind a row of `-P` arguments: the last that names it wins.
last_assigned : List String → String → Option Scalar → Option Scalar
last_assigned [] k v = v
last_assigned (kv ∷ kvs) k v = last_assigned kvs k (assigned (split_once 61 kv) k v)

overrides_value :
    (kvs : List String) (m : Params)
    → first_malformed kvs ≡ none
    → (r : Params) × (overrides kvs m ≡ success r)
      × ((k : String) → get r k ≡ last_assigned kvs k (get m k))
unfolding overrides first_malformed last_assigned
overrides_value [] m h = (m, refl, λ k. refl)
overrides_value (kv ∷ kvs) m h = elim (Option-cases (split_once 61 kv)) [
  | inl e ↦
      let bad : first_malformed (kv ∷ kvs) ≡ some kv =
        ap (λ p. malformed_or kv p (first_malformed kvs)) e in
      absurd (cc)
  | inr ((k', text), e) ↦
      let good : first_malformed (kv ∷ kvs) ≡ first_malformed kvs =
        ap (λ p. malformed_or kv p (first_malformed kvs)) e in
      let (r, run, looks) = overrides_value kvs (insert k' (parse_scalar text) m) (sym good ∙ h) in
      (
        r,
        rw e run,
        λ k.
            looks k
            ∙ ap (last_assigned kvs k) (get-insert k' (parse_scalar text) m k)
            ∙ ap (λ p. last_assigned kvs k (assigned p k (get m k))) (sym e),
      )
]

overrides_malformed :
    (kvs : List String) (m : Params) (kv : String)
    → first_malformed kvs ≡ some kv
    → overrides kvs m ≡ failure (expects kv)
unfolding overrides first_malformed
overrides_malformed [] m kv h = absurd (cc)
overrides_malformed (x ∷ kvs) m kv h = elim (Option-cases (split_once 61 x)) [
  | inl e ↦
      let here : first_malformed (x ∷ kvs) ≡ some x =
        ap (λ p. malformed_or x p (first_malformed kvs)) e in
      let same : x ≡ kv = cc in rw (e, same) refl
  | inr ((k', text), e) ↦
      let there : first_malformed (x ∷ kvs) ≡ first_malformed kvs =
        ap (λ p. malformed_or x p (first_malformed kvs)) e in
      rw e (overrides_malformed kvs (insert k' (parse_scalar text) m) kv (sym there ∙ h))
]

-- How the text of a `-P` argument is typed.
pub data Reads : String → Scalar → Type 0 where
  true_read : Reads "true" (bool_value true)
  false_read : Reads "false" (bool_value false)
  number_read : {text : String} {n : ℤ} → parse_i64 text ≡ some n → Reads text (number_value n)
  text_read :
      {text : String}
      → text ≢ "true"
      → text ≢ "false"
      → parse_i64 text ≡ none
      → Reads text (string_value text)

parse_scalar-Reads : (text : String) → Reads text (parse_scalar text)
unfolding parse_scalar
parse_scalar-Reads text = elim (Bool-cases (str_eq text "true")) [
  | inl e ↦ rw e (subst (λ t. Reads t (bool_value true)) (sym ((eq_iff text "true").0 e)) true_read)
  | inr e ↦ elim (Bool-cases (str_eq text "false")) [
    | inl f ↦
        rw (e, f)
          (subst (λ t. Reads t (bool_value false)) (sym ((eq_iff text "false").0 f)) false_read)
    | inr f ↦ elim (Option-cases (parse_i64 text)) [
      | inl g ↦ rw (e, f, g) (text_read (differs text "true" e) (differs text "false" f) g)
      | inr (n, g) ↦ rw (e, f, g) (number_read g)
    ]
  ]
]
  where
    differs : (s t : String) → str_eq s t ≡ false → s ≢ t
    differs s t e same = let h = (eq_iff s t).1 same in cc

abbrev or_else : Option String → Option String → Option String
or_else (some t) rest = some t
or_else none rest = rest

abbrev text_for : Option (String × String) → String → Option String
text_for none k = none
text_for (some (k', t)) k = if str_eq k' k then some t else none

-- The text behind the first `=` of the last `-P` argument that names a key.
unfoldable pub last_text : List String → String → Option String
last_text [] k = none
last_text (kv ∷ kvs) k = or_else (last_text kvs k) (text_for (split_once 61 kv) k)

abbrev scalar_or : Option String → Option Scalar → Option Scalar
scalar_or none v = v
scalar_or (some t) v = some (parse_scalar t)

assigned-text_for :
    (p : Option (String × String)) (k : String) (v : Option Scalar)
    → assigned p k v ≡ scalar_or (text_for p k) v
assigned-text_for none k v = refl
assigned-text_for (some (k', t)) k v = elim (Bool-cases (str_eq k' k)) [
  | inl e ↦ rw e refl
  | inr e ↦ rw e refl
]

scalar_or-or_else :
    (x y : Option String) (v : Option Scalar)
    → scalar_or x (scalar_or y v) ≡ scalar_or (or_else x y) v
scalar_or-or_else none y v = refl
scalar_or-or_else (some t) y v = refl

last_assigned-last_text :
    (kvs : List String) (k : String) (v : Option Scalar)
    → last_assigned kvs k v ≡ scalar_or (last_text kvs k) v
unfolding last_assigned last_text
last_assigned-last_text [] k v = refl
last_assigned-last_text (kv ∷ kvs) k v =
    last_assigned-last_text kvs k (assigned (split_once 61 kv) k v)
    ∙ ap (scalar_or (last_text kvs k)) (assigned-text_for (split_once 61 kv) k v)
    ∙ scalar_or-or_else (last_text kvs k) (text_for (split_once 61 kv) k) v

-- What stands under a key: the last `-P` argument that names it, or else its typed flag.
pub data ValueOf (a : TargetArgs) (k : String) : Option Scalar → Type 0 where
  overridden :
      {text : String} {v : Scalar}
      → last_text a.param k ≡ some text
      → Reads text v
      → ValueOf a k (some v)
  typed : last_text a.param k ≡ none → ValueOf a k (found (typed_flags a) k)

scalar_or-ValueOf :
    (a : TargetArgs) (k : String)
    → ValueOf a k (scalar_or (last_text a.param k) (found (typed_flags a) k))
scalar_or-ValueOf a k = elim (Option-cases (last_text a.param k)) [
  | inl e ↦ rw e (typed e)
  | inr (t, e) ↦ rw e (overridden e (parse_scalar-Reads t))
]

-- What stands under a key of the parameters, if they could be made.
abbrev pub get_in : String → Outcome Params → Outcome (Option Scalar)
get_in k (success m) = success (get m k)
get_in k (failure e) = failure e

-- If every `-P` argument has a `=`, the parameters are made, and what stands under each key is: the text
-- behind the first `=` of the last `-P` that names it, typed as a truth value, a number of 64 bits or a
-- text; or else, if no `-P` names it, what the table of the typed flags has for it.
pub params_value :
    (a : TargetArgs) (k : String)
    → first_malformed a.param ≡ none
    → (v : Option Scalar) × (get_in k (params a) ≡ success v) × ValueOf a k v
unfolding params
params_value a k h =
    let (m, run, looks) = overrides_value a.param (typed_params a) h in
    (
      scalar_or (last_text a.param k) (found (typed_flags a) k),
      ap (get_in k) run
          ∙ ap success (
              looks k
              ∙ ap (last_assigned a.param k) (typed_params-found a k)
              ∙ last_assigned-last_text a.param k (found (typed_flags a) k)),
      scalar_or-ValueOf a k,
    )

-- If some `-P` argument has no `=`, there are no parameters, and the error names the first such one.
pub params_malformed :
    (a : TargetArgs) (kv : String)
    → first_malformed a.param ≡ some kv
    → params a ≡ failure (expects kv)
unfolding params
params_malformed a kv h = overrides_malformed a.param (typed_params a) kv h
