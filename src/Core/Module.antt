-- ===== src/Core/Module.antt =====
-- crates/rb-core/src/module.rs: the parameters of a target, the trait of a backup module, and the
-- registry of modules. The traits of its two sides are in `Session`.
pub mod Names
pub mod Registry
use text.Mathlib.Text.{◌==◌ as str_eq}
use Prim.Native.Nat.{Ordering}
use Prim.Native.String.{compare}
use rust_backup.Prelude.{String, ◌<>◌, Option, none, some, List, [], ◌∷◌, if◌then◌else◌}
use rust_backup.Core.Error.{Result, ok, err, config_error}
use rust_backup.Core.Wire.{Coded, coded, refused}
use rust_backup.Core.Session.{Source, Destination}

-- `TargetParams::deserialize`, over what `serde_json::from_value` gave.
abbrev pub deserialize : {T : Type 0} → Coded T → Result T
deserialize (coded params) = ok params
deserialize (refused e) = err (config_error ("invalid module params: " <> e))

-- `Box<dyn Source>` and `Box<dyn Destination>`: a backend's state and its methods.
pub record OpenSource (V : Type 0) : Type 1 where
  pub Backend : Type 0
  pub state : Backend
  pub methods : Source V Backend

pub record OpenDestination (V : Type 0) : Type 1 where
  pub Backend : Type 0
  pub state : Backend
  pub methods : Destination V Backend

pub record BackupModule (V : Type 0) : Type 1 where
  pub name : String
  pub version_support : String
  pub open_source : V → Result (OpenSource V)
  pub open_destination : V → Result (OpenDestination V)

module _ {V : Type 0} {T : Type 0} where
  -- The `open_source` of every module: its parameters, boxed with its methods.
  abbrev pub box_source : Source V T → Result T → Result (OpenSource V)
  box_source methods (ok params) = ok (record { Backend = T; state = params; methods = methods })
  box_source methods (err e) = err e

  abbrev pub opened_source : (V → Coded T) → Source V T → V → Result (OpenSource V)
  opened_source from_value methods v = box_source methods (deserialize (from_value v))

  abbrev pub box_destination : Destination V T → Result T → Result (OpenDestination V)
  box_destination methods (ok params) =
      ok (record { Backend = T; state = params; methods = methods })
  box_destination methods (err e) = err e

  abbrev pub opened_destination : (V → Coded T) → Destination V T → V → Result (OpenDestination V)
  opened_destination from_value methods v = box_destination methods (deserialize (from_value v))

-- A `HashMap` by its entries, at most one for a key.
abbrev pub ModuleRegistry : Type 0 → Type 1
ModuleRegistry V = List (String × BackupModule V)

module _ {V : Type 0} where
  -- `HashMap::insert`: a key that is there keeps one entry, with the new value.
  abbrev pub insert : String → BackupModule V → ModuleRegistry V → ModuleRegistry V
  insert k m [] = (k, m) ∷ []
  insert k m ((k', m') ∷ reg) =
      let rest = insert k m reg in if str_eq k' k then (k, m) ∷ reg else (k', m') ∷ rest

  abbrev pub register : BackupModule V → ModuleRegistry V → ModuleRegistry V
  register m reg = insert m.name m reg

  abbrev pub get : ModuleRegistry V → String → Option (BackupModule V)
  get [] name = none
  get ((k, m) ∷ reg) name = let rest = get reg name in if str_eq k name then some m else rest

-- `sort_unstable` of texts, which are compared by their bytes.
unfoldable pub insert_sorted : String → List String → List String
insert_sorted x [] = x ∷ []
insert_sorted x (y ∷ ys) =
    let rest = insert_sorted x ys in
    elim (compare x y) [
      | Ordering.lt ↦ x ∷ y ∷ ys
      | Ordering.eq ↦ x ∷ y ∷ ys
      | Ordering.gt ↦ y ∷ rest
    ]

unfoldable pub sort_unstable : List String → List String
sort_unstable [] = []
sort_unstable (x ∷ xs) = insert_sorted x (sort_unstable xs)

module _ {V : Type 0} where
  abbrev pub keys : ModuleRegistry V → List String
  keys [] = []
  keys ((k, m) ∷ reg) = k ∷ keys reg

  unfoldable pub names : ModuleRegistry V → List String
  names reg = sort_unstable (keys reg)
