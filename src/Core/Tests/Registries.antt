-- ===== src/Core/Tests/Registries.antt =====
-- The registry of crates/rb-core/src/module.rs at concrete modules.
use rust_backup.Prelude.{◌≡◌, refl, arith, String, List, [], ◌∷◌}
use rust_backup.Core.Error.{err, config_error}
use rust_backup.Core.Module.{BackupModule, names, sort_unstable, insert_sorted}
use rust_backup.Core.Module.Registry.{registered_on, registered-lists}

abbrev named : String → BackupModule (Unit {0})
named name = record {
  name = name;
  version_support = "";
  open_source = λ v. err (config_error "none");
  open_destination = λ v. err (config_error "none");
}

-- One name comes twice.
abbrev three : List (BackupModule (Unit {0}))
three = named "s3" ∷ named "filesystem" ∷ named "s3" ∷ []

names_run : names (registered_on [] three) ≡ "filesystem" ∷ "s3" ∷ []
unfolding names registered_on sort_unstable insert_sorted
names_run = refl

registered-lists_example : sort_unstable ("s3" ∷ "filesystem" ∷ []) ≡ names (registered_on [] three)
registered-lists_example =
    (registered-lists three ("s3" ∷ "filesystem" ∷ []) (refl, (refl, tt)) λ n. ground arith).3
