-- ===== src/Core/Plan.antt =====
-- crates/rb-core/src/plan.rs: the plan that the source sends and the preflight of the destination.
-- `V` is the type of `serde_json::Value`, which the core never looks into. Integers are ℕ.
pub mod Checks
pub mod Render
use rust_backup.Prelude.{ℕ, ◌+◌, String, Bool, true, ◌&&◌, Option, none, List, [], ◌∷◌, ◌++◌}

abbrev pub plan_format_version : ℕ
plan_format_version = 1

pub data BackupMode : Type 0 where
  copy_1_to_1 : BackupMode

pub record PlanItem (V : Type 0) : Type 0 where
  pub id : ℕ
  pub ordinal : ℕ
  pub kind : String
  pub name : String
  pub estimated_bytes : ℕ
  pub meta : V

pub record IntegritySpec : Type 0 where
  pub algorithm : String
  pub per_item : Bool

abbrev pub default_integrity : IntegritySpec
default_integrity = record { algorithm = "blake3"; per_item = true }

pub record BackupPlan (V : Type 0) : Type 0 where
  pub format_version : ℕ
  pub module_name : String
  pub mode : BackupMode
  pub created_at : String
  pub source_summary : String
  pub items : List (PlanItem V)
  pub estimated_bytes : ℕ
  pub integrity : IntegritySpec
  pub payload : V

pub record PreflightCheck : Type 0 where
  pub name : String
  pub passed : Bool
  pub detail : String

pub record Preflight : Type 0 where
  pub ok : Bool
  pub checks : List PreflightCheck
  pub available_bytes : Option ℕ

-- `Preflight::pass`
unfoldable pub pass : Preflight
pass = record { ok = true; checks = []; available_bytes = none }

-- `Preflight::check`
unfoldable pub check : Preflight → String → Bool → String → Preflight
check p name passed detail = record p {
  ok = p.ok && passed;
  checks = p.checks ++ (record { name = name; passed = passed; detail = detail } ∷ []);
}
