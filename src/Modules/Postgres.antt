-- ===== src/Modules/Postgres.antt =====
-- crates/rb-postgres/src/lib.rs: the parameters, the payload of a plan, and the module, whose source and
-- destination are stubs. A backend's state is its parameters.
use rust_backup.Prelude.{ℕ, ℤ, String, Bool, false, Option, List}
use rust_backup.Core.Error.{err, fail, pure, phase, analyze, transfer, apply}
use rust_backup.Core.Plan.{pass, check}
use rust_backup.Core.Wire.{Coded}
use rust_backup.Core.Session.{Source, Destination, uploaded, downloaded}
use rust_backup.Core.Module.{BackupModule, opened_source, opened_destination}

pub record PostgresParams : Type 0 where
  pub host : String
  pub port : ℕ
  pub user : String
  pub password : Option String
  pub database : Option String
  pub sslmode : String
  pub admin : Bool

abbrev pub default_pg_port : ℕ
default_pg_port = 5432

abbrev pub default_sslmode : String
default_sslmode = "prefer"

pub record SequenceDef : Type 0 where
  pub name : String
  pub current_value : ℤ

pub record FunctionDef : Type 0 where
  pub signature : String
  pub definition : String

pub record TableDef : Type 0 where
  pub schema : String
  pub name : String
  pub columns : List (String × String)
  pub constraints : List String
  pub indexes : List String
  pub owner : String
  pub grants : List String
  pub estimated_rows : ℕ
  pub estimated_bytes : ℕ

pub record SchemaDef : Type 0 where
  pub name : String
  pub tables : List TableDef
  pub sequences : List SequenceDef
  pub functions : List FunctionDef

pub record DatabaseDef : Type 0 where
  pub name : String
  pub owner : String
  pub encoding : String
  pub schemas : List SchemaDef
  pub extensions : List String

pub record RoleDef : Type 0 where
  pub name : String
  pub is_user : Bool
  pub comment : Option String

pub record PostgresPlan : Type 0 where
  pub server_version : String
  pub roles : List RoleDef
  pub databases : List DatabaseDef

module _ {V : Type 0} where
  abbrev pub source : Source V PostgresParams
  source = record {
    analyze = fail (phase analyze "rb-postgres: analyze not yet implemented (plan Phase 2)");
    stream_out = λ p b.
        uploaded (err (phase transfer "rb-postgres: stream_out not yet implemented (plan Phase 2)"))
          b;
    fingerprint =
        fail (phase analyze "rb-postgres: fingerprint not yet implemented (plan Phase 2)");
  }

  abbrev pub destination : Destination V PostgresParams
  destination = record {
    validate = λ p. pure (
        check pass "not-implemented" false
          "rb-postgres restore stub — destination validation and restore not yet implemented (plan Phase 2)");
    stream_in = λ p b.
        downloaded (err (phase apply "rb-postgres: stream_in not yet implemented (plan Phase 2)"))
          b;
  }

  -- `from_value` is `serde_json::from_value` at the parameters of this module.
  abbrev pub backup_module : (V → Coded PostgresParams) → BackupModule V
  backup_module from_value = record {
    name = "postgres";
    version_support = "PostgreSQL 10..=18 (logical, pure Rust)";
    open_source = opened_source from_value source;
    open_destination = opened_destination from_value destination;
  }
