-- ===== src/Modules/Mongodb.antt =====
-- crates/rb-mongodb/src/lib.rs: the parameters, the payload of a plan, and the module, whose source and
-- destination are stubs. A backend's state is its parameters.
use rust_backup.Prelude.{ℕ, String, false, Option, List}
use rust_backup.Core.Error.{err, fail, pure, phase, analyze, transfer, apply}
use rust_backup.Core.Plan.{pass, check}
use rust_backup.Core.Wire.{Coded}
use rust_backup.Core.Session.{Source, Destination, uploaded, downloaded}
use rust_backup.Core.Module.{BackupModule, opened_source, opened_destination}

pub record MongoDbParams : Type 0 where
  pub uri : Option String
  pub host : Option String
  pub port : ℕ
  pub user : Option String
  pub password : Option String
  pub database : Option String
  pub auth_db : Option String

abbrev pub default_mongo_port : ℕ
default_mongo_port = 27017

pub record MongoCollection (V : Type 0) : Type 0 where
  pub name : String
  pub options : V
  pub indexes : List String
  pub estimated_docs : ℕ
  pub estimated_bytes : ℕ

pub record MongoUser : Type 0 where
  pub name : String
  pub roles : List String

pub record MongoDatabase (V : Type 0) : Type 0 where
  pub name : String
  pub collections : List (MongoCollection V)
  pub users : List MongoUser

pub record MongoDbPlan (V : Type 0) : Type 0 where
  pub server_version : String
  pub databases : List (MongoDatabase V)

module _ {V : Type 0} where
  abbrev pub source : Source V MongoDbParams
  source = record {
    analyze = fail (phase analyze "rb-mongodb: analyze not yet implemented (plan Phase 2)");
    stream_out = λ p b.
        uploaded (err (phase transfer "rb-mongodb: stream_out not yet implemented (plan Phase 2)"))
          b;
    fingerprint = fail (phase analyze "rb-mongodb: fingerprint not yet implemented (plan Phase 2)");
  }

  abbrev pub destination : Destination V MongoDbParams
  destination = record {
    validate = λ p. pure (
        check pass "not-implemented" false
          "rb-mongodb restore stub — destination validation and restore not yet implemented (plan Phase 2)");
    stream_in = λ p b.
        downloaded (err (phase apply "rb-mongodb: stream_in not yet implemented (plan Phase 2)")) b;
  }

  -- `from_value` is `serde_json::from_value` at the parameters of this module.
  abbrev pub backup_module : (V → Coded MongoDbParams) → BackupModule V
  backup_module from_value = record {
    name = "mongodb";
    version_support = "MongoDB 4..=8";
    open_source = opened_source from_value source;
    open_destination = opened_destination from_value destination;
  }
