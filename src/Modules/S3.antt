-- ===== src/Modules/S3.antt =====
-- crates/rb-s3/src/lib.rs: the parameters, the payload of a plan, and the module, whose source and
-- destination are stubs. A backend's state is its parameters.
use rust_backup.Prelude.{ℕ, String, Bool, false, Option, List}
use rust_backup.Core.Error.{err, fail, pure, phase, analyze, transfer, apply}
use rust_backup.Core.Plan.{pass, check}
use rust_backup.Core.Wire.{Coded}
use rust_backup.Core.Session.{Source, Destination, uploaded, downloaded}
use rust_backup.Core.Module.{BackupModule, opened_source, opened_destination}

pub record S3Params : Type 0 where
  pub endpoint : Option String
  pub region : Option String
  pub bucket : String
  pub prefix : Option String
  pub access_key : Option String
  pub secret_key : Option String
  pub path_style : Bool

pub record S3Object : Type 0 where
  pub key : String
  pub size : ℕ
  pub etag : Option String
  pub content_type : Option String
  pub storage_class : Option String

pub record S3Bucket : Type 0 where
  pub name : String
  pub objects : List S3Object
  pub policy : Option String

pub record S3Plan : Type 0 where
  pub source_endpoint : Option String
  pub buckets : List S3Bucket

module _ {V : Type 0} where
  abbrev pub source : Source V S3Params
  source = record {
    analyze = fail (phase analyze "rb-s3: analyze not yet implemented (plan Phase 2)");
    stream_out = λ p b.
        uploaded (err (phase transfer "rb-s3: stream_out not yet implemented (plan Phase 2)")) b;
    fingerprint = fail (phase analyze "rb-s3: fingerprint not yet implemented (plan Phase 2)");
  }

  abbrev pub destination : Destination V S3Params
  destination = record {
    validate = λ p. pure (
        check pass "not-implemented" false
          "rb-s3 restore stub — destination validation and restore not yet implemented (plan Phase 2)");
    stream_in = λ p b.
        downloaded (err (phase apply "rb-s3: stream_in not yet implemented (plan Phase 2)")) b;
  }

  -- `from_value` is `serde_json::from_value` at the parameters of this module.
  abbrev pub backup_module : (V → Coded S3Params) → BackupModule V
  backup_module from_value = record {
    name = "s3";
    version_support = "S3-compatible (AWS S3, MinIO)";
    open_source = opened_source from_value source;
    open_destination = opened_destination from_value destination;
  }
