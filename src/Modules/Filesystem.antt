-- ===== src/Modules/Filesystem.antt =====
-- crates/rb-filesystem/src/lib.rs: the parameters, the payload of a plan, and the module, whose source and
-- destination are stubs. A backend's state is its parameters.
use rust_backup.Prelude.{ℕ, String, Bool, true, false, Option, List}
use rust_backup.Core.Error.{err, fail, pure, phase, analyze, transfer, apply}
use rust_backup.Core.Plan.{pass, check}
use rust_backup.Core.Wire.{Coded}
use rust_backup.Core.Session.{Source, Destination, uploaded, downloaded}
use rust_backup.Core.Module.{BackupModule, opened_source, opened_destination}

pub record FilesystemParams : Type 0 where
  pub root : String
  pub follow_symlinks : Bool
  pub preserve_ownership : Bool
  pub preserve_xattr : Bool

abbrev pub default_preserve_ownership : Bool
default_preserve_ownership = true

pub record FilesystemEntry : Type 0 where
  pub path : String
  pub kind : String
  pub size : ℕ
  pub mode : ℕ
  pub uid : ℕ
  pub gid : ℕ
  pub mtime : ℕ
  pub target : Option String

pub record FilesystemPlan : Type 0 where
  pub root : String
  pub entries : List FilesystemEntry
  pub total_bytes : ℕ
  pub ownership_note : String

module _ {V : Type 0} where
  abbrev pub source : Source V FilesystemParams
  source = record {
    analyze = fail (phase analyze "rb-filesystem: analyze not yet implemented (plan Phase 2)");
    stream_out = λ p b.
        uploaded
          (err (phase transfer "rb-filesystem: stream_out not yet implemented (plan Phase 2)")) b;
    fingerprint =
        fail (phase analyze "rb-filesystem: fingerprint not yet implemented (plan Phase 2)");
  }

  abbrev pub destination : Destination V FilesystemParams
  destination = record {
    validate = λ p. pure (
        check pass "not-implemented" false
          "rb-filesystem restore stub — destination validation and restore not yet implemented (plan Phase 2)");
    stream_in = λ p b.
        downloaded (err (phase apply "rb-filesystem: stream_in not yet implemented (plan Phase 2)"))
          b;
  }

  -- `from_value` is `serde_json::from_value` at the parameters of this module.
  abbrev pub backup_module : (V → Coded FilesystemParams) → BackupModule V
  backup_module from_value = record {
    name = "filesystem";
    version_support = "Filesystem (POSIX; ownership+perms preserved on Linux)";
    open_source = opened_source from_value source;
    open_destination = opened_destination from_value destination;
  }
