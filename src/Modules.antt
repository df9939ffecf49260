-- ===== src/Modules.antt =====
-- The backup modules, and `build_registry` of crates/rust-backup/src/main.rs.
pub mod Filesystem
pub mod S3
pub mod Postgres
pub mod Mongodb
pub mod Stubs
use rust_backup.Prelude.{[]}
use rust_backup.Core.Wire.{Coded}
use rust_backup.Core.Module.{ModuleRegistry, register}

-- `serde_json::from_value` at the parameters of each module.
pub record Readers (V : Type 0) : Type 0 where
  pub postgres : V → Coded Postgres.PostgresParams
  pub mongodb : V → Coded Mongodb.MongoDbParams
  pub filesystem : V → Coded Filesystem.FilesystemParams
  pub s3 : V → Coded S3.S3Params

unfoldable pub build_registry : {V : Type 0} → Readers V → ModuleRegistry V
build_registry readers = register (S3.backup_module readers.s3) (
    register (Filesystem.backup_module readers.filesystem) (
      register (Mongodb.backup_module readers.mongodb)
        (register (Postgres.backup_module readers.postgres) [])))
