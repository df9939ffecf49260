-- ===== src/Cli/Tracing.antt =====
-- `init_tracing` of crates/rust-backup/src/main.rs: the filter of the log.
use rust_backup.Prelude.{ℕ, zero, suc, String, ◌<>◌, Option, none, some}

abbrev pub level : (verbose : ℕ) → String
level zero = "info"
level (suc zero) = "debug"
level (suc (suc more)) = "trace"

-- `rust_log` is what the environment has under RUST_LOG, if that is a text.
unfoldable pub filter : (rust_log : Option String) → (verbose : ℕ) → String
filter (some given) verbose = given
filter none verbose =
    "rust_backup="
    <> level verbose
    <> ",rb_core="
    <> level verbose
    <> ",rb_transport="
    <> level verbose
