-- ===== src/Transport/Pool/Pending.antt =====
-- `PendingCarriers` and `TokenGuard` of crates/rb-transport/src/pool.rs: who waits for further carriers of a
-- provider, by token. The map is shared, so that dropping a guard is a step on it.
use text.Mathlib.Text.{◌==◌ as str_eq}
use rust_backup.Prelude.{String, Option, none, if◌then◌else◌}

-- `Sender` is the type of the waiting channel's end.
abbrev pub PendingCarriers : Type 0 → Type 0
PendingCarriers Sender = String → Option Sender

pub record TokenGuard : Type 0 where
  pub token : String

abbrev pub new_guard : String → TokenGuard
new_guard token = record { token = token }

unfoldable pub drop_guard :
    {Sender : Type 0} → TokenGuard → PendingCarriers Sender → PendingCarriers Sender
drop_guard guard registry token = if str_eq guard.token token then none else registry token
