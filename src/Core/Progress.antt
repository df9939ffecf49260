-- ===== src/Core/Progress.antt =====
-- crates/rb-core/src/progress.rs: the shared counters. An atomic is its value; `fetch_add` wraps at
-- 64 bits, the width of `u64` and of `usize` on the 64-bit targets.
use rust_backup.Prelude.{ℕ, ◌+◌, ◌%◌, ◌^◌}

pub record Progress : Type 0 where
  pub bytes_done : ℕ
  pub items_done : ℕ
  pub items_total : ℕ
  pub bytes_total : ℕ

-- `Progress::default`
abbrev pub default_progress : Progress
default_progress = record { bytes_done = 0; items_done = 0; items_total = 0; bytes_total = 0 }

-- `Progress::new`
unfoldable pub new : ℕ → ℕ → Progress
new items_total bytes_total = record default_progress {
  items_total = items_total;
  bytes_total = bytes_total;
}

unfoldable pub add_bytes : ℕ → Progress → Progress
add_bytes n p = record p { bytes_done = (p.bytes_done + n) % 2 ^ 64 }

unfoldable pub item_done : Progress → Progress
item_done p = record p { items_done = (p.items_done + 1) % 2 ^ 64 }

unfoldable pub bytes : Progress → ℕ
bytes p = p.bytes_done
