-- ===== src/Core/Tests/Plans.antt =====
-- The texts of crates/rb-core/src/plan.rs at concrete data.
use rust_backup.Core.Plan.Render.{Floats, scale, human_bytes}
use rust_backup.Prelude.{◌/◌, ◌*◌, min, leb, ltb, ℕ, ◌≡◌, refl, decimal}

-- Numbers without a fraction in place of the floating-point ones, and two million bytes.
abbrev whole : Floats
whole = record {
  F = ℕ;
  of_u64 = λ n. n;
  to_u64 = λ f. f;
  nought = 0;
  at_least_1024 = λ f. leb 1_024 f;
  over_1024 = λ f. f / 1_024;
  is_positive = λ f. ltb 0 f;
  over = λ f g. f / g;
  times_100 = λ f. f * 100;
  at_most_100 = λ f. min f 100;
  one_place = decimal;
  two_places = decimal;
}

human_bytes_runs : human_bytes whole 2_000_000 ≡ "1 MiB"
unfolding human_bytes scale decimal
human_bytes_runs = refl
