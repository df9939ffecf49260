-- ===== src/Core/Plan/Render.antt =====
-- `human_bytes` and `BackupPlan::render` of crates/rb-core/src/plan.rs, and `Progress::line` of
-- crates/rb-core/src/progress.rs: the texts for the operator. The 64-bit floating-point numbers and the
-- way they are written are a parameter.
pub mod Units
use rust_backup.Prelude.{
  ℕ, zero, suc, ◌+◌, ◌-◌, ◌==◌, String, ◌<>◌, Bool, Option, none, some, List, [], ◌∷◌, ltb,
  if◌then◌else◌, codes, decimal, length, get_elem?,
}
use mathlib.Core.Option.{get_or}
use rust_backup.Core.Plan.{BackupMode, copy_1_to_1, PlanItem, BackupPlan}
use rust_backup.Core.Progress.{Progress}

-- `f64`: conversions, the operations of the source, and `{:.1}` and `{:.2}`. `at_most_100` is
-- `min(100.0)`.
pub record Floats : Type 1 where
  pub F : Type 0
  pub of_u64 : ℕ → F
  pub to_u64 : F → ℕ
  pub nought : F
  pub at_least_1024 : F → Bool
  pub over_1024 : F → F
  pub is_positive : F → Bool
  pub over : F → F → F
  pub times_100 : F → F
  pub at_most_100 : F → F
  pub one_place : F → String
  pub two_places : F → String

abbrev pub units : List String
units = "B" ∷ "KiB" ∷ "MiB" ∷ "GiB" ∷ "TiB" ∷ []

abbrev pub unit_name : ℕ → String
unit_name i = get_or (get_elem? units i) ""

-- As many spaces.
unfoldable pub spaces : ℕ → String
spaces zero = ""
spaces (suc n) = " " <> spaces n

-- `{:>n}` and `{:<n}`
abbrev pub right_aligned : ℕ → String → String
right_aligned width s = spaces (width - length (codes s)) <> s

abbrev pub left_aligned : ℕ → String → String
left_aligned width s = s <> spaces (width - length (codes s))

-- The derived `Debug` of a mode.
abbrev pub mode_name : BackupMode → String
mode_name copy_1_to_1 = "Copy1to1"

module _ (floats : Floats) where
  -- The loop, with `left` units above the one that `i` numbers.
  unfoldable pub scale : (left : ℕ) → floats.F → ℕ → floats.F × ℕ
  scale zero f i = (f, i)
  scale (suc left) f i =
      let rest = scale left (floats.over_1024 f) (i + 1) in
      if floats.at_least_1024 f then rest else (f, i)

  abbrev pub written : ℕ → floats.F × ℕ → String
  written n (f, i) = if i == 0 then decimal n <> " B" else floats.two_places f <> " " <> unit_name i

  unfoldable pub human_bytes : ℕ → String
  human_bytes n = written n (scale 4 (floats.of_u64 n) 0)

  module _ {V : Type 0} where
    abbrev pub item_line : PlanItem V → String
    item_line it =
        "    ["
        <> right_aligned 3 (decimal it.id)
        <> "] "
        <> left_aligned 10 it.kind
        <> " "
        <> left_aligned 40 it.name
        <> " "
        <> human_bytes it.estimated_bytes
        <> "\n"

    unfoldable pub item_lines : List (PlanItem V) → String
    item_lines [] = ""
    item_lines (it ∷ its) = item_line it <> item_lines its

    unfoldable pub render : BackupPlan V → String
    render plan =
        "Backup plan  module="
        <> plan.module_name
        <> "  mode="
        <> mode_name plan.mode
        <> "  created="
        <> plan.created_at
        <> "\n"
        <> ("  " <> plan.source_summary <> "\n")
        <> ("  items: "
            <> decimal (length plan.items)
            <> "   estimated: "
            <> human_bytes plan.estimated_bytes
            <> "   integrity: "
            <> plan.integrity.algorithm
            <> "\n")
        <> item_lines plan.items

  abbrev pub rate : ℕ → floats.F → ℕ
  rate done elapsed_secs =
      if floats.is_positive elapsed_secs
      then floats.to_u64 (floats.over (floats.of_u64 done) elapsed_secs)
      else 0

  abbrev pub percentage : ℕ → ℕ → floats.F
  percentage done total =
      if ltb 0 total
      then floats.at_most_100
          (floats.times_100 (floats.over (floats.of_u64 done) (floats.of_u64 total)))
      else floats.nought

  -- `Progress::line`
  unfoldable pub line : floats.F → Progress → String
  line elapsed_secs p =
      "items "
      <> decimal p.items_done
      <> "/"
      <> decimal p.items_total
      <> "  "
      <> human_bytes p.bytes_done
      <> "/"
      <> human_bytes p.bytes_total
      <> "  ("
      <> floats.one_place (percentage p.bytes_done p.bytes_total)
      <> "%)  "
      <> human_bytes (rate p.bytes_done elapsed_secs)
      <> "/s"
