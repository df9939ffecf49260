-- ===== src/Core/Plan/Render/Units.antt =====
-- The unit in which `human_bytes` of crates/rb-core/src/plan.rs writes a number of bytes.
use rust_backup.Prelude.{
  ℕ, zero, suc, ◌+◌, ◌^◌, ◌≤◌, ◌<◌, ◌≡◌, refl, ap, ◌∙◌, ◌⊎◌, inl, inr, leb, leb→le, leb-false→lt,
  Bool-cases, if◌then◌else◌, arith, decimal, ◌<>◌, ◌==◌,
}
use rust_backup.Core.Plan.Render.{Floats, unit_name, scale, written, human_bytes}

module _ (floats : Floats) where
  -- The number of bytes behind `k` divisions.
  unfoldable pub scaled : ℕ → ℕ → floats.F
  scaled n zero = floats.of_u64 n
  scaled n (suc k) = floats.over_1024 (scaled n k)

  -- What IEEE 754 has for these numbers: a division by a power of two is exact, and neither it nor the
  -- conversion takes a number over a power of 1024.
  abbrev pub IsExact : ℕ → Type 0
  IsExact n = (k : ℕ) → k < 4 → floats.at_least_1024 (scaled n k) ≡ leb (1_024 ^ (k + 1)) n

  -- The unit that is right for a number of bytes, with TiB for all above.
  abbrev pub IsUnit : ℕ → ℕ → Type 0
  IsUnit n i = (i ≤ 4) × ((i ≡ 0) ⊎ (1_024 ^ i ≤ n)) × ((i ≡ 4) ⊎ (n < 1_024 ^ (i + 1)))

  next : (n i : ℕ) → floats.over_1024 (scaled n i) ≡ scaled n (i + 1)
  unfolding scaled
  next n i = let e : suc i ≡ i + 1 = omega arith in ap (scaled n) e

  scale-IsUnit :
      (n left i : ℕ)
      → IsExact n
      → left + i ≡ 4
      → (i ≡ 0) ⊎ (1_024 ^ i ≤ n)
      → (j : ℕ) × (scale floats left (scaled n i) i ≡ (scaled n j, j)) × IsUnit n j
  unfolding scale scaled
  scale-IsUnit n zero i exact all low = (i, refl, (omega arith, low, inl (omega arith)))
  scale-IsUnit n (suc left) i exact all low = elim (Bool-cases (leb (1_024 ^ (i + 1)) n)) [
    | inl e ↦
        let big : 1_024 ^ (i + 1) ≤ n = leb→le (1_024 ^ (i + 1)) n e in
        let (j, ran, unit) = scale-IsUnit n left (i + 1) exact (omega arith) (inr big) in
        (
          j,
          ap
                (λ b.
                  if b
                  then scale floats left (floats.over_1024 (scaled n i)) (i + 1)
                  else (scaled n i, i))
                (exact i (omega arith) ∙ e)
              ∙ ap (λ f. scale floats left f (i + 1)) (next n i)
              ∙ ran,
          unit,
        )
    | inr e ↦ (
      i,
      ap
          (λ b.
            if b
            then scale floats left (floats.over_1024 (scaled n i)) (i + 1)
            else (scaled n i, i))
          (exact i (omega arith) ∙ e),
      (omega arith, low, inr (leb-false→lt (1_024 ^ (i + 1)) n e)),
    )
  ]

  -- If the floating-point numbers are exact on the way, a number of bytes is written in the largest of
  -- the five units that it reaches, and in bytes below 1024: in bytes the number itself, and otherwise
  -- the number divided by 1024 as often as the unit says.
  pub human_bytes-IsUnit :
      (n : ℕ)
      → IsExact n
      → (i : ℕ) × (human_bytes floats n ≡ (
          if i == 0
          then decimal n <> " B"
          else floats.two_places (scaled n i) <> " " <> unit_name i))
        × IsUnit n i
  unfolding human_bytes scaled
  human_bytes-IsUnit n exact =
      let (i, ran, unit) = scale-IsUnit n 4 0 exact refl (inl refl) in
      (i, ap (written floats n) ran, unit)
