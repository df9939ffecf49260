-- ===== src/Prelude/Text.antt =====
-- Decimal text, as the standard library's `Display` writes an unsigned integer.
use Prim.Native.Nat.{ℕ, zero, suc, ◌/◌, ◌%◌}
use Prim.Native.String.{String, ◌++◌ as ◌<>◌}
use mathlib.Core.List.{[], ◌∷◌}
use rust_backup.Prelude.Tests.{ltb, if◌then◌else◌}
use rust_backup.Prelude.Lists.{get_elem?}
use mathlib.Core.Option.{get_or}
use mathlib.Core.Path.{◌≡◌, refl}

unfoldable pub digit : ℕ → String
digit n = get_or (get_elem? ("0" ∷ "1" ∷ "2" ∷ "3" ∷ "4" ∷ "5" ∷ "6" ∷ "7" ∷ "8" ∷ "9" ∷ []) n) ""

-- `places` digits at most.
unfoldable pub digits_of : ℕ → ℕ → String
digits_of zero n = ""
digits_of (suc places) n =
    let rest = digits_of places (n / 10) in if ltb n 10 then digit n else rest <> digit (n % 10)

-- Twenty places hold every `u64`.
unfoldable pub decimal : ℕ → String
unfolding digits_of digit
decimal n = digits_of 20 n

decimal_runs : decimal 1_048_576 ≡ "1048576"
unfolding decimal
decimal_runs = refl
