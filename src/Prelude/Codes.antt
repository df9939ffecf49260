-- ===== src/Prelude/Codes.antt =====
-- Texts as the numbers of their characters: `str::trim` and `to_ascii_lowercase`.
use Prim.Native.Nat.{ℕ, ◌+◌}
use Prim.Native.Char.{code}
use Prim.Native.String.{String}
use mathlib.Core.Bool.{Bool, true, false, ◌&&◌, ◌||◌}
use mathlib.Core.List.{List, [], ◌∷◌, map}
use mathlib.Core.Path.{◌≡◌, refl}
use rust_backup.Prelude.Tests.{leb, ◌==◌, if◌then◌else◌}

abbrev pub codes : String → List ℕ
codes String.[] = []
codes (String.◌∷◌ c s) = code c ∷ codes s

-- The white space of Unicode, as `char::is_whitespace` has it.
unfoldable pub is_white : ℕ → Bool
is_white c =
    (leb 9 c && leb c 13)
    || (c == 32)
    || (c == 133)
    || (c == 160)
    || (c == 5760)
    || (leb 8192 c && leb c 8202)
    || (c == 8232)
    || (c == 8233)
    || (c == 8239)
    || (c == 8287)
    || (c == 12288)

unfoldable pub trim_start : List ℕ → List ℕ
trim_start [] = []
trim_start (c ∷ cs) = let rest = trim_start cs in if is_white c then rest else c ∷ cs

-- A blank is dropped if nothing is left behind it.
abbrev cons_trimmed : ℕ → List ℕ → List ℕ
cons_trimmed c [] = if is_white c then [] else c ∷ []
cons_trimmed c (d ∷ ds) = c ∷ d ∷ ds

unfoldable pub trim_end : List ℕ → List ℕ
trim_end [] = []
trim_end (c ∷ cs) = cons_trimmed c (trim_end cs)

unfoldable pub trim : List ℕ → List ℕ
unfolding trim_start trim_end is_white
trim cs = trim_end (trim_start cs)

unfoldable pub lowercase : List ℕ → List ℕ
lowercase = map (λ c. if leb 65 c && leb c 90 then c + 32 else c)

unfoldable pub same_codes : List ℕ → List ℕ → Bool
same_codes [] [] = true
same_codes [] (d ∷ ds) = false
same_codes (c ∷ cs) [] = false
same_codes (c ∷ cs) (d ∷ ds) = let rest = same_codes cs ds in (c == d) && rest

trim_runs : lowercase (trim (codes "  YeS \n")) ≡ codes "yes"
unfolding trim lowercase
trim_runs = refl
