-- ===== src/Core/Plan/Checks.antt =====
-- `Preflight::check` in crates/rb-core/src/plan.rs: what `ok` says of the recorded checks.
use mathlib.Core.List.{foldl}
use rust_backup.Prelude.{
  ◌≡◌, ap, sym, ◌∙◌, Bool, true, ◌&&◌, List, [], ◌∷◌, ◌++◌, arith, append-nil, append_assoc,
}
use rust_backup.Core.Plan.{Preflight, PreflightCheck, pass, check}

abbrev add_check : Preflight → PreflightCheck → Preflight
add_check p c = check p c.name c.passed c.detail

-- A preflight built from `pass` by a chain of `check` calls.
pub checked : List PreflightCheck → Preflight
checked = foldl add_check pass

abbrev pub all_passed : List PreflightCheck → Bool
all_passed [] = true
all_passed (c ∷ cs) = c.passed && all_passed cs

add_checks-ok :
    (p : Preflight) (cs : List PreflightCheck) → (foldl add_check p cs).ok ≡ (p.ok && all_passed cs)
unfolding check
add_checks-ok p [] = ground arith
add_checks-ok p (c ∷ cs) = ground (arith, add_checks-ok (add_check p c) cs)

add_checks-checks :
    (p : Preflight) (cs : List PreflightCheck) → (foldl add_check p cs).checks ≡ p.checks ++ cs
unfolding check
add_checks-checks p [] = ap (λ x. x) (sym (append-nil p.checks))
add_checks-checks p (c ∷ cs) =
    add_checks-checks (add_check p c) cs ∙ append_assoc p.checks (c ∷ []) cs

-- However the checks of a preflight turn out and in whatever order they are added, its `ok` holds
-- exactly when each recorded check passed, and no check is lost.
pub checked-ok :
    (cs : List PreflightCheck) → ((checked cs).ok ≡ all_passed cs) × ((checked cs).checks ≡ cs)
unfolding checked pass
checked-ok cs = (add_checks-ok pass cs, add_checks-checks pass cs)
