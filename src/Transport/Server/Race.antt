-- ===== src/Transport/Server/Race.antt =====
-- Two providers of one channel in crates/rb-transport/src/server.rs: `contains_key` and `insert` are two
-- calls, and the guard removes by the channel's name alone.
use text.Mathlib.TextPositions.{eq_refl}
use rust_backup.Prelude.{
  ℕ, ◌≡◌, ◌≢◌, refl, sym, ◌∙◌, String, none, some, ◌==◌, Bool-cases, ==_iff, inl, inr,
}
use rust_backup.Transport.Server.{
  insert, remove, Stage, arrived, cleared, registered, gone, World, started, move, after_check,
  check_free, enter, leave, checks, enters, leaves, Reachable, start, extend,
}
use rust_backup.Transport.Server.Ownership.{move_here}

move_there : (t u : ℕ) (p : Stage) (f : ℕ → Stage) → t ≢ u → move t p f u ≡ f u
unfolding move
move_there t u p f h = elim (Bool-cases (t == u)) [
  | inl e ↦ absurd (h ((==_iff t u).0 e))
  | inr e ↦ rw e refl
]

-- Both connections look before either enters.
abbrev pub both_cleared : (ℕ → String) → ℕ → ℕ → World
both_cleared channel t u = check_free channel u (check_free channel t started)

abbrev pub both_entered : (ℕ → String) → ℕ → ℕ → World
both_entered channel t u = enter channel u (enter channel t (both_cleared channel t u))

-- Two connections that register for one channel, and then the first of them leaves. The server can get
-- to where both are registered, each believing that the channel is its own, with the second in the
-- registry; and when the first leaves, the second is still registered but the registry has lost it.
pub two_providers :
    (channel : ℕ → String) (t u : ℕ)
    → t ≢ u
    → channel u ≡ channel t
    → Reachable channel (both_entered channel t u)
      × ((both_entered channel t u).stage t ≡ registered)
      × ((both_entered channel t u).stage u ≡ registered)
      × ((both_entered channel t u).registry (channel t) ≡ some u)
      × Reachable channel (leave channel t (both_entered channel t u))
      × ((leave channel t (both_entered channel t u)).stage u ≡ registered)
      × ((leave channel t (both_entered channel t u)).registry (channel u) ≡ none)
unfolding check_free after_check enter leave insert remove
two_providers channel t u differ one =
    let back : u ≢ t = λ e. differ (sym e) in
    let p0 : ℕ → Stage = λ n. arrived in
    let p1 = move t cleared p0 in
    let p2 = move u cleared p1 in
    let p3 = move t registered p2 in
    let t_cleared : p2 t ≡ cleared = move_there u t cleared p1 back ∙ move_here t cleared p0 in
    let u_cleared : p3 u ≡ cleared = move_there t u registered p2 differ ∙ move_here u cleared p1 in
    let t_in : move u registered p3 t ≡ registered =
      move_there u t registered p3 back ∙ move_here t registered p2 in
    let u_in : move u registered p3 u ≡ registered = move_here u registered p3 in
    let r1 = extend start (checks t started refl) in
    let r2 =
      extend r1 (checks u (check_free channel t started) (move_there t u cleared p0 differ)) in
    let r3 = extend r2 (enters t (both_cleared channel t u) t_cleared) in
    let r4 = extend r3 (enters u (enter channel t (both_cleared channel t u)) u_cleared) in
    (
      r4,
      t_in,
      u_in,
      rw (one, eq_refl (channel t)) refl,
      extend r4 (leaves t (both_entered channel t u) t_in),
      move_there t u gone (move u registered p3) differ ∙ u_in,
      rw (one, eq_refl (channel t)) refl,
    )
