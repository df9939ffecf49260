-- ===== src/Transport/Server/Pools/Entering.antt =====
-- The connections that have put a pool into the registry of crates/rb-transport/src/server.rs.
use rust_backup.Prelude.{ℕ, ◌≡◌, sym, subst, inl, inr, String, ◌==◌, ==_iff, Bool-cases}
use rust_backup.Transport.Server.{
  Stage, arrived, cleared, registered, refused, gone, World, move, contains_key, after_check,
  check_free, enter, leave, Step, checks, enters, leaves,
}
use rust_backup.Transport.Server.Pools.{update}

-- A connection that has put its pool into the registry, and may have left since.
abbrev pub HasEntered : Stage → Type 0
HasEntered registered = Unit {0}
HasEntered gone = Unit {0}
HasEntered arrived = ⊥
HasEntered cleared = ⊥
HasEntered refused = ⊥

-- A move from a stage that is no entry, or to one that is.
pub move-HasEntered :
    (t u : ℕ) (p : Stage) (stage : ℕ → Stage)
    → (HasEntered (stage t) → HasEntered p)
    → HasEntered (stage u)
    → HasEntered (move t p stage u)
unfolding move
move-HasEntered t u p stage keeps h = elim (Bool-cases (t == u)) [
  | inl e ↦
      let same : t ≡ u = (==_iff t u).0 e in
      rw e (keeps (subst (λ v. HasEntered (stage v)) (sym same) h))
  | inr e ↦ rw e h
]

-- What `update` leaves satisfies what the new value and the old ones do.
pub update-keeps :
    {A : Type 0} (P : ℕ → A → Type 0) (t : ℕ) (a : A) (f : ℕ → A)
    → P t a
    → ((u : ℕ) → P u (f u))
    → (u : ℕ) → P u (update t a f u)
unfolding update
update-keeps P t a f now old u = elim (Bool-cases (t == u)) [
  | inl e ↦ rw e (subst (λ v. P v a) ((==_iff t u).0 e) now)
  | inr e ↦ rw e (old u)
]

module _ (channel : ℕ → String) where
  check-HasEntered :
      (t u : ℕ) (w : World)
      → w.stage t ≡ arrived
      → HasEntered (w.stage u)
      → HasEntered ((check_free channel t w).stage u)
  unfolding check_free after_check
  check-HasEntered t u w at h = elim (Bool-cases (contains_key (w.registry (channel t)))) [
    | inl e ↦ rw e (move-HasEntered t u refused w.stage never h)
    | inr e ↦ rw e (move-HasEntered t u cleared w.stage never h)
  ]
    where
      never : {A : Type 0} → HasEntered (w.stage t) → A
      never h = let bad : ⊥ = subst HasEntered at h in absurd bad

  -- Who has entered stays so.
  pub Step-HasEntered :
      (u : ℕ) {w w' : World} → Step channel w w' → HasEntered (w.stage u) → HasEntered (w'.stage u)
  unfolding enter leave
  Step-HasEntered u (checks t w at) h = check-HasEntered t u w at h
  Step-HasEntered u (enters t w at) h = move-HasEntered t u registered w.stage (λ _. tt) h
  Step-HasEntered u (leaves t w at) h = move-HasEntered t u gone w.stage (λ _. tt) h

-- Who has entered behind a move had entered before, unless the move was an entry.
unmove-HasEntered :
    (t u : ℕ) (p : Stage) (stage : ℕ → Stage)
    → (HasEntered p → HasEntered (stage t))
    → HasEntered (move t p stage u)
    → HasEntered (stage u)
unfolding move
unmove-HasEntered t u p stage back h = elim (Bool-cases (t == u)) [
  | inl e ↦ subst (λ v. HasEntered (stage v)) ((==_iff t u).0 e) (back (rw e at h))
  | inr e ↦ rw e at h
]

module _ (channel : ℕ → String) where
  pub check-HasEntered-back :
      (t u : ℕ) (w : World) → HasEntered ((check_free channel t w).stage u) → HasEntered (w.stage u)
  unfolding check_free after_check
  check-HasEntered-back t u w h = elim (Bool-cases (contains_key (w.registry (channel t)))) [
    | inl e ↦ unmove-HasEntered t u refused w.stage (λ bad. absurd bad) (rw e at h)
    | inr e ↦ unmove-HasEntered t u cleared w.stage (λ bad. absurd bad) (rw e at h)
  ]

  pub leave-HasEntered-back :
      (t u : ℕ) (w : World)
      → w.stage t ≡ registered
      → HasEntered ((leave channel t w).stage u)
      → HasEntered (w.stage u)
  unfolding leave
  leave-HasEntered-back t u w at h =
      unmove-HasEntered t u gone w.stage (λ _. subst HasEntered (sym at) tt) h
