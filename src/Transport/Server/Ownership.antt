-- ===== src/Transport/Server/Ownership.antt =====
-- Who stands in the registry of crates/rb-transport/src/server.rs.
use text.Mathlib.Text.{◌==◌ as str_eq}
use text.Mathlib.TextEquality.{eq_iff}
use rust_backup.Prelude.{
  ℕ, ◌≡◌, refl, sym, ap, ◌∙◌, String, Bool, true, false, none, some, ◌==◌, Bool-cases, ==_iff, inl,
  inr, arith,
}
use rust_backup.Transport.Server.{
  contains_key, insert, remove, Stage, arrived, cleared, registered, refused, World, started, move,
  after_check, check_free, enter, leave, Step, checks, enters, leaves, Reachable, start, extend,
}

pub move_here : (t : ℕ) (p : Stage) (f : ℕ → Stage) → move t p f t ≡ p
unfolding move
move_here t p f = rw ((==_iff t t).1 refl) refl

module _ (channel : ℕ → String) where
  -- Each entry belongs to a connection that is registered, for this channel.
  abbrev pub IsOwned : World → Type 0
  IsOwned w =
      (k : String) (t : ℕ) → w.registry k ≡ some t → (w.stage t ≡ registered) × (channel t ≡ k)

  -- A connection that is not registered may move without touching what is owned.
  move-IsOwned :
      (w : World) (t : ℕ) (p q : Stage)
      → IsOwned w
      → w.stage t ≡ q
      → (q ≡ registered → ⊥)
      → IsOwned (record w { stage = move t p w.stage })
  unfolding move
  move-IsOwned w t p q owned at other k u h = elim (Bool-cases (t == u)) [
    | inl e ↦
        let same : t ≡ u = ground arith in
        absurd (other (sym at ∙ ap w.stage same ∙ (owned k u h).0))
    | inr e ↦ (rw e (owned k u h).0, (owned k u h).1)
  ]

  check_free-IsOwned :
      (t : ℕ) (w : World) → IsOwned w → w.stage t ≡ arrived → IsOwned (check_free channel t w)
  unfolding check_free after_check
  check_free-IsOwned t w owned at = elim (Bool-cases (contains_key (w.registry (channel t)))) [
    | inl e ↦ rw e (move-IsOwned w t refused arrived owned at (λ q. absurd (cc)))
    | inr e ↦ rw e (move-IsOwned w t cleared arrived owned at (λ q. absurd (cc)))
  ]

  enter-IsOwned : (t : ℕ) (w : World) → IsOwned w → IsOwned (enter channel t w)
  unfolding enter insert move
  enter-IsOwned t w owned k u h = elim (Bool-cases (str_eq (channel t) k)) [
    | inl e ↦
        let same : t ≡ u =
          (let found : insert (channel t) t w.registry k ≡ some t = rw e refl in cc) in
        (
          ap (move t registered w.stage) (sym same) ∙ move_here t registered w.stage,
          ap channel (sym same) ∙ (eq_iff (channel t) k).0 e,
        )
    | inr e ↦
        let old : w.registry k ≡ some u = rw e at h in
        (
          elim (Bool-cases (t == u)) [ inl f ↦ rw f refl | inr f ↦ rw f (owned k u old).0 ],
          (owned k u old).1,
        )
  ]

  leave-IsOwned : (t : ℕ) (w : World) → IsOwned w → IsOwned (leave channel t w)
  unfolding leave remove move
  leave-IsOwned t w owned k u h = elim (Bool-cases (str_eq (channel t) k)) [
    | inl e ↦ let found : remove (channel t) w.registry k ≡ none = rw e refl in absurd (cc)
    | inr e ↦
        let old : w.registry k ≡ some u = rw e at h in
        (
          elim (Bool-cases (t == u)) [
            | inl f ↦
                let found =
                  (eq_iff (channel t) k).1 (ap channel ((==_iff t u).0 f) ∙ (owned k u old).1) in
                let clash : ◌≡◌ {A = Bool} true false = sym found ∙ e in absurd (cc)
            | inr f ↦ rw f (owned k u old).0
          ],
          (owned k u old).1,
        )
  ]

  Step-IsOwned : {w w' : World} → IsOwned w → Step channel w w' → IsOwned w'
  Step-IsOwned owned (checks t w at) = check_free-IsOwned t w owned at
  Step-IsOwned owned (enters t w at) = enter-IsOwned t w owned
  Step-IsOwned owned (leaves t w at) = leave-IsOwned t w owned

  started-IsOwned : IsOwned started
  started-IsOwned k t h = absurd (cc)

  Reachable-IsOwned : {w : World} → Reachable channel w → IsOwned w
  Reachable-IsOwned start = started-IsOwned
  Reachable-IsOwned (extend before step) = Step-IsOwned (Reachable-IsOwned before) step

  -- However the connections of a server interleave, what the registry names for a channel is a
  -- connection that registered for this very channel and has not left: a relay never gets a provider of
  -- another channel, nor one that is gone.
  pub registry_owner :
      (w : World) (k : String) (t : ℕ)
      → Reachable channel w
      → w.registry k ≡ some t
      → (w.stage t ≡ registered) × (channel t ≡ k)
  registry_owner w k t r h = Reachable-IsOwned r k t h
