-- ===== src/Transport/Server/Pools/Service.antt =====
-- That a relay of crates/rb-transport/src/server.rs finds an opener in the pool that it has looked up.
use rust_backup.Prelude.{
  ℕ, ◌≡◌, refl, ap, sym, ◌∙◌, subst, inl, inr, String, some, [], ◌∷◌, ◌==◌, ==_iff, Bool-cases,
}
use rust_backup.Transport.Pool.{CarrierPool, fresh, new, retain, take_turn, pick}
use rust_backup.Transport.Pool.Live.{Offers, here, pick-Offers}
use rust_backup.Transport.Server.{move, enter}
use rust_backup.Transport.Server.Pools.{
  Pools, update, enter_pool, look_up, take_opener, PoolStep, checks_free, enters_pool, leaves_pool,
  looks_up, takes, Ran, began, went,
}
use rust_backup.Transport.Server.Pools.Entering.{
  HasEntered, update-keeps, check-HasEntered-back, leave-HasEntered-back,
}
use rust_backup.Transport.Server.Pools.Isolation.{Ran-IsIsolated, picked-OwnedBy}

-- A pool of the one live carrier that its connection entered with.
abbrev IsStocked : ℕ → CarrierPool ℕ → Type 0
IsStocked t pool = pool.carriers ≡ fresh t ∷ []

pick-IsStocked : (t : ℕ) (pool : CarrierPool ℕ) → IsStocked t pool → IsStocked t (pick pool).1
unfolding pick retain
pick-IsStocked t pool h = ap (λ cs. (take_turn (retain cs) pool.next).1.carriers) h

pick-stocked : (t : ℕ) (pool : CarrierPool ℕ) → IsStocked t pool → (pick pool).0 ≡ some t
pick-stocked t pool h = elim (pick-Offers pool) [
  | inl (_, nobody) ↦ absurd (nobody (t, subst (Offers t) (sym h) (here (fresh t) [] refl refl)))
  | inr (o, picked, _) ↦ picked ∙ ap some (picked-OwnedBy t o pool (rw h (refl, tt)) picked)
]

module _ (channel id : ℕ → String) where
  abbrev AreStocked : Pools → Type 0
  AreStocked w = (t : ℕ) → HasEntered (w.world.stage t) → IsStocked t (w.pool t)

  enter-AreStocked : (t : ℕ) (w : Pools) → AreStocked w → AreStocked (enter_pool channel id t w)
  unfolding enter_pool enter move update new
  enter-AreStocked t w old u h = elim (Bool-cases (t == u)) [
    | inl e ↦ rw e (ap (λ v. fresh v ∷ []) ((==_iff t u).0 e))
    | inr e ↦ rw e (old u (rw e at h))
  ]

  take-AreStocked : (r t : ℕ) (w : Pools) → AreStocked w → AreStocked (take_opener channel id r t w)
  unfolding take_opener
  take-AreStocked r t w old u h =
      update-keeps (λ v pool. HasEntered (w.world.stage v) → IsStocked v pool) t (pick (w.pool t)).1
        w.pool (λ e. pick-IsStocked t (w.pool t) (old t e)) old u h

  step-AreStocked : {w w' : Pools} → AreStocked w → PoolStep channel id w w' → AreStocked w'
  unfolding look_up
  step-AreStocked old (checks_free t w at) u h = old u (check-HasEntered-back channel t u w.world h)
  step-AreStocked old (leaves_pool t w at) u h =
      old u (leave-HasEntered-back channel t u w.world at h)
  step-AreStocked old (enters_pool t w at) u h = enter-AreStocked t w old u h
  step-AreStocked old (looks_up r w) u h = old u h
  step-AreStocked old (takes r t w has) u h = take-AreStocked r t w old u h

  Ran-AreStocked : {w : Pools} → Ran channel id w → AreStocked w
  Ran-AreStocked began t h = absurd h
  Ran-AreStocked (went before step) t h = step-AreStocked (Ran-AreStocked before) step t h

  -- However providers come and go and relays interleave with them, a relay that has looked up a pool is
  -- given the opener of the connection that entered it when it picks, and this connection registered for
  -- the channel that the relay's consumer asked for: also if the provider has left since, and however many
  -- relays have picked before.
  pub relay_served :
      (w : Pools) (r t : ℕ)
      → Ran channel id w
      → w.held r ≡ some t
      → ((take_opener channel id r t w).given r ≡ some t)
        × (channel t ≡ id r)
        × Ran channel id (take_opener channel id r t w)
  unfolding take_opener update
  relay_served w r t ran has =
      let (named, entered) = (Ran-IsIsolated channel id ran).holds r t has in
      let stocked = Ran-AreStocked ran t entered in
      (
        rw ((==_iff r r).1 refl) (pick-stocked t (w.pool t) stocked),
        named,
        went ran (takes r t w has),
      )
