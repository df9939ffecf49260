-- ===== src/Transport/Server/Pools/Isolation.antt =====
-- Which provider a relay of crates/rb-transport/src/server.rs comes to.
use rust_backup.Prelude.{
  ℕ, ◌≡◌, refl, sym, ◌∙◌, subst, ◌⊎◌, inl, inr, String, Bool, true, false, Option, none, some, List,
  [], ◌∷◌, All,
}
use rust_backup.Transport.Pool.{Carrier, CarrierPool, new, keep, retain, take_turn, pick}
use rust_backup.Transport.Pool.Live.{Offers, here, there, pick-Offers}
use rust_backup.Transport.Server.{
  Stage, arrived, cleared, registered, refused, gone, World, check_free, enter, leave, Step, checks,
  enters, leaves, Reachable, start, extend,
}
use rust_backup.Transport.Server.Ownership.{registry_owner}
use rust_backup.Transport.Server.Pools.Entering.{HasEntered, update-keeps, Step-HasEntered}
use rust_backup.Transport.Server.Pools.{
  Pools, enter_pool, look_up, take_opener, PoolStep, checks_free, enters_pool, leaves_pool,
  looks_up, takes, Ran, began, went,
}

-- All carriers of a pool are those of its owner.
abbrev pub OwnedBy : ℕ → CarrierPool ℕ → Type 0
OwnedBy t pool = All (λ (c : Carrier ℕ). c.opener ≡ t) pool.carriers

keep-OwnedBy :
    (t : ℕ) (b : Bool) (c : Carrier ℕ) (cs : List (Carrier ℕ))
    → c.opener ≡ t
    → All (λ (c : Carrier ℕ). c.opener ≡ t) cs
    → All (λ (c : Carrier ℕ). c.opener ≡ t) (keep b c cs)
keep-OwnedBy t true c cs e h = (e, h)
keep-OwnedBy t false c cs e h = h

retain-OwnedBy :
    (t : ℕ) (cs : List (Carrier ℕ))
    → All (λ (c : Carrier ℕ). c.opener ≡ t) cs
    → All (λ (c : Carrier ℕ). c.opener ≡ t) (retain cs)
unfolding retain
retain-OwnedBy t [] h = tt
retain-OwnedBy t (c ∷ cs) (e, h) = keep-OwnedBy t c.alive c (retain cs) e (retain-OwnedBy t cs h)

pick-OwnedBy : (t : ℕ) (pool : CarrierPool ℕ) → OwnedBy t pool → OwnedBy t (pick pool).1
unfolding pick
pick-OwnedBy t pool h = turn (retain pool.carriers) (retain-OwnedBy t pool.carriers h)
  where
    turn :
        (cs : List (Carrier ℕ))
        → All (λ (c : Carrier ℕ). c.opener ≡ t) cs
        → OwnedBy t (take_turn cs pool.next).1
    turn [] h = h
    turn (c ∷ cs) h = h

Offers-OwnedBy :
    (t o : ℕ) (cs : List (Carrier ℕ))
    → All (λ (c : Carrier ℕ). c.opener ≡ t) cs
    → Offers o cs
    → o ≡ t
Offers-OwnedBy t o _ h (here c cs named alive) = sym named ∙ h.0
Offers-OwnedBy t o _ h (there c {cs} later) = Offers-OwnedBy t o cs h.1 later

-- The opener that a pool gives is its owner's.
pub picked-OwnedBy :
    (t o : ℕ) (pool : CarrierPool ℕ) → OwnedBy t pool → (pick pool).0 ≡ some o → o ≡ t
picked-OwnedBy t o pool h picked = elim (pick-Offers pool) [
  | inl (nothing, _) ↦ absurd (let bad : none ≡ some o = sym nothing ∙ picked in cc)
  | inr (o', found, offers) ↦
      let same : some o' ≡ some o = sym found ∙ picked in
      let e : o ≡ o' = cc in e ∙ Offers-OwnedBy t o' pool.carriers h offers
]

module _ (channel id : ℕ → String) where
  -- A connection that has entered, for the channel that relay `r` asks for.
  abbrev pub Suits : (ℕ → Stage) → ℕ → Option ℕ → Type 0
  Suits stage r v = (t : ℕ) → v ≡ some t → (channel t ≡ id r) × HasEntered (stage t)

  pub record IsIsolated (w : Pools) : Type 0 where
    pub reached : Reachable channel w.world
    pub owned : (t : ℕ) → OwnedBy t (w.pool t)
    pub holds : (r : ℕ) → Suits w.world.stage r (w.held r)
    pub gives : (r : ℕ) → Suits w.world.stage r (w.given r)

  Suits-Step :
      {w w' : World} (step : Step channel w w') (r : ℕ) (v : Option ℕ)
      → Suits w.stage r v
      → Suits w'.stage r v
  Suits-Step step r v h t e = ((h t e).0, Step-HasEntered channel t step (h t e).1)

  -- A step of the registry alone.
  world-IsIsolated :
      (w : Pools) (next : World)
      → IsIsolated w
      → Step channel w.world next
      → IsIsolated (record w { world = next })
  world-IsIsolated w next i step = record {
    reached = extend i.reached step;
    owned = i.owned;
    holds = λ r. Suits-Step step r (w.held r) (i.holds r);
    gives = λ r. Suits-Step step r (w.given r) (i.gives r);
  }

  step-IsIsolated : {w w' : Pools} → IsIsolated w → PoolStep channel id w w' → IsIsolated w'
  unfolding enter_pool look_up take_opener new
  step-IsIsolated i (checks_free t w at) =
      world-IsIsolated w (check_free channel t w.world) i (checks t w.world at)
  step-IsIsolated i (leaves_pool t w at) =
      world-IsIsolated w (leave channel t w.world) i (leaves t w.world at)
  step-IsIsolated i (enters_pool t w at) =
      let j = world-IsIsolated w (enter channel t w.world) i (enters t w.world at) in
      record {
        reached = j.reached;
        owned = update-keeps OwnedBy t (new t) w.pool (refl, tt) i.owned;
        holds = j.holds;
        gives = j.gives;
      }
  step-IsIsolated i (looks_up r w) = record {
    reached = i.reached;
    owned = i.owned;
    holds =
        update-keeps (Suits w.world.stage) r (w.world.registry (id r)) w.held
          (λ t e.
            let (at, named) = registry_owner channel w.world (id r) t i.reached e in
            (named, subst HasEntered (sym at) tt))
          i.holds;
    gives = i.gives;
  }
  step-IsIsolated i (takes r t w has) = record {
    reached = i.reached;
    owned =
        update-keeps OwnedBy t (pick (w.pool t)).1 w.pool (pick-OwnedBy t (w.pool t) (i.owned t))
          i.owned;
    holds = i.holds;
    gives =
        update-keeps (Suits w.world.stage) r (pick (w.pool t)).0 w.given
          (λ o e.
            subst (λ u. (channel u ≡ id r) × HasEntered (w.world.stage u))
              (sym (picked-OwnedBy t o (w.pool t) (i.owned t) e)) (i.holds r t has))
          i.gives;
  }

  pub Ran-IsIsolated : {w : Pools} → Ran channel id w → IsIsolated w
  Ran-IsIsolated began = record {
    reached = start;
    owned = λ t. tt;
    holds = λ r t h. absurd (cc);
    gives = λ r t h. absurd (cc);
  }
  Ran-IsIsolated (went before step) = step-IsIsolated (Ran-IsIsolated before) step

  -- However providers come and go and relays interleave with them, the pools are a refinement of the
  -- registry of connection numbers, and a relay is only ever given the opener of a connection that
  -- registered for the very channel that the relay's consumer asked for: of no other channel, and of none
  -- that was refused or has only been looked up.
  pub relays_isolated :
      (w : Pools) (r o : ℕ)
      → Ran channel id w
      → w.given r ≡ some o
      → Reachable channel w.world
        × (channel o ≡ id r)
        × ((w.world.stage o ≡ registered) ⊎ (w.world.stage o ≡ gone))
  relays_isolated w r o ran h =
      let i = Ran-IsIsolated ran in
      (i.reached, (i.gives r o h).0, which (w.world.stage o) (i.gives r o h).1)
    where
      which : (p : Stage) → HasEntered p → (p ≡ registered) ⊎ (p ≡ gone)
      which registered h = inl refl
      which gone h = inr refl
      which arrived h = elim h [ ]
      which cleared h = elim h [ ]
      which refused h = elim h [ ]
