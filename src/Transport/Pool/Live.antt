-- ===== src/Transport/Pool/Live.antt =====
-- Whom `pick` of crates/rb-transport/src/pool.rs picks.
use rust_backup.Prelude.{
  ℕ, zero, suc, ◌%◌, ◌<◌, ◌≡◌, ◌⊎◌, ◌↔◌, inl, inr, refl, ap, Bool, true, false, none, some, List,
  [], ◌∷◌, length, arith, All,
}
use rust_backup.Transport.Pool.{Carrier, CarrierPool, keep, retain, opener_at, take_turn, pick}

module _ {Opener : Type 0} where
  abbrev pub Alive : Carrier Opener → Type 0
  Alive c = c.alive ≡ true

  keep-Alive :
      (c : Carrier Opener) (b : Bool) (rest : List (Carrier Opener))
      → c.alive ≡ b
      → All Alive rest
      → All Alive (keep b c rest)
  keep-Alive c true rest e h = (e, h)
  keep-Alive c false rest e h = h

  retain-Alive : (cs : List (Carrier Opener)) → All Alive (retain cs)
  unfolding retain
  retain-Alive [] = tt
  retain-Alive (c ∷ cs) = keep-Alive c c.alive (retain cs) refl (retain-Alive cs)

  -- Some carrier of the list has this opener, and is alive.
  pub data Offers (o : Opener) : List (Carrier Opener) → Type 0 where
    here :
        (c : Carrier Opener) (cs : List (Carrier Opener))
        → c.opener ≡ o
        → Alive c
        → Offers o (c ∷ cs)
    there : (c : Carrier Opener) {cs : List (Carrier Opener)} → Offers o cs → Offers o (c ∷ cs)

  opener_at-Offers :
      (cs : List (Carrier Opener)) (i : ℕ)
      → All Alive cs
      → i < length cs
      → (o : Opener) × (opener_at cs i ≡ some o) × Offers o cs
  opener_at-Offers [] i h lt = absurd (omega arith)
  opener_at-Offers (c ∷ cs) zero (e, h) lt = (c.opener, refl, here c cs refl e)
  opener_at-Offers (c ∷ cs) (suc i) (e, h) lt =
      let (o, found, offers) = opener_at-Offers cs i h (omega arith) in (o, found, there c offers)

  keep-Offers :
      {o : Opener} (c : Carrier Opener) (b : Bool) {cs rest : List (Carrier Opener)}
      → (Offers o rest → Offers o cs)
      → Offers o (keep b c rest)
      → Offers o (c ∷ cs)
  keep-Offers c true old (here _ _ e a) = here c _ e a
  keep-Offers c true old (there _ h) = there c (old h)
  keep-Offers c false old h = there c (old h)

  retain-Offers : {o : Opener} (cs : List (Carrier Opener)) → Offers o (retain cs) → Offers o cs
  unfolding retain
  retain-Offers [] h = h
  retain-Offers (c ∷ cs) h = keep-Offers c c.alive (retain-Offers cs) h

  Offers-keep :
      {o : Opener} (c : Carrier Opener) (b : Bool) (rest : List (Carrier Opener))
      → Offers o rest
      → Offers o (keep b c rest)
  Offers-keep c true rest h = there c h
  Offers-keep c false rest h = h

  Offers-retain : {o : Opener} (cs : List (Carrier Opener)) → Offers o cs → Offers o (retain cs)
  unfolding retain
  Offers-retain _ (here c cs e a) = rw (ap (λ b. keep b c (retain cs)) a) (here c (retain cs) e a)
  Offers-retain _ (there c {cs} h) = Offers-keep c c.alive (retain cs) (Offers-retain cs h)

  -- A pick gives the opener of a carrier that the pool has and that is alive, and none only if there is
  -- no such carrier.
  pub pick-Offers :
      (pool : CarrierPool Opener)
      → (((pick pool).0 ≡ none) × ¬ ((o : Opener) × Offers o pool.carriers))
        ⊎ ((o : Opener) × ((pick pool).0 ≡ some o) × Offers o pool.carriers)
  unfolding pick
  pick-Offers pool =
      turn (retain pool.carriers) (retain-Alive pool.carriers) (λ o. Offers-retain pool.carriers)
        (λ o. retain-Offers pool.carriers)
    where
      none_here : {o : Opener} → ¬ Offers o []
      none_here h = elim h [ ]

      turn :
          (cs : List (Carrier Opener))
          → All Alive cs
          → ((o : Opener) → Offers o pool.carriers → Offers o cs)
          → ((o : Opener) → Offers o cs → Offers o pool.carriers)
          → (((take_turn cs pool.next).0 ≡ none) × ¬ ((o : Opener) × Offers o pool.carriers))
            ⊎ ((o : Opener) × ((take_turn cs pool.next).0 ≡ some o) × Offers o pool.carriers)
      turn [] alive into back = inl (refl, λ r. none_here (into r.0 r.1))
      turn (c ∷ cs) alive into back =
          let (o, found, offers) =
            opener_at-Offers (c ∷ cs) (pool.next % length (c ∷ cs)) alive (omega arith) in
          inr (o, found, back o offers)

  pick-carriers : (pool : CarrierPool Opener) → (pick pool).1.carriers ≡ retain pool.carriers
  unfolding pick
  pick-carriers pool = go (retain pool.carriers)
    where
      go : (cs : List (Carrier Opener)) → (take_turn cs pool.next).1.carriers ≡ cs
      go [] = refl
      go (c ∷ cs) = refl

  -- A pick gives the opener of a carrier that the pool has and that is alive, and nothing only if there
  -- is no such carrier. Behind it the pool has lost the carriers that are dead, and no others.
  pub pick_live :
      (pool : CarrierPool Opener)
      → ((((pick pool).0 ≡ none) × ¬ ((o : Opener) × Offers o pool.carriers))
          ⊎ ((o : Opener) × ((pick pool).0 ≡ some o) × Offers o pool.carriers))
        × All Alive (pick pool).1.carriers
        × ((o : Opener) → Offers o pool.carriers ↔ Offers o (pick pool).1.carriers)
  pick_live pool = (
    pick-Offers pool,
    rw (pick-carriers pool) (retain-Alive pool.carriers),
    λ o. rw (pick-carriers pool) (Offers-retain pool.carriers, retain-Offers pool.carriers),
  )
