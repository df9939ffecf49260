-- ===== src/Transport/Provider/Lifetime.antt =====
-- How long a provider of crates/rb-transport/src/server.rs stands in the registry.
use rust_backup.Prelude.{
  ℕ, ◌≡◌, ◌≢◌, refl, ◌∙◌, String, Bool, true, false, Option, none, some, List, Bool-cases, ==_iff,
  inl, inr, arith,
}
use rust_backup.Core.Error.{Outcome, success, failure}
use rust_backup.Core.Wire.{Codec}
use rust_backup.Transport.Proto.{ServerMsg, Output}
use rust_backup.Transport.Provider.{
  Point, entering, answering, serving, guarded, after_ok, on_check, serve_provider,
}
use rust_backup.Transport.Server.{
  contains_key, Stage, arrived, cleared, registered, refused, gone, World, move, after_check,
  check_free, enter, leave, Step, checks, enters, leaves, Reachable, extend,
}
use rust_backup.Transport.Server.Ownership.{move_here, registry_owner}
use rust_backup.Transport.Serving.{Event}

move_there : (t u : ℕ) (p : Stage) (f : ℕ → Stage) → u ≢ t → move u p f t ≡ f t
unfolding move
move_there t u p f other = ground (arith, ==_iff u t)

module _ (channel : ℕ → String) where
  -- The connection that takes a step.
  abbrev pub actor : {w w' : World} → Step channel w w' → ℕ
  actor (checks t w at) = t
  actor (enters t w at) = t
  actor (leaves t w at) = t

  -- Steps of other connections than `t`.
  pub data Others (t : ℕ) (w : World) : World → Type 0 where
    still : Others t w w
    goes :
        {w' w'' : World} → Others t w w' → (s : Step channel w' w'') → actor s ≢ t → Others t w w''

  Others-Reachable :
      {t : ℕ} {w w' : World} → Reachable channel w → Others t w w' → Reachable channel w'
  Others-Reachable r still = r
  Others-Reachable r (goes before s other) = extend (Others-Reachable r before) s

  check_free-stage : (u t : ℕ) (w : World) → u ≢ t → (check_free channel u w).stage t ≡ w.stage t
  unfolding check_free after_check
  check_free-stage u t w other = elim (Bool-cases (contains_key (w.registry (channel u)))) [
    | inl e ↦ rw e (move_there t u refused w.stage other)
    | inr e ↦ rw e (move_there t u cleared w.stage other)
  ]

  pub check_free-registry : (u : ℕ) (w : World) → (check_free channel u w).registry ≡ w.registry
  unfolding check_free after_check
  check_free-registry u w = elim (Bool-cases (contains_key (w.registry (channel u)))) [
    | inl e ↦ rw e refl
    | inr e ↦ rw e refl
  ]

  Step-stage : (t : ℕ) {w w' : World} (s : Step channel w w') → actor s ≢ t → w'.stage t ≡ w.stage t
  unfolding enter leave
  Step-stage t (checks u w at) other = check_free-stage u t w other
  Step-stage t (enters u w at) other = move_there t u registered w.stage other
  Step-stage t (leaves u w at) other = move_there t u gone w.stage other

  Others-stage : (t : ℕ) {w w' : World} → Others t w w' → w'.stage t ≡ w.stage t
  Others-stage t still = refl
  Others-stage t (goes before s other) = Step-stage t s other ∙ Others-stage t before

  -- Where connection `t` stands in a world that the server can get to.
  abbrev pub Stands : ℕ → World → Stage → Type 0
  Stands t w p = Reachable channel w × (w.stage t ≡ p)

  pub Others-Stands :
      {t : ℕ} {w w' : World} {p : Stage} → Stands t w p → Others t w w' → Stands t w' p
  Others-Stands {t} (reached, at) o = (Others-Reachable reached o, Others-stage t o ∙ at)

  enter-Stands : (t : ℕ) (w : World) → Stands t w cleared → Stands t (enter channel t w) registered
  unfolding enter
  enter-Stands t w (reached, at) = (extend reached (enters t w at), move_here t registered w.stage)

  -- A call that goes on is registered, and one that has returned is not.
  abbrev pub Fits : Option (Outcome (Unit {0})) → Stage → Type 0
  Fits none p = p ≡ registered
  Fits (some r) p = p ≢ registered

  abbrev Holds : ℕ → Option (Outcome (Unit {0})) → World → Type 0
  Holds t r w = Reachable channel w × Fits r (w.stage t)

  module _ (out : Output) {Uuid : Type 0} (server : Codec (ServerMsg Uuid))
      (others : Point → World → World) where
    guarded-Holds :
        (t : ℕ) (r : Option (Outcome (Unit {0}))) (w : World)
        → Stands t w registered
        → Holds t r (guarded out server channel others t r w)
    unfolding leave
    guarded-Holds t none w s = s
    guarded-Holds t (some r) w (reached, at) =
        (extend reached (leaves t w at), λ h. absurd (cc (move_here t gone w.stage)))

    module _ (t : ℕ) (es : List (Event ⊥))
        (meanwhile : (p : Point) (w : World) → Others t w (others p w)) where
      after_ok-Holds :
          (w : World) (r : Outcome (Unit {0}) × out.State)
          → Stands t w registered
          → Holds t
              (after_ok out server channel others t es w r).result
              (after_ok out server channel others t es w r).world
      after_ok-Holds w (failure e, s) at = guarded-Holds t (some (failure e)) w at
      after_ok-Holds w (success _, s) at =
          guarded-Holds t _ (others serving w) (Others-Stands at (meanwhile serving w))

      on_check-Holds :
          (b : Bool) (w : World) (s : out.State)
          → contains_key (w.registry (channel t)) ≡ b
          → Stands t w arrived
          → Holds t
              (on_check out server channel others b t es (check_free channel t w) s).result
              (on_check out server channel others b t es (check_free channel t w) s).world
      unfolding check_free after_check
      on_check-Holds true w s e (reached, at) =
          let there : Stands t (check_free channel t w) refused =
            (extend reached (checks t w at), rw e (move_here t refused w.stage)) in
          let (last, stays) = Others-Stands there (meanwhile answering (check_free channel t w)) in
          (last, λ h. absurd (cc))
      on_check-Holds false w s e (reached, at) =
          let free : Stands t (check_free channel t w) cleared =
            (extend reached (checks t w at), rw e (move_here t cleared w.stage)) in
          let w1 = others entering (check_free channel t w) in
          let entered =
            enter-Stands t w1 (Others-Stands free (meanwhile entering (check_free channel t w))) in
          after_ok-Holds (others answering (enter channel t w1)) _
            (Others-Stands entered (meanwhile answering (enter channel t w1)))

      -- A provider that has returned stands nowhere in the registry. Whatever the other connections do
      -- meanwhile, by steps of their own, a connection that arrives in a world that the server can get to
      -- leads to one that the server can get to; and once its call has returned, refused, cut off in the
      -- middle of its answer, or at the end of its loop, the registry names it for no channel.
      pub serve_provider-gone :
          (w : World) (s : out.State) (r : Outcome (Unit {0})) (k : String)
          → Reachable channel w
          → w.stage t ≡ arrived
          → (serve_provider out server channel others t es w s).result ≡ some r
          → Reachable channel (serve_provider out server channel others t es w s).world
            × ((serve_provider out server channel others t es w s).world.registry k ≢ some t)
      unfolding serve_provider
      serve_provider-gone w s r k reached at done =
          let (last, fits) =
            on_check-Holds (contains_key (w.registry (channel t))) w s refl (reached, at) in
          let out_of : Fits (some r) _ = rw done at fits in
          (last, λ h. out_of (registry_owner channel _ k t last h).0)
