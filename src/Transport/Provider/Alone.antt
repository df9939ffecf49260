-- ===== src/Transport/Provider/Alone.antt =====
-- A provider of crates/rb-transport/src/server.rs that shares its channel with no other connection.
use text.Mathlib.Text.{◌==◌ as str_eq}
use text.Mathlib.TextEquality.{eq_iff}
use rust_backup.Prelude.{
  ℕ, ◌≡◌, ◌≢◌, refl, ap, ◌∙◌, String, false, Option, none, some, List, Bool-cases, inl, inr,
}
use rust_backup.Core.Error.{Outcome, success, failure}
use rust_backup.Core.Wire.{Codec}
use rust_backup.Transport.Proto.{ServerMsg, Output}
use rust_backup.Transport.Provider.{
  Point, entering, answering, serving, guarded, after_ok, serve_provider,
}
use rust_backup.Transport.Provider.Lifetime.{actor, Others, still, goes, check_free-registry}
use rust_backup.Transport.Server.{
  Registry, insert, remove, arrived, World, check_free, enter, leave, Step, checks, enters, leaves,
  Reachable,
}
use rust_backup.Transport.Server.Ownership.{registry_owner}
use rust_backup.Transport.Serving.{Event}

insert_here : (k : String) (t : ℕ) (reg : Registry) → insert k t reg k ≡ some t
unfolding insert
insert_here k t reg = rw ((eq_iff k k).1 refl) refl

remove_here : (k : String) (reg : Registry) → remove k reg k ≡ none
unfolding remove
remove_here k reg = rw ((eq_iff k k).1 refl) refl

insert_there :
    (k j : String) (t : ℕ) (reg : Registry) → str_eq k j ≡ false → insert k t reg j ≡ reg j
unfolding insert
insert_there k j t reg e = rw e refl

remove_there : (k j : String) (reg : Registry) → str_eq k j ≡ false → remove k reg j ≡ reg j
unfolding remove
remove_there k j reg e = rw e refl

-- What the registry has for the channel of connection `t`, by what its call has returned.
abbrev pub held : ℕ → Option (Outcome (Unit {0})) → Option ℕ
held t none = some t
held t (some r) = none

module _ (channel : ℕ → String) (t : ℕ) (alone : (u : ℕ) → channel u ≡ channel t → u ≡ t) where
  other_channel : (u : ℕ) → u ≢ t → str_eq (channel u) (channel t) ≡ false
  other_channel u other = elim (Bool-cases (str_eq (channel u) (channel t))) [
    | inl e ↦ absurd (other (alone u ((eq_iff (channel u) (channel t)).0 e)))
    | inr e ↦ e
  ]

  Step-registry :
      {w w' : World} (s : Step channel w w')
      → actor channel s ≢ t
      → w'.registry (channel t) ≡ w.registry (channel t)
  unfolding enter leave
  Step-registry (checks u w at) other =
      ap (λ reg. reg (channel t)) (check_free-registry channel u w)
  Step-registry (enters u w at) other =
      insert_there (channel u) (channel t) u w.registry (other_channel u other)
  Step-registry (leaves u w at) other =
      remove_there (channel u) (channel t) w.registry (other_channel u other)

  Others-registry :
      {w w' : World} → Others channel t w w' → w'.registry (channel t) ≡ w.registry (channel t)
  Others-registry still = refl
  Others-registry (goes before s other) = Step-registry s other ∙ Others-registry before

  -- Nobody has the channel before its connection has come.
  free_before :
      (w : World) → Reachable channel w → w.stage t ≡ arrived → w.registry (channel t) ≡ none
  free_before w reached at = from (w.registry (channel t)) refl
    where
      from : (o : Option ℕ) → w.registry (channel t) ≡ o → w.registry (channel t) ≡ none
      from none e = e
      from (some u) e =
          let (there, named) = registry_owner channel w (channel t) u reached e in
          absurd (cc (alone u named))

  module _ (out : Output) {Uuid : Type 0} (server : Codec (ServerMsg Uuid))
      (others : Point → World → World) (es : List (Event ⊥))
      (meanwhile : (p : Point) (w : World) → Others channel t w (others p w)) where
    guarded-held :
        (r : Option (Outcome (Unit {0}))) (w : World)
        → w.registry (channel t) ≡ some t
        → (guarded out server channel others t r w).registry (channel t) ≡ held t r
    unfolding leave
    guarded-held none w has = has
    guarded-held (some r) w has = remove_here (channel t) w.registry

    after_ok-held :
        (w : World) (r : Outcome (Unit {0}) × out.State)
        → w.registry (channel t) ≡ some t
        → (after_ok out server channel others t es w r).world.registry (channel t)
          ≡ held t (after_ok out server channel others t es w r).result
    after_ok-held w (failure e, s) has = guarded-held (some (failure e)) w has
    after_ok-held w (success _, s) has =
        guarded-held _ (others serving w) (Others-registry (meanwhile serving w) ∙ has)

    -- A provider that shares its channel with no other connection is registered exactly as long as it is
    -- served: whatever the others do meanwhile, by steps of their own, the registry names it for its
    -- channel while its call goes on, and has nothing there once the call has returned.
    pub serve_provider-registered :
        (w : World) (s : out.State)
        → Reachable channel w
        → w.stage t ≡ arrived
        → (serve_provider out server channel others t es w s).world.registry (channel t)
          ≡ held t (serve_provider out server channel others t es w s).result
    unfolding serve_provider enter
    serve_provider-registered w s reached at =
        let w1 = others entering (check_free channel t w) in
        let w2 = enter channel t w1 in
        rw (free_before w reached at) (
          after_ok-held (others answering w2) _
            (Others-registry (meanwhile answering w2) ∙ insert_here (channel t) t w1.registry))
