-- ===== src/Transport/Unpaired.antt =====
-- A destination that comes when no source is registered for its channel: the registry and the relay of
-- crates/rb-transport/src/server.rs, `PairedChannel` of channel.rs, and `run_destination` of
-- crates/rb-core/src/session.rs.
use mathlib.Core.Option
use rust_backup.Prelude.{
  ℕ, ◌≡◌, ◌≢◌, refl, ap, ◌∙◌, String, ◌<>◌, Bool, Option, none, some, [], ◌∷◌, length, arith,
}
use rust_backup.Core.Error.{success, failure}
use rust_backup.Core.Plan.{BackupPlan}
use rust_backup.Core.Progress.{Progress}
use rust_backup.Core.Wire.{Bytes, Stream}
use rust_backup.Core.Wire.Reliable.{IsReliable}
use rust_backup.Core.Channel.{Counted}
use rust_backup.Core.Session.{Formats, Destination, run_destination}
use rust_backup.Core.Session.Opening.{no_plan, destination_unplanned}
use rust_backup.Transport.Paired.{
  stream_ready, Mux, destination, paired, open_stream, after_open, after_ready,
}
use rust_backup.Transport.Pool.{CarrierPool}
use rust_backup.Transport.Relay.{Driver, relay, behind_marker}
use rust_backup.Transport.Server.{World, registered, Reachable}
use rust_backup.Transport.Server.Ownership.{registry_owner}

-- What a registry has for a channel for which nobody is registered.
unregistered :
    (channel : ℕ → String) (w : World) (id : String)
    → Reachable channel w
    → ((t : ℕ) → w.stage t ≡ registered → channel t ≢ id)
    → w.registry id ≡ none
unregistered channel w id reached nobody = from (w.registry id) refl
  where
    from : (o : Option ℕ) → w.registry id ≡ o → w.registry id ≡ none
    from none e = e
    from (some t) e =
        let (at, named) = registry_owner channel w id t reached e in absurd (nobody t at named)

-- A relay without a provider has read the marker of the consumer and opened nothing.
module _ (T : Stream) (RT : IsReliable T) {Opener : Type 0} (D : Driver Opener) where
  relay_unpaired :
      (id : String) (s : T.State) (w : D.State) (marker : ℕ) (request : Bytes)
      → RT.pending s ≡ marker ∷ request
      → ((relay T D id none s w).joined ≡ failure ("no provider registered for '" <> id <> "'"))
        × ((relay T D id none s w).driver ≡ w)
  unfolding relay
  relay_unpaired id s w marker request p =
      let enough = ap length p in
      let (t, e, _, _) = RT.read_exact_all 1 s (omega arith) in
      let ran = ap (behind_marker T D id w none) e in
      (ap (λ r. r.joined) ran, ap (λ r. r.driver) ran)

module _ {V : Type 0} (fmt : Formats V)
    -- the substream at the destination, and its driver
    (S : Stream) (R : IsReliable S) {C : Type 0} (mux : Mux S C)
    -- the consumer's substream at the server, and the driver of the providers'
    (T : Stream) (RT : IsReliable T) {Opener : Type 0} (D : Driver Opener) where
  -- A destination that comes before its source. If no connection is registered for the channel `id` in a
  -- world that the server can get to, the relay of a substream that a consumer opens for `id` fails and
  -- opens nothing. If the server then drops this substream, so that the destination has nothing to read,
  -- the run of the destination fails for want of a plan; it does not wait for the source, and backend and
  -- policy are as they were.
  pub destination_first :
      (channel : ℕ → String) (pools : ℕ → CarrierPool Opener) (w : World) (id : String)
      (consumer : T.State) (idle : D.State) (marker : ℕ) (request : Bytes) (B : Type 0)
      (dest : Destination V B) {P : Type 0} (accept : BackupPlan V → P → Bool × P)
      (progress : Progress) (b : B) (k k1 : C) (q : P) (opened marked : S.State)
      → Reachable channel w
      → ((t : ℕ) → w.stage t ≡ registered → channel t ≢ id)
      → RT.pending consumer ≡ marker ∷ request
      → mux.open_next k ≡ (success opened, k1)
      → mux.write_all (stream_ready ∷ []) opened ≡ (none, marked)
      → ((e : String)
          → (relay T D id (Option.map pools (w.registry id)) consumer idle).joined ≡ failure e
          → R.pending marked ≡ [])
      → ((relay T D id (Option.map pools (w.registry id)) consumer idle).joined
          ≡ failure ("no provider registered for '" <> id <> "'"))
        × ((relay T D id (Option.map pools (w.registry id)) consumer idle).driver ≡ idle)
        × (l : Counted S) × (run_destination S fmt B dest accept
              (paired S C mux destination)
              progress
              b
              k
              q
            ≡ record {
              run = record { result = no_plan fmt; backend = b; chan = k1; link = some l };
              policy = q;
            })
  unfolding open_stream
  destination_first channel pools w id consumer idle marker request B dest accept progress b k k1 q
        opened marked reached nobody begins opens marks dropped =
      let absent = ap (Option.map pools) (unregistered channel w id reached nobody) in
      let (refused, untouched) = relay_unpaired T RT D id consumer idle marker request begins in
      let turned_away = ap (λ pool. (relay T D id pool consumer idle).joined) absent ∙ refused in
      let (l, ran) =
        destination_unplanned S R fmt B dest accept (paired S C mux destination) progress b k k1 q
          marked (ap (after_open S C mux) opens ∙ ap (after_ready S C mux k1) marks)
          (dropped ("no provider registered for '" <> id <> "'") turned_away) in
      (
        turned_away,
        ap (λ pool. (relay T D id pool consumer idle).driver) absent ∙ untouched,
        l,
        ran,
      )
