-- ===== src/Transport/Tests/Handlers.antt =====
-- The whole handlers of crates/rb-transport/src/server.rs at concrete data.
use text.Mathlib.TextEquality.{eq_iff}
use rust_backup.Prelude.{
  ℕ, ◌≡◌, ◌≢◌, refl, ◌⊎◌, String, none, some, List, [], ◌∷◌, ◌==◌, if◌then◌else◌, arith,
}
use rust_backup.Core.Error.{success}
use rust_backup.Transport.Auth.{Authenticator}
use rust_backup.Transport.Consumer.{Turn, comes, ticks, serve_consumer}
use rust_backup.Transport.Consumer.Bounded.{rests, serve_consumer-granted}
use rust_backup.Transport.Handler.{handle}
use rust_backup.Transport.Handler.Untouched.{Shown, LeftAlone, handle-Untouched}
use rust_backup.Transport.Proto.{heartbeat, send}
use rust_backup.Transport.Provider.{serve_provider}
use rust_backup.Transport.Provider.Alone.{serve_provider-registered}
use rust_backup.Transport.Provider.Lifetime.{still, serve_provider-gone}
use rust_backup.Transport.Relay.{idle, inbound, started}
use rust_backup.Transport.Samples as Memory
use rust_backup.Transport.Server as Server
use rust_backup.Transport.Server.{start, check_free, after_check, enter}
use rust_backup.Transport.Serving.{Event, tick, message, serve_loop, looped, turn}

abbrev home : ℕ → String
home t = if t == 0 then "nightly" else "weekly"

home_alone : (u : ℕ) → home u ≡ "nightly" → u ≡ 0
home_alone u h = ground (arith, eq_iff "weekly" "nightly")

-- A tick, a message, and then the peer hangs up.
abbrev night : List (Event ⊥)
night = tick ∷ message (success (some heartbeat)) ∷ message (success none) ∷ []

hung_up :
    (serve_provider Memory.memory Memory.server home (λ p w. w) 0 night Server.started []).result
    ≡ some (success tt)
unfolding serve_provider send serve_loop looped turn
hung_up = refl

serve_provider-gone_example :
    Server.Reachable home
      (serve_provider Memory.memory Memory.server home (λ p w. w) 0 night Server.started []).world
    × ((serve_provider Memory.memory Memory.server home
            (λ p w. w)
            0
            night
            Server.started
            []).world.registry
          "nightly"
        ≢ some 0)
serve_provider-gone_example =
    serve_provider-gone home Memory.memory Memory.server (λ p w. w) 0 night (λ p w. still)
      Server.started [] (success tt) "nightly" start refl hung_up

-- The same as long as the peer is there.
serve_provider-registered_example :
    (serve_provider Memory.memory Memory.server home
        (λ p w. w)
        0
        (tick ∷ [])
        Server.started
        []).world.registry
      "nightly"
    ≡ some 0
unfolding serve_provider send serve_loop looped turn
serve_provider-registered_example =
    serve_provider-registered home 0 home_alone Memory.memory Memory.server (λ p w. w) (tick ∷ [])
      (λ p w. still) Server.started [] start refl

-- Two substreams on a server with one permit.
abbrev crowd : List Turn
crowd = ((λ r. r), comes (some 4)) ∷ ((λ r. r), ticks) ∷ ((λ r. r), comes (some 5)) ∷ []

serve_consumer-granted_example :
    (serve_consumer Memory.memory Memory.server crowd (idle 1) []).1.serving.relayed ≡ 4 ∷ []
unfolding serve_consumer send looped turn inbound
serve_consumer-granted_example =
    (serve_consumer-granted Memory.memory Memory.server 1 crowd (idle 1) [] started
      ((λ r. rests), ((λ r. rests), ((λ r. rests), tt))) refl).1

-- A peer that registers and answers the challenge with a tag.
abbrev key : Authenticator Memory.crypto
key = record { key = 3 ∷ [] }

handle-Untouched_example :
    Shown Memory.memory Memory.crypto
      (Memory.client "110")
      Memory.server
      (λ p w. w)
      night
      crowd
      key
      tt
      (some (Memory.hears 1 (0 ∷ 3 ∷ 0 ∷ [])))
    ⊎ LeftAlone
        (handle Memory.memory Memory.crypto
          (Memory.client "110")
          Memory.server
          (λ p w. w)
          night
          crowd
          (some key)
          tt
          0
          Server.started
          (idle 1)
          (some (Memory.hears 1 (0 ∷ 3 ∷ 0 ∷ []))))
        Server.started
        (idle 1)
handle-Untouched_example =
    handle-Untouched Memory.memory Memory.crypto (Memory.client "110") Memory.server (λ p w. w)
      night crowd key tt 0 Server.started (idle 1) (some (Memory.hears 1 (0 ∷ 3 ∷ 0 ∷ [])))
