-- ===== src/Transport/Consumer/Bounded.antt =====
-- The permits that a consumer of crates/rb-transport/src/server.rs takes, among all relays of the server.
use rust_backup.Prelude.{
  ℕ, zero, suc, ◌+◌, ◌≡◌, refl, sym, ap, ◌∙◌, append-nil, append_assoc, ltb, lt→ltb, ltb-false,
  if◌then◌else◌, arith, Bool, true, false, Option, none, some, List, [], ◌∷◌, ◌++◌, All, length,
}
use rust_backup.Core.Error.{Outcome, success, failure}
use rust_backup.Core.Wire.{Codec}
use rust_backup.Transport.Consumer.{
  Happening, ticks, hears, comes, has_permit, as_event, acquire, Turn, Consuming, consumer_turn,
  after_ok, serve_consumer,
}
use rust_backup.Transport.Proto.{ServerMsg, accepted, Output, send}
use rust_backup.Transport.Relay.{Relays, Move, arrives, Running, moved}
use rust_backup.Transport.Relay.Permits.{counts}
use rust_backup.Transport.Serving.{go_on, looped, Serving, on_inbound, turn}

-- Moves of the relays of a server, one after another.
pub data Moves (r : Relays) : Relays → Type 0 where
  rests : Moves r r
  moves : {r' r'' : Relays} → Moves r r' → Move r' r'' → Moves r r''

pub Running-Moves :
    {max_conns : ℕ} {r r' : Relays} → Running max_conns r → Moves r r' → Running max_conns r'
Running-Moves run rests = run
Running-Moves run (moves before move) = moved (Running-Moves run before) move

abbrev pub Lawful : Turn → Type 0
Lawful (others, h) = (r : Relays) → Moves r (others r)

acquire-Running :
    {max_conns : ℕ} (h : Happening) (r : Relays)
    → Running max_conns r
    → Running max_conns (acquire h r)
acquire-Running ticks r run = run
acquire-Running (hears msg) r run = run
acquire-Running (comes none) r run = run
acquire-Running (comes (some t)) r run = moved run (arrives t r)

-- What a server that admits `max_conns` relays at once makes of an event: a relay for an inbound substream
-- when fewer run, and for a whole row what becomes a relay, in order.
abbrev pub won : ℕ → Happening → Relays → List ℕ
won max_conns (comes (some t)) r = if ltb (length r.active) max_conns then t ∷ [] else []
won max_conns _ r = []

abbrev pub granted : ℕ → List Turn → Relays → List ℕ
granted max_conns [] r = []
granted max_conns ((others, h) ∷ es) r =
    won max_conns h (others r) ++ granted max_conns es (acquire h (others r))

permit-eq :
    (max_conns available n : ℕ) → available + n ≡ max_conns → has_permit available ≡ ltb n max_conns
permit-eq max_conns zero n e = sym (ltb-false n max_conns (omega arith))
permit-eq max_conns (suc left) n e = sym (lt→ltb n max_conns (omega arith))

module _ (out : Output) {Uuid : Type 0} (server : Codec (ServerMsg Uuid)) (max_conns : ℕ) where
  abbrev relays_of : Option (Outcome (Unit {0})) × Consuming out server → Relays
  relays_of r = r.1.relays

  inbound-won :
      (r : Relays) (t : ℕ) (w : Serving out server ℕ) (permit : Bool)
      → permit ≡ ltb (length r.active) max_conns
      → (on_inbound out server ℕ (some t) permit w).1.relayed
        ≡ w.relayed ++ won max_conns (comes (some t)) r
  inbound-won r t w true e = rw (sym e) refl
  inbound-won r t w false e = rw (sym e, append-nil) refl

  turn-won :
      (h : Happening) (r : Relays) (w : Serving out server ℕ)
      → Running max_conns r
      → (turn out server ℕ (as_event r h) w).1.relayed ≡ w.relayed ++ won max_conns h r
  unfolding turn
  turn-won ticks r w run = sym (append-nil w.relayed)
  turn-won (hears msg) r w run = sym (append-nil w.relayed)
  turn-won (comes none) r w run = sym (append-nil w.relayed)
  turn-won (comes (some t)) r w run =
      inbound-won r t w (has_permit r.available)
        (permit-eq max_conns r.available (length r.active) (counts max_conns run))

  -- What a row leaves that has ended nothing.
  record Granted (es : List Turn) (c : Consuming out server)
      (last : Option (Outcome (Unit {0})) × Consuming out server) : Type 0 where
    bounded : Running max_conns last.1.relays
    relayed : last.1.serving.relayed ≡ c.serving.relayed ++ granted max_conns es c.relays

  abbrev next : Turn → Consuming out server → Consuming out server
  next e c = (consumer_turn out server e c).1

  -- One event, if neither it nor the row behind it ends the loop.
  behind-Granted :
      (e : Turn) (es : List Turn) (c : Consuming out server) (r : Option (Outcome (Unit {0})))
      → Running max_conns (e.0 c.relays)
      → ((looped (consumer_turn out server) es (next e c)).0 ≡ none
          → Granted es (next e c) (looped (consumer_turn out server) es (next e c)))
      → (go_on (looped (consumer_turn out server) es) (r, next e c)).0 ≡ none
      → Granted (e ∷ es) c (go_on (looped (consumer_turn out server) es) (r, next e c))
  behind-Granted e es c (some r) before rest ends = absurd (cc)
  behind-Granted (others, h) es c none before rest stays =
      let g = rest stays in
      record {
        bounded = g.bounded;
        relayed =
            g.relayed
            ∙ ap (λ x. x ++ granted max_conns es (acquire h (others c.relays)))
                (turn-won h (others c.relays) c.serving before)
            ∙ append_assoc c.serving.relayed (won max_conns h (others c.relays))
                (granted max_conns es (acquire h (others c.relays)));
      }

  looped-Granted :
      (es : List Turn) (c : Consuming out server)
      → Running max_conns c.relays
      → All Lawful es
      → (looped (consumer_turn out server) es c).0 ≡ none
      → Granted es c (looped (consumer_turn out server) es c)
  unfolding looped
  looped-Granted [] c run laws stays = record {
    bounded = run;
    relayed = sym (append-nil c.serving.relayed);
  }
  looped-Granted ((others, h) ∷ es) c run (law, laws) stays =
      let before = Running-Moves run (law c.relays) in
      behind-Granted (others, h) es c (consumer_turn out server (others, h) c).0 before
        (looped-Granted es (next (others, h) c) (acquire-Running h (others c.relays) before) laws)
        stays

  after_ok-Granted :
      (es : List Turn) (r : Relays) (s : Outcome (Unit {0}) × out.State)
      → Running max_conns r
      → All Lawful es
      → (after_ok out server es r s).0 ≡ none
      → Running max_conns (after_ok out server es r s).1.relays
        × ((after_ok out server es r s).1.serving.relayed ≡ granted max_conns es r)
  after_ok-Granted es r (failure e, s) run laws stays = absurd (cc)
  after_ok-Granted es r (success _, s) run laws stays =
      let g =
        looped-Granted es (record { serving = record { control = s; relayed = [] }; relays = r })
          run laws stays in
      (g.bounded, g.relayed)

  -- A consumer that shares the permits of the server with all others. Whatever relays start and end
  -- elsewhere before each of its events, as long as the consumer is served the server stays within what it
  -- can get to from its start with `max_conns` permits, and of the consumer's substreams exactly those have
  -- become relays, in order, that came when fewer than `max_conns` relays were running.
  pub serve_consumer-granted :
      (es : List Turn) (r : Relays) (s : out.State)
      → Running max_conns r
      → All Lawful es
      → (serve_consumer out server es r s).0 ≡ none
      → Running max_conns (serve_consumer out server es r s).1.relays
        × ((serve_consumer out server es r s).1.serving.relayed ≡ granted max_conns es r)
  unfolding serve_consumer
  serve_consumer-granted es r s run laws stays =
      after_ok-Granted es r (send server out accepted s) run laws stays
