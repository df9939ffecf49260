-- ===== src/Transport/Tests/Guards.antt =====
-- The connections and the pools of the server of crates/rb-transport/src/server.rs at concrete data.
use rust_backup.Prelude.{ℕ, ◌≡◌, refl, ◌⊎◌, String, true, false, Option, some, List, [], ◌∷◌}
use rust_backup.Core.Config.{ServerConfig, default_server}
use rust_backup.Core.Error.{Outcome, success, failure}
use rust_backup.Transport.Admission.{handle_conn, serve_conn}
use rust_backup.Transport.Auth.{new, validate, same_bytes, server_handshake}
use rust_backup.Transport.Listener.{Spawned, run_server, accept_loop, serve_spawned}
use rust_backup.Transport.Listener.Guarded.{first, Guarded, run_server-Guarded}
use rust_backup.Transport.Pool as Pool
use rust_backup.Transport.Pool.{retain, pick}
use rust_backup.Transport.Proto.{Delimited, split_null, recv, send, send_msg, recv_msg}
use rust_backup.Transport.Samples as Memory
use rust_backup.Transport.Tuning.{TcpStream, tune_tcp}
use rust_backup.Transport.Server.{
  cleared, registered, gone, Reachable, check_free, after_check, move, enter, insert,
}
use rust_backup.Transport.Server.Pools.{
  Pools, at_start, update, enter_pool, look_up, take_opener, checks_free, enters_pool, looks_up,
  takes, Ran, began, went,
}
use rust_backup.Transport.Server.Pools.Isolation.{relays_isolated}
use rust_backup.Transport.Server.Pools.Service.{relay_served}

abbrev guarded : ServerConfig
guarded = record default_server { secret = some "secret" }

-- A failed accept, and then a provider with the right tag.
abbrev caller : Delimited Memory.memory
caller = Memory.hears 1 (0 ∷ 3 ∷ 0 ∷ [])

-- A socket is what the peer opens on it, and takes no options.
abbrev stubborn : TcpStream
stubborn = record {
  State = Option (Delimited Memory.memory);
  set_nodelay = λ b s. (some "not supported", s);
  set_tcp_keepalive = λ time interval s. (some "not supported", s);
}

abbrev arrivals : List (Outcome (Option (Delimited Memory.memory)))
arrivals = failure "too many open files" ∷ success (some caller) ∷ []

abbrev spawned : Spawned stubborn Memory.memory Memory.crypto
spawned = record { socket = some caller; auth = some (new Memory.crypto "secret") }

abbrev after_serving : Option (Delimited Memory.memory)
after_serving =
    (serve_spawned stubborn Memory.memory Memory.crypto (Memory.client "110") Memory.server (λ s. s)
      spawned tt (λ channel. false)).1

one_spawned :
    run_server stubborn Memory.memory Memory.crypto (λ address. success tt) guarded arrivals
    ≡ success (spawned ∷ [])
unfolding run_server accept_loop tune_tcp
one_spawned = refl

served :
    serve_spawned stubborn Memory.memory Memory.crypto
      (Memory.client "110")
      Memory.server
      (λ s. s)
      spawned
      tt
      (λ channel. false)
    ≡ (success true, after_serving)
unfolding serve_spawned serve_conn handle_conn server_handshake new validate same_bytes send_msg
    recv_msg send recv split_null Memory.decode
served = refl

run_server-Guarded_example :
    Guarded stubborn Memory.memory Memory.crypto
      (Memory.client "110")
      Memory.server
      (λ s. s)
      (new Memory.crypto "secret")
      tt
      (λ channel. false)
      (some caller)
      after_serving
run_server-Guarded_example =
    run_server-Guarded stubborn Memory.memory Memory.crypto (Memory.client "110") Memory.server
      (λ s. s) (λ address. success tt) guarded "secret" arrivals (spawned ∷ []) spawned tt
      (λ channel. false) after_serving refl one_spawned (first []) served

-- Connection 3 registers, and relay 0 asks for its channel and takes an opener.
abbrev nightly : ℕ → String
nightly t = "nightly"

abbrev checked : Pools
checked = record at_start { world = check_free nightly 3 at_start.world }

abbrev entered : Pools
entered = enter_pool nightly nightly 3 checked

abbrev relayed : Pools
relayed = take_opener nightly nightly 0 3 (look_up nightly nightly 0 entered)

is_cleared : checked.world.stage 3 ≡ cleared
unfolding check_free after_check move
is_cleared = refl

has_looked : (look_up nightly nightly 0 entered).held 0 ≡ some 3
unfolding check_free after_check move enter_pool enter insert look_up update
has_looked = refl

was_given : relayed.given 0 ≡ some 3
unfolding check_free after_check move enter_pool enter insert look_up update take_opener Pool.new
    retain pick
was_given = refl

looked-Ran : Ran nightly nightly (look_up nightly nightly 0 entered)
looked-Ran =
    went (went (went began (checks_free 3 at_start refl)) (enters_pool 3 checked is_cleared))
      (looks_up 0 entered)

relay_served_example :
    (relayed.given 0 ≡ some 3) × (nightly 3 ≡ nightly 0) × Ran nightly nightly relayed
relay_served_example =
    relay_served nightly nightly (look_up nightly nightly 0 entered) 0 3 looked-Ran has_looked

relays_isolated_example :
    Reachable nightly relayed.world
    × (nightly 3 ≡ nightly 0)
    × ((relayed.world.stage 3 ≡ registered) ⊎ (relayed.world.stage 3 ≡ gone))
relays_isolated_example =
    relays_isolated nightly nightly relayed 0 3
      (went looked-Ran (takes 0 3 (look_up nightly nightly 0 entered) has_looked)) was_given
