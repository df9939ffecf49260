-- ===== src/Transport/Listener/Guarded.antt =====
-- The connections of a server with a secret, in crates/rb-transport/src/server.rs.
use rust_backup.Prelude.{
  ◌≡◌, refl, ap, sym, ◌∙◌, String, Bool, true, false, Option, none, some, List, [], ◌∷◌,
}
use mathlib.Core.Option
use rust_backup.Core.Config.{ServerConfig}
use rust_backup.Core.Error.{Outcome, success, failure}
use rust_backup.Core.Wire.{Codec}
use rust_backup.Transport.Admission.{serve_conn}
use rust_backup.Transport.Admission.Authenticated.{Admitted, serve_conn-Admitted}
use rust_backup.Transport.Auth.{Crypto, Authenticator, new}
use rust_backup.Transport.Listener.{
  Spawned, accept_loop, listen_address, authenticator, on_listener, run_server, serve_control,
  serve_spawned,
}
use rust_backup.Transport.Proto.{ClientMsg, ServerMsg, Output, Delimited}
use rust_backup.Transport.Tuning.{TcpStream, tune_tcp}

module _ (Tcp : TcpStream) (out : Output) {Uuid : Type 0} (crypto : Crypto Uuid) where
  -- One of the connections.
  pub data Among (s : Spawned Tcp out crypto) : List (Spawned Tcp out crypto) → Type 0 where
    first : (ss : List (Spawned Tcp out crypto)) → Among s (s ∷ ss)
    later :
        (t : Spawned Tcp out crypto) {ss : List (Spawned Tcp out crypto)}
        → Among s ss
        → Among s (t ∷ ss)

  accept_loop-auth :
      (auth : Option (Authenticator crypto)) (arrivals : List (Outcome Tcp.State))
      (s : Spawned Tcp out crypto) (ss : List (Spawned Tcp out crypto))
      → accept_loop Tcp out crypto auth arrivals ≡ ss
      → Among s ss
      → s.auth ≡ auth
  unfolding accept_loop
  accept_loop-auth auth [] s _ h (first ss) = absurd (cc)
  accept_loop-auth auth [] s _ h (later t m) = absurd (cc)
  accept_loop-auth auth (failure e ∷ arrivals) s ss h m = accept_loop-auth auth arrivals s ss h m
  accept_loop-auth auth (success socket ∷ arrivals) s _ h (first ss) =
      let e : record { socket = tune_tcp Tcp socket; auth = auth } ≡ s = cc in
      ap (λ s. s.auth) (sym e)
  accept_loop-auth auth (success socket ∷ arrivals) s _ h (later t {ss} m) =
      let e : accept_loop Tcp out crypto auth arrivals ≡ ss = cc in
      accept_loop-auth auth arrivals s ss e m

  run_server-auth :
      (bind : String → Outcome (Unit {0})) (cfg : ServerConfig)
      (arrivals : List (Outcome Tcp.State)) (ss : List (Spawned Tcp out crypto))
      (s : Spawned Tcp out crypto) (r : Outcome (Unit {0}))
      → on_listener Tcp out crypto cfg arrivals r ≡ success ss
      → Among s ss
      → s.auth ≡ authenticator Tcp out crypto cfg
  run_server-auth bind cfg arrivals ss s (failure e) h m = absurd (cc)
  run_server-auth bind cfg arrivals ss s (success _) h m =
      let e : accept_loop Tcp out crypto (authenticator Tcp out crypto cfg) arrivals ≡ ss = cc in
      accept_loop-auth (authenticator Tcp out crypto cfg) arrivals s ss e m

  module _ (client : Codec ClientMsg) (server : Codec (ServerMsg Uuid))
      (control : Tcp.State → Option (Delimited out)) where
    -- A connection that is served, and what it has shown.
    pub record Guarded (a : Authenticator crypto) (c : Uuid) (taken : String → Bool)
        (given last : Option (Delimited out)) : Type 0 where
      pub opened : Delimited out
      pub ended : Delimited out
      pub control_is : given ≡ some opened
      pub last_is : last ≡ some ended
      pub admitted : Admitted out crypto client server a c taken opened ended

    serve_control-Guarded :
        (a : Authenticator crypto) (c : Uuid) (taken : String → Bool)
        (given last : Option (Delimited out))
        → serve_control Tcp out crypto client server control (some a) c taken given
          ≡ (success true, last)
        → Guarded a c taken given last
    serve_control-Guarded a c taken none last h =
        absurd (let bad : success false ≡ success true = ap (λ r. r.0) h in cc)
    serve_control-Guarded a c taken (some d) last h =
        let ran = serve_conn out crypto client server (some a) c taken d in
        record {
          opened = d;
          ended = ran.1;
          control_is = refl;
          last_is = sym (ap (λ r. r.1) h);
          admitted =
              serve_conn-Admitted out crypto client server a c taken d ran.1
                (ap (λ b. (b, ran.1)) (ap (λ r. r.0) h));
        }

    -- Every connection that a server with a secret serves, however many there are and whichever accepts
    -- fail, has opened a control stream and shown on it that it knows the secret: behind its first message
    -- it was sent its challenge, and the next message from it was a tag that is valid for this challenge
    -- and the key of the secret. Nothing is assumed of the peer, the stream or the codecs.
    pub run_server-Guarded :
        (bind : String → Outcome (Unit {0})) (cfg : ServerConfig) (secret : String)
        (arrivals : List (Outcome Tcp.State)) (ss : List (Spawned Tcp out crypto))
        (s : Spawned Tcp out crypto) (c : Uuid) (taken : String → Bool)
        (last : Option (Delimited out))
        → cfg.secret ≡ some secret
        → run_server Tcp out crypto bind cfg arrivals ≡ success ss
        → Among s ss
        → serve_spawned Tcp out crypto client server control s c taken ≡ (success true, last)
        → Guarded (new crypto secret) c taken (control s.socket) last
    unfolding run_server serve_spawned
    run_server-Guarded bind cfg secret arrivals ss s c taken last given ran m served =
        let auth =
          run_server-auth bind cfg arrivals ss s (bind (listen_address Tcp out crypto cfg)) ran m in
        let key : s.auth ≡ some (new crypto secret) = auth ∙ ap (Option.map (new crypto)) given in
        serve_control-Guarded (new crypto secret) c taken (control s.socket) last (
          ap (λ x. serve_control Tcp out crypto client server control x c taken (control s.socket))
            (sym key)
          ∙ served)
