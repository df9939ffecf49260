-- ===== src/Transport/Admission/Registering.antt =====
-- A client of crates/rb-transport/src/client.rs against `handle_conn` of server.rs: each reads what the
-- other writes.
use rust_backup.Prelude.{
  ◌≡◌, refl, ap, ◌∙◌, String, Bool, true, false, Option, none, some, [], ◌∷◌, ◌++◌,
}
use rust_backup.Core.Anyhow.{give, resume, ◌>>◌}
use rust_backup.Core.Error.{ok, success, failure}
use rust_backup.Core.Wire.{Bytes, Codec, coded, refused}
use rust_backup.Transport.Proto.{
  ClientMsg, register, ServerMsg, challenge, accepted, Output, Delimited, send_msg, send,
}
use rust_backup.Transport.Proto.Steps.{
  Holds, IsOpen, Carries, Spoke, send_msg-Spoke, recv_msg-Spoke,
}
use rust_backup.Transport.Auth.{Crypto, Authenticator, server_handshake}
use rust_backup.Transport.Client.{introduce}
use rust_backup.Transport.Client.Introducing.{introduce_accepted}
use rust_backup.Transport.Admission.{
  admit, authenticate_first, handle_conn, greet, greet_provider, serve_conn,
}

module _ (out : Output) (O : IsOpen out) {Uuid : Type 0} (crypto : Crypto Uuid)
    (client : Codec ClientMsg) (server : Codec (ServerMsg Uuid)) where
  -- A connection that registers for a free channel is told that it serves.
  serve_conn-Spoke :
      (c : Uuid) (channel : String) (taken : String → Bool) (first okay rest : Bytes)
      (d : Delimited out)
      → Carries client (register channel) first
      → server.to_vec accepted ≡ coded okay
      → taken channel ≡ false
      → Holds d.incoming (first ++ (0 ∷ rest))
      → Spoke out O
          (serve_conn out crypto client server none c taken d)
          true
          rest
          (O.sent d.inner ++ (okay ++ (0 ∷ [])))
  unfolding serve_conn handle_conn
  serve_conn-Spoke c channel taken first okay rest d f o free h =
      let one = recv_msg-Spoke out O client (register channel) first rest d f h in
      let two = send_msg-Spoke out O server accepted okay rest one.last o one.holds in
      record {
        last = two.last;
        result =
            ap
              (λ r. resume (greet out crypto client server taken) (
                resume
                  (λ first.
                    authenticate_first out crypto client server none c >> give (admit first))
                  r))
              one.result
            ∙ ap (λ b. greet_provider out crypto client server b one.last) free
            ∙ ap (resume (λ _. give true)) two.result;
        holds = two.holds;
        says = two.says ∙ ap (λ x. x ++ (okay ++ (0 ∷ []))) one.says;
      }

  -- A client without a secret registers a channel that is free, on a server without one, over healthy
  -- streams on which each side reads what the other writes. If JSON carries the registration and the
  -- acceptance, then the client has its channel, the server serves it, and each has written just what
  -- the other had to read.
  pub registration_completes :
      (debug : Option (ServerMsg Uuid) → String) (channel : String) (c : Uuid)
      (taken : String → Bool) (first okay : Bytes) (d d' : Delimited out)
      → Carries client (register channel) first
      → Carries server accepted okay
      → taken channel ≡ false
      → O.sent d.inner ≡ []
      → O.sent d'.inner ≡ []
      → Holds d.incoming (first ++ (0 ∷ []))
      → Holds d'.incoming (okay ++ (0 ∷ []))
      → ((serve_conn out crypto client server none c taken d).0 ≡ success true)
        × ((introduce out crypto client server debug "send register: " (register channel) none d').0
            ≡ ok tt)
        × (O.sent (serve_conn out crypto client server none c taken d).1.inner ≡ okay ++ (0 ∷ []))
        × (O.sent
              (introduce out crypto client server debug "send register: "
                (register channel)
                none
                d').1.inner
            ≡ first ++ (0 ∷ []))
  registration_completes debug channel c taken first okay d d' f o free new_d new_d' h h' =
      let s = serve_conn-Spoke c channel taken first okay [] d f o.written free h in
      let (last, ran, said) =
        introduce_accepted out O crypto client server debug "send register: " (register channel)
          first okay [] d' f.written o h' in
      (
        ap (λ r. r.0) s.result,
        ap (λ r. r.0) ran,
        rw s.result (s.says ∙ ap (λ x. x ++ (okay ++ (0 ∷ []))) new_d),
        rw ran (said ∙ ap (λ x. x ++ (first ++ (0 ∷ []))) new_d'),
      )

  -- If JSON cannot write the challenge, a server with a secret lets nobody in: whatever message comes
  -- first, the connection ends with the codec's error, and nothing has been written.
  pub unwritable_challenge :
      (a : Authenticator crypto) (c : Uuid) (taken : String → Bool) (msg : ClientMsg) (e : String)
      (first rest : Bytes) (d : Delimited out)
      → server.to_vec (challenge c) ≡ refused e
      → Carries client msg first
      → Holds d.incoming (first ++ (0 ∷ rest))
      → ((serve_conn out crypto client server (some a) c taken d).0 ≡ failure e)
        × (O.sent (serve_conn out crypto client server (some a) c taken d).1.inner ≡ O.sent d.inner)
  unfolding serve_conn handle_conn server_handshake send_msg send
  unwritable_challenge a c taken msg e first rest d no_json f h =
      let one = recv_msg-Spoke out O client msg first rest d f h in
      let ran : serve_conn out crypto client server (some a) c taken d ≡ (failure e, one.last) =
        ap
          (λ r. resume (greet out crypto client server taken) (
            resume
              (λ first.
                authenticate_first out crypto client server (some a) c >> give (admit first))
              r))
          one.result
        ∙ rw no_json refl in
      (ap (λ r. r.0) ran, rw ran one.says)
