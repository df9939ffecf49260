-- ===== src/Transport/Handler/Untouched.antt =====
-- What a peer that does not show the secret can do to a server of crates/rb-transport/src/server.rs.
use rust_backup.Prelude.{ℕ, ◌≡◌, refl, ◌⊎◌, inl, inr, Option, none, some, List, []}
use rust_backup.Core.Error.{Outcome, success, failure}
use rust_backup.Core.Wire.{Codec}
use rust_backup.Transport.Admission.{Admission, handle_conn}
use rust_backup.Transport.Admission.Authenticated.{Vetted, handle_conn-Vetted}
use rust_backup.Transport.Auth.{Crypto, Authenticator}
use rust_backup.Transport.Consumer.{Turn}
use rust_backup.Transport.Handler.{Handled, dispatch, handle}
use rust_backup.Transport.Proto.{ClientMsg, ServerMsg, Output, Delimited}
use rust_backup.Transport.Provider.{Point}
use rust_backup.Transport.Relay.{Relays}
use rust_backup.Transport.Server.{World}
use rust_backup.Transport.Serving.{Event}

-- A handler that has returned and has left no trace on what the server shares.
pub record LeftAlone (h : Handled) (w : World) (r : Relays) : Type 0 where
  pub outcome : Outcome (Unit {0})
  pub over : h.result ≡ some outcome
  pub same_world : h.world ≡ w
  pub same_permits : h.relays ≡ r
  pub no_relay : h.relayed ≡ []

module _ (out : Output) {Uuid : Type 0} (crypto : Crypto Uuid) (client : Codec ClientMsg)
    (server : Codec (ServerMsg Uuid)) (others : Point → World → World) (messages : List (Event ⊥))
    (turns : List Turn) (a : Authenticator crypto) (c : Uuid) where
  -- A connection that has shown a tag that is valid for its challenge, on its control stream.
  pub record Shown (control : Option (Delimited out)) : Type 0 where
    pub opened : Delimited out
    pub ended : Delimited out
    pub admission : Admission
    pub control_is : control ≡ some opened
    pub vetted : Vetted out crypto client server a c admission opened ended

  dispatch-Shown :
      (t : ℕ) (w : World) (r : Relays) (d : Delimited out) (m : Outcome Admission × Delimited out)
      → handle_conn out crypto client server (some a) c d ≡ m
      → Shown (some d)
        ⊎ LeftAlone (dispatch out crypto client server others messages turns t w r m) w r
  dispatch-Shown t w r d (failure e, last) h = inr (record {
    outcome = failure e;
    over = refl;
    same_world = refl;
    same_permits = refl;
    no_relay = refl;
  })
  dispatch-Shown t w r d (success admission, last) h = inl (record {
    opened = d;
    ended = last;
    admission = admission;
    control_is = refl;
    vetted = handle_conn-Vetted out crypto client server a c admission d last h;
  })

  -- On a server with a secret, every connection either has shown a tag that is valid for its challenge and
  -- the key of the secret, as the message next to the challenge, or its handler has returned and has left
  -- the registry, the permits and the relays exactly as they were. Nothing is assumed of the peer, the
  -- stream, the codecs and the events.
  pub handle-Untouched :
      (t : ℕ) (w : World) (r : Relays) (control : Option (Delimited out))
      → Shown control
        ⊎ LeftAlone
            (handle out crypto client server others messages turns (some a) c t w r control)
            w
            r
  unfolding handle
  handle-Untouched t w r none = inr (record {
    outcome = success tt;
    over = refl;
    same_world = refl;
    same_permits = refl;
    no_relay = refl;
  })
  handle-Untouched t w r (some d) =
      dispatch-Shown t w r d (handle_conn out crypto client server (some a) c d) refl
