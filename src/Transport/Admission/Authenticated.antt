-- ===== src/Transport/Admission/Authenticated.antt =====
-- Whom `handle_conn` of crates/rb-transport/src/server.rs lets in, on a server with a secret and whatever
-- the peer sends.
use rust_backup.Prelude.{
  ◌≡◌, refl, ap, sym, ◌∙◌, subst, ◌⊎◌, inl, inr, String, Bool, true, false, Option, none, some,
  Bool-cases,
}
use rust_backup.Core.Anyhow.{Call, resume, ◌>>=◌, ◌>>◌, give}
use rust_backup.Core.Error.{Outcome, success, failure}
use rust_backup.Core.Wire.{Codec}
use rust_backup.Transport.Proto.{
  ClientMsg, authenticate, register, connect, heartbeat, ServerMsg, challenge, accepted, error,
  Output, Delimited, send_msg, recv_msg,
}
use rust_backup.Transport.Auth.{Crypto, Authenticator, validate, judge, server_handshake}
use rust_backup.Transport.Admission.{
  Admission, admit, authenticate_first, handle_conn, greet_provider, greet, serve_conn,
}

-- A successful chain: its first part succeeded, and the rest ran from there.
resume-eq-success :
    {S A B : Type 0} (f : A → Call S B) (r : Outcome A × S) {b : B} {s : S}
    → resume f r ≡ (success b, s)
    → (a : A) × (t : S) × (r ≡ (success a, t)) × (f a t ≡ (success b, s))
resume-eq-success f (success a, t) h = (a, t, refl, h)
resume-eq-success f (failure e, t) h = absurd (cc)

module _ (out : Output) {Uuid : Type 0} (crypto : Crypto Uuid) (client : Codec ClientMsg)
    (server : Codec (ServerMsg Uuid)) (a : Authenticator crypto) (c : Uuid) where
  -- A handshake that succeeded: the challenge went out, and the next message was a tag that is valid.
  pub record Proved (d last : Delimited out) : Type 0 where
    pub tag : String
    pub asked : Delimited out
    pub sent : send_msg out server (challenge c) d ≡ (success tt, asked)
    pub answered : recv_msg out client asked ≡ (success (some (authenticate tag)), last)
    pub valid : validate crypto a c tag ≡ true

  judge-valid :
      (msg : Option ClientMsg) (d last : Delimited out)
      → judge crypto out client server a c msg d ≡ (success tt, last)
      → (tag : String) × (msg ≡ some (authenticate tag))
        × (validate crypto a c tag ≡ true)
        × (d ≡ last)
  judge-valid (some (authenticate tag)) d last h = elim (Bool-cases (validate crypto a c tag)) [
    | inl e ↦
        let ran : judge crypto out client server a c (some (authenticate tag)) d ≡ (success tt, d) =
          rw e refl in
        let same : d ≡ last = ap (λ r. r.1) (sym ran ∙ h) in (tag, refl, e, same)
    | inr e ↦
        let ran : judge crypto out client server a c (some (authenticate tag)) d
            ≡ (failure "invalid secret", d) =
          rw e refl in
        absurd (cc)
  ]
  judge-valid (some (register channel)) d last h = absurd (cc)
  judge-valid (some (connect channel)) d last h = absurd (cc)
  judge-valid (some heartbeat) d last h = absurd (cc)
  judge-valid none d last h = absurd (cc)

  server_handshake-Proved :
      (d last : Delimited out)
      → server_handshake crypto out client server a c d ≡ (success tt, last)
      → Proved d last
  unfolding server_handshake
  server_handshake-Proved d last h =
      let (_, asked, sent, rest) =
        resume-eq-success (λ _. recv_msg out client >>= judge crypto out client server a c)
          (send_msg out server (challenge c) d) h in
      let (msg, heard, answered, judged) =
        resume-eq-success (judge crypto out client server a c) (recv_msg out client asked) rest in
      let (tag, named, valid, same) = judge-valid msg heard last judged in
      record {
        tag = tag;
        asked = asked;
        sent = sent;
        answered = rw (sym named, sym same) answered;
        valid = valid;
      }

  -- Why a connection is served, and what it was told: it registered a channel that was free behind the
  -- handshake, or connects to one.
  abbrev pub Serves : (String → Bool) → Option ClientMsg → Type 0
  Serves taken first =
      (channel : String) × (((first ≡ some (register channel)) × (taken channel ≡ false))
        ⊎ (first ≡ some (connect channel)))

  pub record Admitted (taken : String → Bool) (d last : Delimited out) : Type 0 where
    pub first : Option ClientMsg
    pub heard : Delimited out
    pub received : recv_msg out client d ≡ (success first, heard)
    pub proved_at : Delimited out
    pub proved : Proved heard proved_at
    pub serves : Serves taken first
    pub told : send_msg out server accepted proved_at ≡ (success tt, last)

  accepted-told :
      (d last : Delimited out)
      → resume (λ _. give true) (send_msg out server accepted d) ≡ (success true, last)
      → send_msg out server accepted d ≡ (success tt, last)
  accepted-told d last h =
      let (_, t, sent, same) =
        resume-eq-success (λ _. give true) (send_msg out server accepted d) h in
      sent ∙ ap (λ x. (success tt, x)) (ap (λ r. r.1) same)

  provider-told :
      (taken : Bool) (d last : Delimited out)
      → greet_provider out crypto client server taken d ≡ (success true, last)
      → (taken ≡ false) × (send_msg out server accepted d ≡ (success tt, last))
  provider-told true d last h =
      let (_, t, sent, same) =
        resume-eq-success (λ _. give false) (send_msg out server (error "channel already in use") d)
          h in
      absurd (let bad : success false ≡ success true = ap (λ r. r.0) same in cc)
  provider-told false d last h = (refl, accepted-told d last h)

  false_ne : (d last : Delimited out) → ¬ (give {S = Delimited out} false d ≡ (success true, last))
  false_ne d last h = let bad : success false ≡ success true = ap (λ r. r.0) h in cc

  greet-Serves :
      (taken : String → Bool) (first : Option ClientMsg) (d last : Delimited out)
      → greet out crypto client server taken (admit first) d ≡ (success true, last)
      → Serves taken first × (send_msg out server accepted d ≡ (success tt, last))
  greet-Serves taken (some (register channel)) d last h =
      let (free, told) = provider-told (taken channel) d last h in
      ((channel, inl (refl, free)), told)
  greet-Serves taken (some (connect channel)) d last h =
      ((channel, inr refl), accepted-told d last h)
  greet-Serves taken (some (authenticate tag)) d last h = absurd (false_ne d last h)
  greet-Serves taken (some heartbeat) d last h = absurd (false_ne d last h)
  greet-Serves taken none d last h = absurd (false_ne d last h)

  -- What a connection has shown that comes through its first messages on a server with a secret.
  pub record Vetted (admission : Admission) (d last : Delimited out) : Type 0 where
    pub first : Option ClientMsg
    pub heard : Delimited out
    pub received : recv_msg out client d ≡ (success first, heard)
    pub proved : Proved heard last
    pub admitted : admission ≡ admit first

  pub handle_conn-Vetted :
      (admission : Admission) (d last : Delimited out)
      → handle_conn out crypto client server (some a) c d ≡ (success admission, last)
      → Vetted admission d last
  unfolding handle_conn
  handle_conn-Vetted admission d last h =
      let (first, heard, received, rest) =
        resume-eq-success
          (λ first. authenticate_first out crypto client server (some a) c >> give (admit first))
          (recv_msg out client d) h in
      let (_, later, proved, given) =
        resume-eq-success (λ _. give (admit first))
          (server_handshake crypto out client server a c heard) rest in
      let same : later ≡ last = ap (λ r. r.1) given in
      let whole : success (admit first) ≡ success admission = ap (λ r. r.0) given in
      record {
        first = first;
        heard = heard;
        received = received;
        proved = subst (Proved heard) same (server_handshake-Proved heard later proved);
        admitted = cc;
      }

  -- A server with a secret serves a connection only if it has read a first message, sent its challenge,
  -- then read a tag that is valid for this challenge, and only then told the peer that it is accepted:
  -- whatever the peer sends, however the reads cut it, and whatever the codecs and the stream do. The first
  -- message registered a channel that was free, or connects to one.
  pub serve_conn-Admitted :
      (taken : String → Bool) (d last : Delimited out)
      → serve_conn out crypto client server (some a) c taken d ≡ (success true, last)
      → Admitted taken d last
  unfolding serve_conn
  serve_conn-Admitted taken d last h =
      let (admission, proved_at, handled, greeted) =
        resume-eq-success (greet out crypto client server taken)
          (handle_conn out crypto client server (some a) c d) h in
      let v = handle_conn-Vetted admission d proved_at handled in
      let (serves, told) = greet-Serves taken v.first proved_at last (rw (v.admitted) at greeted) in
      record {
        first = v.first;
        heard = v.heard;
        received = v.received;
        proved_at = proved_at;
        proved = v.proved;
        serves = serves;
        told = told;
      }
