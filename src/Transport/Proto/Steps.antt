-- ===== src/Transport/Proto/Steps.antt =====
-- The calls on a whole `Delimited` of crates/rb-transport/src/proto.rs, against the bytes that a healthy
-- peer delivers and an output that takes every byte.
use rust_backup.Prelude.{◌≡◌, refl, ap, ◌∙◌, none, some, [], ◌∷◌, ◌++◌, append_assoc}
use rust_backup.Core.Anyhow.{Call, resume}
use rust_backup.Core.Error.{Outcome, success}
use rust_backup.Core.Wire.{Bytes, Codec, coded}
use rust_backup.Transport.Proto.{
  Incoming, Output, Delimited, recv, send, send_msg, recv_msg, decoded,
}
use rust_backup.Transport.Proto.Cuts.{IsClean, Delivers, recv-Received}

-- The bytes that are still to be received, in the buffer and behind it.
pub record Holds (i : Incoming) (bytes : Bytes) : Type 0 where
  pub later : Bytes
  pub delivers : Delivers i.reads later
  pub all : i.read_buf ++ later ≡ bytes

-- tokio's promise for a stream that is open: what is handed to it is written.
pub record IsOpen (out : Output) : Type 0 where
  pub sent : out.State → Bytes
  pub writes :
      (b : Bytes) (s : out.State)
      → (t : out.State) × (out.write_all b s ≡ (none, t)) × (sent t ≡ sent s ++ b)
  pub flushes : (s : out.State) → (t : out.State) × (out.flush s ≡ (none, t)) × (sent t ≡ sent s)

-- The JSON codec writes the message as `json`, without a zero byte, and reads it back.
pub record Carries {T : Type 0} (codec : Codec T) (msg : T) (json : Bytes) : Type 0 where
  pub written : codec.to_vec msg ≡ coded json
  pub read_back : codec.from_slice json ≡ coded msg
  pub clean : IsClean json

module _ (out : Output) (O : IsOpen out) where
  -- A call that gave `a`, leaves `rest` to be received, and has said `said` in all.
  pub record Spoke {A : Type 0} (r : Outcome A × Delimited out) (a : A) (rest said : Bytes)
      : Type 0 where
    pub last : Delimited out
    pub result : r ≡ (success a, last)
    pub holds : Holds last.incoming rest
    pub says : O.sent last.inner ≡ said

  pub send_msg-Spoke :
      {T : Type 0} (codec : Codec T) (msg : T) (json rest : Bytes) (d : Delimited out)
      → codec.to_vec msg ≡ coded json
      → Holds d.incoming rest
      → Spoke (send_msg out codec msg d) tt rest (O.sent d.inner ++ (json ++ (0 ∷ [])))
  unfolding send_msg send
  send_msg-Spoke codec msg json rest d e h =
      let (t, wrote, sent_t) = O.writes json d.inner in
      let (u, ended, sent_u) = O.writes (0 ∷ []) t in
      let (v, flushed, sent_v) = O.flushes u in
      record {
        last = record d { inner = v };
        result = rw (e, wrote, ended, flushed) refl;
        holds = h;
        says =
            sent_v
            ∙ sent_u
            ∙ ap (λ x. x ++ (0 ∷ [])) sent_t
            ∙ append_assoc (O.sent d.inner) json (0 ∷ []);
      }

  pub recv_msg-Spoke :
      {T : Type 0} (codec : Codec T) (msg : T) (json rest : Bytes) (d : Delimited out)
      → Carries codec msg json
      → Holds d.incoming (json ++ (0 ∷ rest))
      → Spoke (recv_msg out codec d) (some msg) rest (O.sent d.inner)
  unfolding recv_msg
  recv_msg-Spoke codec msg json rest d c h =
      let r = recv-Received codec d.incoming.read_buf json rest h.delivers c.clean h.all in
      record {
        last = record d { incoming = (recv codec d.incoming.reads d.incoming.read_buf).1 };
        result =
            ap
              (λ x.
                (x, record d { incoming = (recv codec d.incoming.reads d.incoming.read_buf).1 }))
              (r.result ∙ ap (decoded codec) c.read_back);
        holds = record { later = r.later; delivers = r.delivers; all = r.kept };
        says = refl;
      }

  -- What follows such a call.
  pub resume-Spoke :
      {A B : Type 0} {a : A} {b : B} {rest rest' said said' : Bytes} {r : Outcome A × Delimited out}
      (f : A → Call (Delimited out) B) (one : Spoke r a rest said)
      → Spoke (f a one.last) b rest' said'
      → Spoke (resume f r) b rest' said'
  resume-Spoke f one two = record {
    last = two.last;
    result = ap (resume f) one.result ∙ two.result;
    holds = two.holds;
    says = two.says;
  }
