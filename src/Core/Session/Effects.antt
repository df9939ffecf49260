-- ===== src/Core/Session/Effects.antt =====
-- The steps of a session (crates/rb-core/src/session.rs) in the logic of `Tape`: the substream, the
-- counters and the backend together.
use rust_backup.Prelude.{
  ℕ, ◌≡◌, refl, ap, sym, ◌∙◌, Option, none, zero, suc, List, [], ◌∷◌, ◌++◌, ◌<◌, append-nil,
  append_assoc, arith, length, All,
}
use rust_backup.Core.Error.{Result, ok, err, Action}
use rust_backup.Core.Progress.{Progress}
use rust_backup.Core.Wire.{Bytes, Stream, DataFrame}
use rust_backup.Core.Wire.Tape.{Tape, Does, pure-Does, recast-Does}
use rust_backup.Core.Wire.Reliable.{IsReliable, tape}
use rust_backup.Core.Wire.Frames.{framed}
use rust_backup.Core.Channel.{ChunkEvent, chunk, item_finished, end, Counted, on_stream, next}
use rust_backup.Core.Channel.Chunks.{counted, on_stream-Does}
use rust_backup.Core.Channel.Transfer.{
  frame_of, payload, send_event, meters, wire, IsSendable, send_event-Does, next-Does,
}
use rust_backup.Core.Session.{
  Formats, Side, on_link, on_wire, on_backend, Upload, uploaded, call_send_chunk, call_finish_item,
  call_finish, Download, downloaded, call_next, upload, download,
}

module _ (S : Stream) (R : IsReliable S) {V : Type 0} (fmt : Formats V) (B : Type 0) where
  -- What is seen of a side.
  abbrev pub side : Tape (Side S fmt B) (Option Progress × B)
  side = record {
    pending = λ d. R.pending d.link.stream;
    sent = λ d. R.sent d.link.stream;
    note = λ d. (d.link.progress, d.backend);
  }

  pub on_link-Does {ℓ} :
      {A : Type ℓ} (m : Action (Counted S) A) (d : Side S fmt B) {a : A} {left out : Bytes}
      {p : Option Progress}
      → Does (counted S R) (m d.link) d.link a left out p
      → Does side (on_link S fmt B m d) d a left out (p, d.backend)
  on_link-Does m d h = record {
    last = record d { link = h.last };
    result = ap (λ r. (r.0, record d { link = r.1 })) h.result;
    input = h.input;
    output = h.output;
    counted = ap (λ p. (p, d.backend)) h.counted;
  }

  pub on_wire-Does {ℓ} :
      {A : Type ℓ} (m : Action S.State A) (d : Side S fmt B) {a : A} {left out : Bytes}
      → Does (tape S R) (m d.link.stream) d.link.stream a left out none
      → Does side (on_wire S fmt B m d) d a left out (d.link.progress, d.backend)
  on_wire-Does m d h = on_link-Does (on_stream S m) d (on_stream-Does S R m d.link h)

  pub on_backend-Does {ℓ} :
      {A : Type ℓ} (m : Action B A) (d : Side S fmt B) {a : A} {b : B}
      → m d.backend ≡ (ok a, b)
      → Does side (on_backend S fmt B m d) d a (R.pending d.link.stream) [] (d.link.progress, b)
  on_backend-Does m d {b} h = record {
    last = record d { backend = b };
    result = ap (λ r. (r.0, record d { backend = r.1 })) h;
    input = refl;
    output = sym (append-nil _);
    counted = refl;
  }

-- A `stream_out` that makes the calls of a list of events, stops at the first that fails, and does
-- not touch its backend.
module _ {B : Type 0} where
  abbrev pub stop_or : B → Upload B → Result (Unit {0}) → Upload B
  stop_or b more (ok _) = more
  stop_or b more (err e) = uploaded (err e) b

  unfoldable pub sends : List ChunkEvent → B → Upload B
  sends [] b = uploaded (ok tt) b
  sends (chunk item_id offset bytes ∷ es) b =
      call_send_chunk item_id offset bytes (stop_or b (sends es b))
  sends (item_finished item_id total digest ∷ es) b =
      call_finish_item item_id total digest (stop_or b (sends es b))
  sends (end ∷ es) b = call_finish (stop_or b (sends es b))

  -- A `stream_in` that applies the events one by one, `n` at most, until `End` or an error.
  abbrev take_event : (B → Download B) → (ChunkEvent → B → B) → B → Result ChunkEvent → Download B
  take_event more step b (ok (chunk item_id offset bytes)) =
      more (step (chunk item_id offset bytes) b)
  take_event more step b (ok (item_finished item_id total digest)) =
      more (step (item_finished item_id total digest) b)
  take_event more step b (ok end) = downloaded (ok tt) b
  take_event more step b (err x) = downloaded (err x) b

  unfoldable pub takes : (ChunkEvent → B → B) → ℕ → B → Download B
  takes step zero b = downloaded (ok tt) b
  takes step (suc n) b = call_next (take_event (takes step n) step b)

  abbrev pub apply_all : (ChunkEvent → B → B) → List ChunkEvent → B → B
  apply_all step [] b = b
  apply_all step (e ∷ es) b = apply_all step es (step e b)

-- Events of items, without the end of the stream.
abbrev pub IsItem : ChunkEvent → Type 0
IsItem end = ⊥
IsItem _ = Unit {0}

module _ (S : Stream) (R : IsReliable S) {V : Type 0} (fmt : Formats V) (B : Type 0)
    (encode : DataFrame → Bytes) where
  abbrev items : List ChunkEvent → Bytes
  items = wire fmt.frames fmt.blake3_hex encode

  abbrev Serves : ChunkEvent → Type 0
  Serves = IsSendable fmt.frames fmt.blake3_hex encode

  abbrev at : B → Counted S → Side S fmt B
  at b c = record { backend = b; link = c }

  -- One successful call, and the rest of the upload behind it.
  upload_step :
      (es : List ChunkEvent) (b : B) (c : Counted S) (r : Result (Unit {0}) × Counted S)
      {left w : Bytes} {m : Option Progress}
      → (d : Does (counted S R) r c tt left w m)
      → Does
          (side S R fmt B)
          (upload S fmt B (sends es b) d.last)
          (at b d.last)
          tt
          (R.pending d.last.stream)
          (items es)
          (meters es d.last.progress, b)
      → Does
          (side S R fmt B)
          (upload S fmt B (stop_or b (sends es b) r.0) r.1)
          (at b c)
          tt
          left
          (w ++ items es)
          (meters es m, b)
  upload_step es b c r {left} {w} {m} d rest = record {
    last = rest.last;
    result =
        ap (λ (r : Result (Unit {0}) × Counted S). upload S fmt B (stop_or b (sends es b) r.0) r.1)
          d.result
        ∙ rest.result;
    input = rest.input ∙ d.input;
    output =
        rest.output
        ∙ ap (λ x. x ++ items es) d.output
        ∙ append_assoc (R.sent c.stream) w (items es);
    counted = rest.counted ∙ ap (λ p. (meters es p, b)) d.counted;
  }

  upload_event :
      (e : ChunkEvent) (es : List ChunkEvent) (b : B) (c : Counted S)
      → upload S fmt B (sends (e ∷ es) b) c ≡ (
          let r = send_event fmt.frames fmt.blake3_hex S e c in
          upload S fmt B (stop_or b (sends es b) r.0) r.1)
  unfolding upload sends
  upload_event (chunk item_id offset bytes) es b c = refl
  upload_event (item_finished item_id total digest) es b c = refl
  upload_event end es b c = refl

  -- An upload of a list of events writes their wire form and leaves the backend as it is.
  pub upload-Does :
      (es : List ChunkEvent) (b : B) (c : Counted S)
      → All Serves es
      → Does
          (side S R fmt B)
          (upload S fmt B (sends es b) c)
          (at b c)
          tt
          (R.pending c.stream)
          (items es)
          (meters es c.progress, b)
  upload-Does [] b c h = unfold upload sends in pure-Does (side S R fmt B) tt (at b c)
  upload-Does (e ∷ es) b c h =
      let first = send_event-Does fmt.frames fmt.blake3_hex encode S R e c h.0 in
      recast-Does (side S R fmt B)
        (upload_step es b c (send_event fmt.frames fmt.blake3_hex S e c) first
          (upload-Does es b first.last h.1))
        (upload_event e es b c) refl
        (append_assoc (framed (encode (frame_of fmt.frames fmt.blake3_hex encode e)))
          (payload fmt.frames fmt.blake3_hex encode e) (items es))
        refl

  -- The end of the stream, marked or cut, as the source of chunks sees it.
  abbrev pub EndsAt : Bytes → Bytes → Type 0
  EndsAt tail rest =
      (c : Counted S)
      → R.pending c.stream ≡ tail
      → Does (counted S R) (next S fmt.frames fmt.blake3_hex c) c end rest [] c.progress

  -- What `takes` does with the event that `next` gives.
  pub after_next :
      (ChunkEvent → B → B)
      → ℕ
      → B
      → Result ChunkEvent × Counted S
      → Result (Unit {0}) × Side S fmt B
  after_next step n b r = download S fmt B (take_event (takes step n) step b r.0) r.1

  download-after_next :
      (step : ChunkEvent → B → B) (n : ℕ) (b : B) (c : Counted S)
      → download S fmt B (takes step (suc n) b) c
        ≡ after_next step n b (next S fmt.frames fmt.blake3_hex c)
  unfolding download takes after_next
  download-after_next step n b c = refl

  after_next-item :
      (step : ChunkEvent → B → B) (n : ℕ) (e : ChunkEvent) (b : B) (c : Counted S)
      → IsItem e
      → after_next step n b (ok e, c) ≡ download S fmt B (takes step n (step e b)) c
  unfolding after_next
  after_next-item step n (chunk item_id offset bytes) b c i = refl
  after_next-item step n (item_finished item_id total digest) b c i = refl
  after_next-item step n end b c i = absurd i

  -- A download of the items of a list, and of the end behind them, applies each in order.
  pub download-Does :
      (step : ChunkEvent → B → B) (es : List ChunkEvent) (n : ℕ) (b : B) (c : Counted S)
      {tail rest : Bytes}
      → All Serves es
      → All IsItem es
      → length es < n
      → EndsAt tail rest
      → R.pending c.stream ≡ items es ++ tail
      → Does
          (side S R fmt B)
          (download S fmt B (takes step n b) c)
          (at b c)
          tt
          rest
          []
          (meters es c.progress, apply_all step es b)
  download-Does step es zero b c h i lt ends p = absurd (omega arith)
  download-Does step [] (suc n) b c h i lt ends p =
      let last = ends c p in
      record {
        last = at b last.last;
        result =
            download-after_next step n b c
            ∙ ap (after_next step n b) last.result
            ∙ unfold after_next download in refl;
        input = last.input;
        output = last.output;
        counted = ap (λ p. (p, b)) last.counted;
      }
  download-Does step (e ∷ es) (suc n) b c {tail} h i lt ends p =
      let first = next-Does fmt.frames fmt.blake3_hex encode S R e (items es ++ tail) c h.0 (
        p
        ∙ append_assoc (framed (encode (frame_of fmt.frames fmt.blake3_hex encode e)))
            (payload fmt.frames fmt.blake3_hex encode e ++ items es) tail
        ∙ ap (λ x. framed (encode (frame_of fmt.frames fmt.blake3_hex encode e)) ++ x)
            (append_assoc (payload fmt.frames fmt.blake3_hex encode e) (items es) tail)) in
      let others =
        download-Does step es n (step e b) first.last h.1 i.1 (omega arith) ends first.input in
      record {
        last = others.last;
        result =
            download-after_next step n b c
            ∙ ap (after_next step n b) first.result
            ∙ after_next-item step n e b first.last i.0
            ∙ others.result;
        input = others.input;
        output =
            others.output ∙ ap (λ x. x ++ []) first.output ∙ append_assoc (R.sent c.stream) [] [];
        counted =
            others.counted ∙ ap (λ p. (meters es p, apply_all step es (step e b))) first.counted;
      }
