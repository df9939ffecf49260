-- ===== src/Core/Channel/Chunks.antt =====
-- The chunk sink against the chunk source of crates/rb-core/src/channel.rs: what one event puts on
-- the wire and what the other side makes of it.
use mathlib.Core.Option
use text.Mathlib.TextPositions.{eq_refl}
use rust_backup.Prelude.{
  ℕ, ◌%◌, ◌^◌, ◌≤◌, ◌<◌, ◌≡◌, refl, ap, sym, ◌∙◌, String, Option, none, some, [], ◌++◌, append-nil,
  arith, length, ltb-false,
}
use rust_backup.Core.Error.{Action, ◌>>◌, pure}
use rust_backup.Core.Progress.{Progress, add_bytes, item_done}
use rust_backup.Core.Wire.{
  Bytes, Stream, Codec, coded, chunk_size, frame_limit, DataFrame, chunk_start, item_end,
  stream_end, write_all_idle, read_exact_idle, send_frame, recv_frame,
}
use rust_backup.Core.Wire.Tape.{Tape, Does, pure-Does, recast-Does, bind-Does}
use rust_backup.Core.Wire.Reliable.{IsReliable, tape, write_all_idle-Does, read_block-Does}
use rust_backup.Core.Wire.Frames.{framed, send_frame-Does, recv_frame-Does, recv_frame_end-Does}
use rust_backup.Core.Channel.{
  chunk, item_finished, end, Counted, on_stream, count, send_chunk, finish_item, finish, next,
  after_frame, verify,
}

-- serde_json writes the frame as `body`, which is within the frame limit, and reads it back.
pub record Travels {T : Type 0} (c : Codec T) (frame : T) (body : Bytes) : Type 0 where
  pub written : c.to_vec frame ≡ coded body
  pub read_back : c.from_slice body ≡ coded frame
  pub fits : length body ≤ frame_limit

-- The header that `send_chunk` writes.
abbrev pub header : (Bytes → String) → ℕ → ℕ → Bytes → DataFrame
header blake3_hex item_id offset bytes =
    chunk_start item_id offset (length bytes % 2 ^ 32) (blake3_hex bytes)

module _ (S : Stream) (R : IsReliable S) where
  -- What is seen of a chunk sink or a chunk source.
  abbrev pub counted : Tape (Counted S) (Option Progress)
  counted = record {
    pending = λ c. R.pending c.stream;
    sent = λ c. R.sent c.stream;
    note = λ c. c.progress;
  }

  pub on_stream-Does {ℓ} :
      {A : Type ℓ} (m : Action S.State A) (c : Counted S) {a : A} {left out : Bytes}
      → Does (tape S R) (m c.stream) c.stream a left out none
      → Does counted (on_stream S m c) c a left out c.progress
  unfolding on_stream
  on_stream-Does m c d = record {
    last = record c { stream = d.last };
    result = ap (λ r. (r.0, record c { stream = r.1 })) d.result;
    input = d.input;
    output = d.output;
    counted = refl;
  }

  pub count-Does :
      (f : Progress → Progress) (c : Counted S)
      → Does counted (count S f c) c tt (R.pending c.stream) [] (Option.map f c.progress)
  unfolding count
  count-Does f c = record {
    last = record c { progress = Option.map f c.progress };
    result = refl;
    input = refl;
    output = sym (append-nil _);
    counted = refl;
  }

  module _ (codec : Codec DataFrame) (blake3_hex : Bytes → String) where
    pub send_chunk-Does :
        (item_id offset : ℕ) (bytes body : Bytes) (c : Counted S)
        → length bytes ≤ chunk_size
        → Travels codec (header blake3_hex item_id offset bytes) body
        → Does counted
            (send_chunk S codec blake3_hex item_id offset bytes c)
            c
            tt
            (R.pending c.stream)
            (framed body ++ bytes)
            (Option.map (add_bytes (length bytes)) c.progress)
    unfolding send_chunk
    send_chunk-Does item_id offset bytes body c h t =
        let head = on_stream-Does (send_frame S codec (header blake3_hex item_id offset bytes)) c (
          send_frame-Does S R codec (header blake3_hex item_id offset bytes) body c.stream t.written
            t.fits) in
        let payload =
          on_stream-Does (write_all_idle S bytes) head.last
            (write_all_idle-Does S R bytes head.last.stream) in
        let tail =
          bind-Does counted (on_stream S (write_all_idle S bytes))
            (λ _. count S (add_bytes (length bytes))) head.last [] payload
            (count-Does (add_bytes (length bytes)) payload.last) in
        recast-Does counted
          (bind-Does counted
            (on_stream S (send_frame S codec (header blake3_hex item_id offset bytes)))
            (λ _. on_stream S (write_all_idle S bytes) >> count S (add_bytes (length bytes))) c
            (bytes ++ []) head tail)
          (rw (ltb-false chunk_size (length bytes) h) refl) (payload.input ∙ head.input)
          (ap (λ x. framed body ++ x) (append-nil bytes))
          (ap (Option.map (add_bytes (length bytes))) (payload.counted ∙ head.counted))

    pub finish_item-Does :
        (item_id total : ℕ) (digest : String) (body : Bytes) (c : Counted S)
        → Travels codec (item_end item_id total digest) body
        → Does counted
            (finish_item S codec blake3_hex item_id total digest c)
            c
            tt
            (R.pending c.stream)
            (framed body)
            (Option.map item_done c.progress)
    unfolding finish_item
    finish_item-Does item_id total digest body c t =
        let sends = on_stream-Does (send_frame S codec (item_end item_id total digest)) c (
          send_frame-Does S R codec (item_end item_id total digest) body c.stream t.written
            t.fits) in
        recast-Does counted
          (bind-Does counted (on_stream S (send_frame S codec (item_end item_id total digest)))
            (λ _. count S item_done) c [] sends (count-Does item_done sends.last))
          refl sends.input (append-nil (framed body)) (ap (Option.map item_done) sends.counted)

    pub finish-Does :
        (body : Bytes) (c : Counted S)
        → Travels codec stream_end body
        → Does counted
            (finish S codec blake3_hex c)
            c
            tt
            (R.pending c.stream)
            (framed body)
            c.progress
    unfolding finish
    finish-Does body c t =
        on_stream-Does (send_frame S codec stream_end) c
          (send_frame-Does S R codec stream_end body c.stream t.written t.fits)

    -- The frame of an event is read first.
    receives :
        (frame : DataFrame) (body rest : Bytes) (c : Counted S)
        → Travels codec frame body
        → R.pending c.stream ≡ framed body ++ rest
        → Does counted (on_stream S (recv_frame S codec) c) c (some frame) rest [] c.progress
    receives frame body rest c t p =
        on_stream-Does (recv_frame S codec) c
          (recv_frame-Does S R codec frame body rest c.stream p t.fits t.read_back)

    verify-Does :
        (item_id offset : ℕ) (bytes : Bytes) (c : Counted S)
        → Does counted
            (verify S codec blake3_hex item_id offset (blake3_hex bytes) bytes c)
            c
            (chunk item_id offset bytes)
            (R.pending c.stream)
            []
            (Option.map (add_bytes (length bytes)) c.progress)
    unfolding verify
    verify-Does item_id offset bytes c =
        let counts = count-Does (add_bytes (length bytes)) c in
        recast-Does counted
          (bind-Does counted (count S (add_bytes (length bytes)))
            (λ _. pure (chunk item_id offset bytes)) c [] counts
            (pure-Does counted (chunk item_id offset bytes) counts.last))
          (rw (eq_refl (blake3_hex bytes)) refl) counts.input refl counts.counted

    pub next_chunk-Does :
        (item_id offset : ℕ) (bytes body rest : Bytes) (c : Counted S)
        → length bytes ≤ chunk_size
        → Travels codec (header blake3_hex item_id offset bytes) body
        → R.pending c.stream ≡ framed body ++ (bytes ++ rest)
        → Does counted
            (next S codec blake3_hex c)
            c
            (chunk item_id offset bytes)
            rest
            []
            (Option.map (add_bytes (length bytes)) c.progress)
    unfolding next
    next_chunk-Does item_id offset bytes body rest c h t p =
        let hd = receives (header blake3_hex item_id offset bytes) body (bytes ++ rest) c t p in
        let pay =
          on_stream-Does (read_exact_idle S (length bytes)) hd.last
            (read_block-Does S R bytes rest hd.last.stream hd.input) in
        let checks = verify-Does item_id offset bytes pay.last in
        let tail =
          bind-Does counted (on_stream S (read_exact_idle S (length bytes)))
            (verify S codec blake3_hex item_id offset (blake3_hex bytes)) hd.last [] pay checks in
        let small : length bytes % 2 ^ 32 ≡ length bytes = omega arith in
        recast-Does counted
          (bind-Does counted (on_stream S (recv_frame S codec)) (after_frame S codec blake3_hex) c
            [] hd (recast-Does counted tail (unfold after_frame in rw small refl) refl refl refl))
          refl pay.input refl
          (ap (Option.map (add_bytes (length bytes))) (pay.counted ∙ hd.counted))

    pub next_item-Does :
        (item_id total : ℕ) (digest : String) (body rest : Bytes) (c : Counted S)
        → Travels codec (item_end item_id total digest) body
        → R.pending c.stream ≡ framed body ++ rest
        → Does counted
            (next S codec blake3_hex c)
            c
            (item_finished item_id total digest)
            rest
            []
            (Option.map item_done c.progress)
    unfolding next
    next_item-Does item_id total digest body rest c t p =
        let hd = receives (item_end item_id total digest) body rest c t p in
        let counts = count-Does item_done hd.last in
        let tail =
          bind-Does counted (count S item_done) (λ _. pure (item_finished item_id total digest))
            hd.last [] counts
            (pure-Does counted (item_finished item_id total digest) counts.last) in
        recast-Does counted
          (bind-Does counted (on_stream S (recv_frame S codec)) (after_frame S codec blake3_hex) c
            [] hd tail)
          refl (counts.input ∙ hd.input) refl
          (counts.counted ∙ ap (Option.map item_done) hd.counted)

    pub next_end-Does :
        (body rest : Bytes) (c : Counted S)
        → Travels codec stream_end body
        → R.pending c.stream ≡ framed body ++ rest
        → Does counted (next S codec blake3_hex c) c end rest [] c.progress
    unfolding next
    next_end-Does body rest c t p =
        let hd = receives stream_end body rest c t p in
        recast-Does counted
          (bind-Does counted (on_stream S (recv_frame S codec)) (after_frame S codec blake3_hex) c
            [] hd (pure-Does counted end hd.last))
          refl hd.input refl hd.counted

    -- A stream that is cut where a header could begin ends like one that was finished.
    pub next_cut-Does :
        (c : Counted S)
        → length (R.pending c.stream) < 4
        → Does counted (next S codec blake3_hex c) c end [] [] c.progress
    unfolding next after_frame
    next_cut-Does c h =
        let hd = on_stream-Does (recv_frame S codec) c (recv_frame_end-Does S R codec c.stream h) in
        recast-Does counted
          (bind-Does counted (on_stream S (recv_frame S codec)) (after_frame S codec blake3_hex) c
            [] hd (pure-Does counted end hd.last))
          refl hd.input refl hd.counted
