-- ===== src/Core/Channel/Integrity.antt =====
-- The checks of `StreamChunkSource::next` and `StreamChunkSink::send_chunk` in
-- crates/rb-core/src/channel.rs: which chunks get through, on any stream.
use text.Mathlib.Text.{◌==◌ as str_eq}
use text.Mathlib.TextEquality.{eq_iff}
use rust_backup.Prelude.{
  ℕ, ◌≤◌, ◌≡◌, refl, ap, sym, ◌∙◌, ◌≢◌, inl, inr, String, Option, none, some, ◌++◌, arith, length,
  Bool-cases,
}
use rust_backup.Core.Error.{Result, ok, err, continue, integrity}
use rust_backup.Core.Wire.{
  Bytes, Stream, Codec, coded, frame_limit, DataFrame, chunk_start, item_end, stream_end,
  read_exact_idle, recv_frame,
}
use rust_backup.Core.Wire.Reliable.{IsReliable, read_block-Does}
use rust_backup.Core.Wire.Frames.{framed, recv_frame-Does}
use rust_backup.Core.Channel.{
  ChunkEvent, chunk, Counted, on_stream, count, next, after_frame, verify, mismatch,
}

module _ (S : Stream) (codec : Codec DataFrame) (blake3_hex : Bytes → String) where
  -- Where a delivered chunk came from.
  pub record Verified (c : Counted S) (item_id offset : ℕ) (bytes : Bytes) : Type 0 where
    pub len : ℕ
    pub digest : String
    pub behind : S.State
    pub header :
        recv_frame S codec c.stream ≡ (ok (some (chunk_start item_id offset len digest)), behind)
    pub payload : (read_exact_idle S len behind).0 ≡ ok bytes
    pub sound : blake3_hex bytes ≡ digest

  verify_sound :
      (item_id offset : ℕ) (digest : String) (bytes : Bytes) (c : Counted S) {i o : ℕ} {b : Bytes}
      → (verify S codec blake3_hex item_id offset digest bytes c).0 ≡ ok (chunk i o b)
      → (item_id ≡ i) × (offset ≡ o) × (bytes ≡ b) × (blake3_hex bytes ≡ digest)
  unfolding verify count
  verify_sound item_id offset digest bytes c h = ground (arith, eq_iff (blake3_hex bytes) digest)

  read_sound :
      (c : Counted S) (item_id offset len : ℕ) (digest : String) (s : S.State)
      (r : Result Bytes × S.State) (i o : ℕ) (b : Bytes)
      → recv_frame S codec c.stream ≡ (ok (some (chunk_start item_id offset len digest)), s)
      → read_exact_idle S len s ≡ r
      → (continue
          (verify S codec blake3_hex item_id offset digest)
          (r.0, record c { stream = r.1 })).0
        ≡ ok (chunk i o b)
      → Verified c i o b
  read_sound c item_id offset len digest s (err e, t) i o b head pay h = absurd (cc)
  read_sound c item_id offset len digest s (ok bytes, t) i o b head pay h =
      let (same_item, same_offset, same_bytes, sound) =
        verify_sound item_id offset digest bytes (record c { stream = t }) h in
      record {
        len = len;
        digest = digest;
        behind = s;
        header = head ∙ cc (same_item, same_offset);
        payload = ap (λ r. r.0) pay ∙ ap ok same_bytes;
        sound = ap blake3_hex (sym same_bytes) ∙ sound;
      }

  frame_sound :
      (c : Counted S) (r : Result (Option DataFrame) × S.State) (i o : ℕ) (b : Bytes)
      → recv_frame S codec c.stream ≡ r
      → (continue (after_frame S codec blake3_hex) (r.0, record c { stream = r.1 })).0
        ≡ ok (chunk i o b)
      → Verified c i o b
  unfolding after_frame count on_stream
  frame_sound c (err e, s) i o b head h = absurd (cc)
  frame_sound c (ok none, s) i o b head h = absurd (cc)
  frame_sound c (ok (some stream_end), s) i o b head h = absurd (cc)
  frame_sound c (ok (some (item_end item_id total digest)), s) i o b head h = absurd (cc)
  frame_sound c (ok (some (chunk_start item_id offset len digest)), s) i o b head h =
      read_sound c item_id offset len digest s (read_exact_idle S len s) i o b head refl h

  -- Whatever the stream does, a chunk is delivered only as the payload behind a header that names
  -- its item, its offset and its very digest.
  pub next-Verified :
      (c : Counted S) (i o : ℕ) (b : Bytes)
      → (next S codec blake3_hex c).0 ≡ ok (chunk i o b)
      → Verified c i o b
  unfolding next on_stream
  next-Verified c i o b h = frame_sound c (recv_frame S codec c.stream) i o b refl h

module _ (S : Stream) (R : IsReliable S) (codec : Codec DataFrame)
    (blake3_hex : Bytes → String) where
  rejects :
      (item_id offset : ℕ) (digest : String) (bytes : Bytes) (c : Counted S)
      → blake3_hex bytes ≢ digest
      → verify S codec blake3_hex item_id offset digest bytes c
        ≡ (err (integrity (mismatch S codec blake3_hex item_id offset)), c)
  unfolding verify
  rejects item_id offset digest bytes c h = elim (Bool-cases (str_eq (blake3_hex bytes) digest)) [
    | inl same ↦ absurd (h ((eq_iff (blake3_hex bytes) digest).0 same))
    | inr other ↦ rw other refl
  ]

  -- On a healthy stream, a payload that follows a readable header with another digest than its own
  -- makes `next` fail with an integrity error that names the item and the offset.
  pub next_corrupted :
      (item_id offset : ℕ) (digest : String) (body bytes rest : Bytes) (c : Counted S)
      → R.pending c.stream ≡ framed body ++ (bytes ++ rest)
      → length body ≤ frame_limit
      → codec.from_slice body ≡ coded (chunk_start item_id offset (length bytes) digest)
      → blake3_hex bytes ≢ digest
      → (next S codec blake3_hex c).0 ≡ err (integrity (mismatch S codec blake3_hex item_id offset))
  unfolding next on_stream after_frame
  next_corrupted item_id offset digest body bytes rest c p fits read bad =
      let head =
        recv_frame-Does S R codec (chunk_start item_id offset (length bytes) digest) body
          (bytes ++ rest) c.stream p fits read in
      let pay = read_block-Does S R bytes rest head.last head.input in
      ap
        (λ (r : Result (Option DataFrame) × S.State).
          (continue (after_frame S codec blake3_hex) (r.0, record c { stream = r.1 })).0)
        head.result
      ∙ ap
          (λ (r : Result Bytes × S.State).
            (continue (verify S codec blake3_hex item_id offset digest)
              (r.0, record c { stream = r.1 })).0)
          pay.result
      ∙ ap (λ (r : Result ChunkEvent × Counted S). r.0)
          (rejects item_id offset digest bytes (record c { stream = pay.last }) bad)
