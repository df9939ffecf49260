-- ===== src/Core/Channel/Counting.antt =====
-- The byte counter of `StreamChunkSink` and `StreamChunkSource` in crates/rb-core/src/channel.rs: what
-- each call adds to it.
use mathlib.Core.Option
use text.Mathlib.Text.{◌==◌ as str_eq}
use rust_backup.Prelude.{
  ℕ, ◌≡◌, ◌+◌, ◌%◌, ◌^◌, ◌<◌, refl, ap, ◌∙◌, String, Option, none, some, length, ltb, arith, Bool,
  true, false, if◌then◌else◌,
}
use rust_backup.Core.Error.{BackupError, Result, ok, err, Action, continue, ◌>>=◌, ◌>>◌, fail, pure}
use rust_backup.Core.Progress.{Progress, add_bytes, item_done, bytes}
use rust_backup.Core.Wire.{
  Bytes, chunk_size, Stream, Codec, DataFrame, chunk_start, item_end, stream_end, send_frame,
  write_all_idle,
}
use rust_backup.Core.Channel.{
  Counted, on_stream, count, send_chunk, finish_item, finish, ChunkEvent, chunk, item_finished, end,
  next, verify, after_frame,
}

mod_add : (k a b : ℕ) → ((k + a) % 2 ^ 64 + b) % 2 ^ 64 ≡ (k + (a + b)) % 2 ^ 64
mod_add k a b = omega arith

below : (k : ℕ) → k < 2 ^ 64 → k ≡ (k + 0) % 2 ^ 64
below k h = omega arith

module _ (S : Stream) where
  abbrev pub shown : Counted S → Option ℕ
  shown c = Option.map bytes c.progress

  -- The counter has gone from one value to another by a number of bytes.
  abbrev pub Moves : ℕ → Counted S → Counted S → Type 0
  Moves n c c' = (k : ℕ) → shown c ≡ some k → k < 2 ^ 64 → shown c' ≡ some ((k + n) % 2 ^ 64)

  pub zero-Moves : (c c' : Counted S) → shown c' ≡ shown c → Moves 0 c c'
  zero-Moves c c' e k h small = e ∙ h ∙ ap some (below k small)

  pub add-Moves : (a b : ℕ) (c d e : Counted S) → Moves a c d → Moves b d e → Moves (a + b) c e
  add-Moves a b c d e f g k h small =
      g ((k + a) % 2 ^ 64) (f k h small) (omega arith) ∙ ap some (mod_add k a b)

  pub count-Moves : (n : ℕ) (c : Counted S) → Moves n c (count S (add_bytes n) c).1
  unfolding count add_bytes bytes
  count-Moves n c k h small = go c.progress h
    where
      go :
          (p : Option Progress)
          → Option.map bytes p ≡ some k
          → Option.map bytes (Option.map (add_bytes n) p) ≡ some ((k + n) % 2 ^ 64)
      go none h = absurd (cc)
      go (some p) h = cc h

  -- What a call of the sink that sends a number of bytes adds to the counter.
  unfoldable pub credit : ℕ → Result (Unit {0}) → ℕ
  credit n (ok u) = n
  credit n (err e) = 0

  abbrev pub Credits : ℕ → Action (Counted S) (Unit {0}) → Type 0
  Credits n m = (c : Counted S) → Moves (credit n (m c).0) c (m c).1

  abbrev pub Silent {ℓ} : {A : Type ℓ} → Action (Counted S) A → Type 0
  Silent m = (c : Counted S) → shown (m c).1 ≡ shown c

  pub on_stream-Silent {ℓ} : {A : Type ℓ} (m : Action S.State A) → Silent (on_stream S m)
  unfolding on_stream
  on_stream-Silent m c = refl

  >>-Silent : (m k : Action (Counted S) (Unit {0})) → Silent m → Silent k → Silent (m >> k)
  >>-Silent m k f g c = go (m c) (f c)
    where
      go :
          (r : Result (Unit {0}) × Counted S)
          → shown r.1 ≡ shown c
          → shown (continue (λ _. k) r).1 ≡ shown c
      go (ok u, d) e = g d ∙ e
      go (err x, d) e = e

  count-Credits : (n : ℕ) → Credits n (count S (add_bytes n))
  unfolding credit count
  count-Credits n c = count-Moves n c

  pub count-item_done : Silent (count S item_done)
  unfolding count item_done bytes
  count-item_done c = go c.progress
    where
      go : (p : Option Progress) → Option.map bytes (Option.map item_done p) ≡ Option.map bytes p
      go none = refl
      go (some p) = refl

  >>-Credits :
      (n : ℕ) (m k : Action (Counted S) (Unit {0})) → Silent m → Credits n k → Credits n (m >> k)
  unfolding credit
  >>-Credits n m k f g c = go (m c) (f c)
    where
      go :
          (r : Result (Unit {0}) × Counted S)
          → shown r.1 ≡ shown c
          → Moves (credit n (continue (λ _. k) r).0) c (continue (λ _. k) r).1
      go (ok u, d) e = λ v h. g d v (e ∙ h)
      go (err x, d) e = zero-Moves c d e

  module _ (codec : Codec DataFrame) (blake3_hex : Bytes → String) where
    guarded :
        (b : Bool) (n : ℕ) (e : BackupError) (m : Action (Counted S) (Unit {0}))
        → Credits n m
        → Credits n (if b then fail e else m)
    unfolding credit
    guarded true n e m h c = zero-Moves c c refl
    guarded false n e m h c = h c

    pub send_chunk-Credits :
        (item_id offset : ℕ) (body : Bytes)
        → Credits (length body) (send_chunk S codec blake3_hex item_id offset body)
    unfolding send_chunk
    send_chunk-Credits item_id offset body =
        guarded (ltb chunk_size (length body)) (length body) _ _ (
          >>-Credits (length body) (on_stream S (send_frame S codec _)) _ (on_stream-Silent _) (
            >>-Credits (length body) (on_stream S (write_all_idle S body)) _ (on_stream-Silent _)
              (count-Credits (length body))))

    pub finish_item-Silent :
        (item_id total : ℕ) (blake3 : String)
        → Silent (finish_item S codec blake3_hex item_id total blake3)
    unfolding finish_item
    finish_item-Silent item_id total blake3 =
        >>-Silent (on_stream S _) _ (on_stream-Silent _) count-item_done

    pub finish-Silent : Silent (finish S codec blake3_hex)
    unfolding finish
    finish-Silent = on_stream-Silent _

-- What a backend is given by a result of `next`.
unfoldable pub given : Result ChunkEvent → ℕ
given (ok (chunk item_id offset body)) = length body
given (ok (item_finished item_id total blake3)) = 0
given (ok end) = 0
given (err e) = 0

module _ (S : Stream) where
  abbrev pub Gains : Action (Counted S) ChunkEvent → Type 0
  Gains m = (c : Counted S) → Moves S (given (m c).0) c (m c).1

  >>=-Gains {ℓ} :
      {A : Type ℓ} (m : Action (Counted S) A) (f : A → Action (Counted S) ChunkEvent)
      → Silent S m
      → ((a : A) → Gains (f a))
      → Gains (m >>= f)
  unfolding given
  >>=-Gains {A} m f silent g c = go (m c) (silent c)
    where
      go :
          (r : Result A × Counted S)
          → shown S r.1 ≡ shown S c
          → Moves S (given (continue f r).0) c (continue f r).1
      go (ok a, d) e = λ v h. g a d v (e ∙ h)
      go (err x, d) e = zero-Moves S c d e

  module _ (codec : Codec DataFrame) (blake3_hex : Bytes → String) where
    checked-Gains :
        (same : Bool) (item_id offset : ℕ) (body : Bytes) (e : BackupError)
        → Gains (
            if same
            then (do count S (add_bytes (length body)); pure (chunk item_id offset body))
            else fail e)
    unfolding given count
    checked-Gains true item_id offset body e c = count-Moves S (length body) c
    checked-Gains false item_id offset body e c = zero-Moves S c c refl

    after_frame-Gains : (frame : Option DataFrame) → Gains (after_frame S codec blake3_hex frame)
    unfolding after_frame given verify
    after_frame-Gains none c = zero-Moves S c c refl
    after_frame-Gains (some stream_end) c = zero-Moves S c c refl
    after_frame-Gains (some (chunk_start item_id offset len blake3)) c =
        >>=-Gains (on_stream S _) _ (on_stream-Silent S _)
          (λ body. checked-Gains (str_eq (blake3_hex body) blake3) item_id offset body _) c
    after_frame-Gains (some (item_end item_id total blake3)) c =
        >>=-Gains (count S item_done) (λ u. pure (item_finished item_id total blake3))
          (count-item_done S) (λ u d. zero-Moves S d d refl) c

    pub next-Gains : Gains (next S codec blake3_hex)
    unfolding next
    next-Gains = >>=-Gains (on_stream S _) _ (on_stream-Silent S _) after_frame-Gains
