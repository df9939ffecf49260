-- ===== src/Core/Wire/Frames.antt =====
-- `send_frame` and `recv_frame` of crates/rb-core/src/wire.rs on a healthy stream: what goes out,
-- what comes back, and every way in which a frame is refused.
use rust_backup.Prelude.{
  ℕ, ◌^◌, ◌≤◌, ◌<◌, ◌≡◌, refl, ap, sym, ◌∙◌, Option, none, some, [], ◌++◌, append-nil, arith,
  length, take, drop, if◌then◌else◌, ltb, lt→ltb, ltb→lt, ltb-false, ltb-false→le, Bool-cases, inl,
  inr,
}
use rust_backup.Core.Error.{
  BackupError, Result, ok, err, continue, ◌>>◌, transfer, phase, phase_src,
}
use rust_backup.Core.Wire.{
  Bytes, filled, Stream, Codec, Coded, coded, refused, to_le_bytes, from_le_bytes, frame_limit,
  write_all_idle, read_exact_idle, send_frame, recv_frame, after_length, parse_body, after_flush,
  send_body,
}
use rust_backup.Core.Progress.{Progress}
use rust_backup.Core.Wire.Tape.{Tape, Does, recast-Does, bind-Does}
use rust_backup.Core.Wire.Reliable.{
  IsReliable, tape, write_all_idle-Does, read_exact_idle-Does, read_block-Does,
  read_exact_idle_short,
}

-- The length prefix of a frame is read back as it was written.
pub from_le_bytes-to_le_bytes : (n : ℕ) → n < 2 ^ 32 → from_le_bytes (to_le_bytes n) ≡ n
from_le_bytes-to_le_bytes n h = omega arith

-- A body behind its length, as it stands on the wire.
abbrev pub framed : Bytes → Bytes
framed body = to_le_bytes (length body) ++ body

-- The frame format itself, as a function of all that the peer sends before it closes.
module _ {T : Type 0} (c : Codec T) where
  pub decode : Coded T → Result (Option T)
  decode (coded frame) = ok (some frame)
  decode (refused e) = err (phase_src transfer "frame deserialize" e)

  pub parse_payload : ℕ → Bytes → Result (Option T)
  parse_payload n bytes =
      if ltb (length bytes) n
      then err (phase transfer "unexpected EOF mid-frame")
      else decode (c.from_slice (take n bytes))

  unfoldable pub parse_frame : Bytes → Result (Option T)
  unfolding parse_payload decode
  parse_frame bytes =
      if ltb (length bytes) 4
      then ok none
      else if ltb frame_limit (from_le_bytes (take 4 bytes))
      then err (phase transfer "incoming frame too large")
      else parse_payload (from_le_bytes (take 4 bytes)) (drop 4 bytes)

module _ (S : Stream) (R : IsReliable S) {T : Type 0} (c : Codec T) where
  open R use {pending, sent}

  abbrev view : Tape S.State (Option Progress)
  view = tape S R

  flush-Does : (s : S.State) → Does view (after_flush S (S.flush s)) s tt (pending s) [] none
  unfolding after_flush
  flush-Does s =
      let (t, e, out, same) = R.flush_done s in
      record {
        last = t;
        result = ap (after_flush S) e;
        input = same;
        output = out ∙ sym (append-nil _);
        counted = refl;
      }

  -- A frame within the limit goes out as its length and its body.
  pub send_frame-Does :
      (frame : T) (body : Bytes) (s : S.State)
      → c.to_vec frame ≡ coded body
      → length body ≤ frame_limit
      → Does view (send_frame S c frame s) s tt (pending s) (framed body) none
  unfolding send_frame
  send_frame-Does frame body s e h =
      let head = write_all_idle-Does S R (to_le_bytes (length body)) s in
      let rest = write_all_idle-Does S R body head.last in
      let end = flush-Does rest.last in
      let tail =
        bind-Does view (write_all_idle S body) (λ _ t. after_flush S (S.flush t)) head.last [] rest
          end in
      let all =
        bind-Does view (write_all_idle S (to_le_bytes (length body)))
          (λ _. write_all_idle S body >> λ t. after_flush S (S.flush t)) s (body ++ []) head tail in
      recast-Does view all (rw (e, send_body, ltb-false frame_limit (length body) h) refl)
        (rest.input ∙ head.input) (ap (λ x. to_le_bytes (length body) ++ x) (append-nil body)) refl

  -- A longer frame is refused, and nothing of it goes out.
  pub send_frame_too_long :
      (frame : T) (body : Bytes) (s : S.State)
      → c.to_vec frame ≡ coded body
      → frame_limit < length body
      → send_frame S c frame s ≡ (err (phase transfer "frame exceeds FRAME_LIMIT"), s)
  unfolding send_frame
  send_frame_too_long frame body s e h = rw (e, send_body, lt→ltb frame_limit (length body) h)

  -- After the four bytes of a length, what `recv_frame` still has to do.
  record Header (s : S.State) (len_buf more : Bytes) : Type 0 where
    behind : S.State
    read : recv_frame S c s ≡ after_length S c (filled len_buf, behind)
    input : pending behind ≡ more
    output : sent behind ≡ sent s

  header :
      (s : S.State) → 4 ≤ length (pending s) → Header s (take 4 (pending s)) (drop 4 (pending s))
  unfolding recv_frame
  header s h =
      let (t, got, left, same) = R.read_exact_all 4 s h in
      record { behind = t; read = ap (after_length S c) got; input = left; output = same }

  header_of :
      (s : S.State) (n : ℕ) (more : Bytes)
      → pending s ≡ to_le_bytes n ++ more
      → Header s (to_le_bytes n) more
  header_of s n more p = rw p at (header s (rw p (omega arith)))

  after_length_within :
      (n : ℕ) (s : S.State)
      → n ≤ frame_limit
      → after_length S c (filled (to_le_bytes n), s)
        ≡ continue (parse_body S c) (read_exact_idle S n s)
  unfolding after_length
  after_length_within n s h =
      rw (from_le_bytes-to_le_bytes n (omega arith), ltb-false frame_limit n h) refl

  -- A frame whose length and body are on their way is received, and no byte behind it is read.
  pub recv_frame-Does :
      (frame : T) (body rest : Bytes) (s : S.State)
      → pending s ≡ framed body ++ rest
      → length body ≤ frame_limit
      → c.from_slice body ≡ coded frame
      → Does view (recv_frame S c s) s (some frame) rest [] none
  unfolding parse_body
  recv_frame-Does frame body rest s p h e =
      let hd = header_of s (length body) (body ++ rest) p in
      let payload = read_block-Does S R body rest hd.behind hd.input in
      record {
        last = payload.last;
        result =
            hd.read
            ∙ after_length_within (length body) hd.behind h
            ∙ ap (continue (parse_body S c)) payload.result
            ∙ rw (e, parse_body) refl;
        input = payload.input;
        output = payload.output ∙ ap (λ x. x ++ []) hd.output;
        counted = refl;
      }

  payload_refines :
      (n : ℕ) (s : S.State)
      → (continue (parse_body S c) (read_exact_idle S n s)).0 ≡ parse_payload c n (pending s)
  unfolding parse_body parse_payload decode
  payload_refines n s = elim (Bool-cases (ltb (length (pending s)) n)) [
    | inl short ↦ rw short (
        failed (read_exact_idle S n s)
          (read_exact_idle_short S R n s (ltb→lt (length (pending s)) n short)))
    | inr long ↦
        let d = read_exact_idle-Does S R n s (ltb-false→le (length (pending s)) n long) in
        rw (long, d.result)
          (parsed (c.from_slice (take n (pending s))) d.last (take n (pending s)) refl)
  ]
    where
      failed :
          (r : Result Bytes × S.State) {x : BackupError}
          → r.0 ≡ err x
          → (continue (parse_body S c) r).0 ≡ err x
      failed (ok a, t) q = absurd (cc)
      failed (err y, t) q = cc

      parsed :
          (x : Coded T) (t : S.State) (body : Bytes)
          → c.from_slice body ≡ x
          → (parse_body S c body t).0 ≡ decode c x
      parsed (coded frame) t body q = rw (q, parse_body) refl
      parsed (refused e) t body q = rw (q, parse_body) refl

  after_length_refines :
      (len_buf : Bytes) (s : S.State)
      → (after_length S c (filled len_buf, s)).0 ≡ (
          if ltb frame_limit (from_le_bytes len_buf)
          then err (phase transfer "incoming frame too large")
          else parse_payload c (from_le_bytes len_buf) (pending s))
  unfolding after_length
  after_length_refines len_buf s = elim (Bool-cases (ltb frame_limit (from_le_bytes len_buf))) [
    | inl big ↦ rw big refl
    | inr small ↦ rw small (payload_refines (from_le_bytes len_buf) s)
  ]

  -- On any healthy stream, however it cuts the bytes into reads, `recv_frame` gives what the frame
  -- format says of all the bytes that are still to come: no frame, a frame, or one of the errors.
  pub recv_frame-parse_frame : (s : S.State) → (recv_frame S c s).0 ≡ parse_frame c (pending s)
  unfolding parse_frame
  recv_frame-parse_frame s = elim (Bool-cases (ltb (length (pending s)) 4)) [
    | inl short ↦
        let (t, e, _, _) = R.read_exact_short 4 s (ltb→lt (length (pending s)) 4 short) in
        rw short (unfold recv_frame after_length in ap (λ r. (after_length S c r).0) e)
    | inr long ↦
        let hd = header s (ltb-false→le (length (pending s)) 4 long) in
        rw long (
          ap (λ r. r.0) hd.read
          ∙ after_length_refines (take 4 (pending s)) hd.behind
          ∙ rw hd.input refl)
  ]

  -- A stream that ends before or inside the length of a frame gives no frame and no error.
  pub recv_frame_end-Does :
      (s : S.State) → length (pending s) < 4 → Does view (recv_frame S c s) s none [] [] none
  unfolding recv_frame after_length
  recv_frame_end-Does s h =
      let (t, e, left, same) = R.read_exact_short 4 s h in
      record {
        last = t;
        result = ap (after_length S c) e;
        input = left;
        output = same ∙ sym (append-nil _);
        counted = refl;
      }
