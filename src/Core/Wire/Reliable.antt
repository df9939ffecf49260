-- ===== src/Core/Wire/Reliable.antt =====
-- A stream that keeps its promises, and what the loops of crates/rb-core/src/wire.rs do on it.
use rust_backup.Prelude.{
  ℕ, zero, suc, ◌-◌, ◌≤◌, ◌<◌, ◌≡◌, refl, ap, sym, ◌∙◌, Option, none, [], ◌∷◌, ◌++◌, append-nil,
  append_assoc, arith, length, take, drop, length-take, length-drop, take-append-drop, take-split,
  drop-split, length-append, take-append_left, drop-append_left,
}
use rust_backup.Core.Error.{err, ok, transfer, phase}
use rust_backup.Core.Progress.{Progress}
use rust_backup.Core.Wire.Tape.{Tape, Does, pure-Does}
use rust_backup.Core.Wire.{
  Bytes, Stream, ready, filled, unexpected_eof, after_write, write_loop, write_all_idle, after_read,
  read_loop, read_exact_idle,
}

-- The documented behaviour of a healthy tokio stream whose peer writes `pending` and then closes:
-- `pending` are the bytes that this end has yet to read, `sent` those that it has written. A read or
-- a write may move fewer bytes than it could; a read of no bytes is the end of the stream.
pub record IsReliable (S : Stream) : Type 0 where
  pub pending : S.State → Bytes
  pub sent : S.State → Bytes
  pub write_some :
      (b : ℕ) (bs : Bytes) (s : S.State)
      → (n : ℕ) × (t : S.State) × (S.write (b ∷ bs) s ≡ (ready (suc n), t))
        × (sent t ≡ sent s ++ take (suc n) (b ∷ bs))
        × (pending t ≡ pending s)
  pub flush_done :
      (s : S.State)
      → (t : S.State) × (S.flush s ≡ (none, t)) × (sent t ≡ sent s) × (pending t ≡ pending s)
  pub read_some :
      (k b : ℕ) (bs : Bytes) (s : S.State)
      → pending s ≡ b ∷ bs
      → (n : ℕ) × (t : S.State) × (S.read (suc k) s ≡ (ready (b ∷ take n bs), t))
        × (n ≤ k)
        × (n ≤ length bs)
        × (pending t ≡ drop n bs)
        × (sent t ≡ sent s)
  pub read_end :
      (k : ℕ) (s : S.State)
      → pending s ≡ []
      → (t : S.State) × (S.read (suc k) s ≡ (ready [], t)) × (pending t ≡ []) × (sent t ≡ sent s)
  pub read_exact_all :
      (n : ℕ) (s : S.State)
      → n ≤ length (pending s)
      → (t : S.State) × (S.read_exact n s ≡ (filled (take n (pending s)), t))
        × (pending t ≡ drop n (pending s))
        × (sent t ≡ sent s)
  pub read_exact_short :
      (n : ℕ) (s : S.State)
      → length (pending s) < n
      → (t : S.State) × (S.read_exact n s ≡ (unexpected_eof, t))
        × (pending t ≡ [])
        × (sent t ≡ sent s)

module _ (S : Stream) (R : IsReliable S) where
  open R use {pending, sent}

  -- What is seen of a bare stream, which counts nothing.
  abbrev pub tape : Tape S.State (Option Progress)
  tape = record { pending = pending; sent = sent; note = λ _. none }

  write_loop-Does :
      (turns : ℕ) (buf : Bytes) (s : S.State)
      → length buf ≤ turns
      → Does tape (write_loop S turns buf s) s tt (pending s) buf none
  unfolding write_loop after_write
  write_loop-Does zero [] s h = pure-Does tape tt s
  write_loop-Does zero (b ∷ bs) s h = absurd (omega arith)
  write_loop-Does (suc turns) [] s h = pure-Does tape tt s
  write_loop-Does (suc turns) (b ∷ bs) s h =
      let (n, t, e, out, same) = R.write_some b bs s in
      let rest = write_loop-Does turns (drop n bs) t (omega (arith, length-drop n bs)) in
      record {
        last = rest.last;
        result = rw e rest.result;
        input = rest.input ∙ same;
        output =
            rest.output
            ∙ ap (λ x. x ++ drop n bs) out
            ∙ append_assoc (sent s) (b ∷ take n bs) (drop n bs)
            ∙ ap (λ x. sent s ++ (b ∷ x)) (take-append-drop n bs);
        counted = refl;
      }

  -- On a healthy stream the write loop ends, and every byte of the buffer has gone out in order.
  pub write_all_idle-Does :
      (buf : Bytes) (s : S.State) → Does tape (write_all_idle S buf s) s tt (pending s) buf none
  unfolding write_all_idle
  write_all_idle-Does buf s = write_loop-Does (length buf) buf s (omega arith)

  read_loop_short :
      (turns k : ℕ) (got ready_bytes : Bytes) (s : S.State)
      → k ≤ turns
      → pending s ≡ ready_bytes
      → length ready_bytes < k
      → (read_loop S turns k got s).0 ≡ err (phase transfer "unexpected EOF mid-frame")
  unfolding read_loop after_read
  read_loop_short turns zero got p s h e le = absurd (omega arith)
  read_loop_short zero (suc k) got p s h e le = absurd (omega arith)
  read_loop_short (suc turns) (suc k) got [] s h e le =
      let (t, step, _, _) = R.read_end k s e in
      ap (λ r. (after_read S (read_loop S turns) (suc k) got r).0) step
  read_loop_short (suc turns) (suc k) got (b ∷ bs) s h e le =
      let (n, t, step, below, fits, left, same) = R.read_some k b bs s e in
      let long : length (take n bs) ≡ n = omega (arith, length-take n bs) in
      let fewer : suc k - suc (length (take n bs)) ≡ k - n = omega arith in
      ap (λ r. (after_read S (read_loop S turns) (suc k) got r).0) step
      ∙ ap (λ m. (read_loop S turns m (got ++ (b ∷ take n bs)) t).0) fewer
      ∙ read_loop_short turns (k - n) (got ++ (b ∷ take n bs)) (drop n bs) t (omega arith) left
          (omega (arith, length-drop n bs))

  -- A peer that closes too early is an error, never a short result.
  pub read_exact_idle_short :
      (n : ℕ) (s : S.State)
      → length (pending s) < n
      → (read_exact_idle S n s).0 ≡ err (phase transfer "unexpected EOF mid-frame")
  unfolding read_exact_idle
  read_exact_idle_short n s h = read_loop_short n n [] (pending s) s (omega arith) refl h

  read_loop-Does :
      (turns k : ℕ) (got ready_bytes : Bytes) (s : S.State)
      → k ≤ turns
      → pending s ≡ ready_bytes
      → k ≤ length ready_bytes
      → Does tape
          (read_loop S turns k got s)
          s
          (got ++ take k ready_bytes)
          (drop k ready_bytes)
          []
          none
  unfolding read_loop after_read
  read_loop-Does turns zero got p s h e le = record {
    last = s;
    result = rw append-nil;
    input = e;
    output = sym (append-nil _);
    counted = refl;
  }
  read_loop-Does zero (suc k) got p s h e le = absurd (omega arith)
  read_loop-Does (suc turns) (suc k) got [] s h e le = absurd (omega arith)
  read_loop-Does (suc turns) (suc k) got (b ∷ bs) s h e le =
      let (n, t, step, below, fits, left, same) = R.read_some k b bs s e in
      let long : length (take n bs) ≡ n = omega (arith, length-take n bs) in
      let fewer : suc k - suc (length (take n bs)) ≡ k - n = omega arith in
      let rest =
        read_loop-Does turns (k - n) (got ++ (b ∷ take n bs)) (drop n bs) t (omega arith) left
          (omega (arith, length-drop n bs)) in
      record {
        last = rest.last;
        result =
            ap (after_read S (read_loop S turns) (suc k) got) step
            ∙ ap (λ m. read_loop S turns m (got ++ (b ∷ take n bs)) t) fewer
            ∙ rest.result
            ∙ ap (λ x. (ok x, rest.last))
                (append_assoc got (b ∷ take n bs) (take (k - n) (drop n bs)))
            ∙ ap (λ x. (ok (got ++ (b ∷ x)), rest.last)) (take-split n k bs below);
        input = rest.input ∙ drop-split n k bs below;
        output = rest.output ∙ ap (λ x. x ++ []) same;
        counted = refl;
      }

  -- The read loop ends with exactly the bytes asked for, if that many are on their way.
  pub read_exact_idle-Does :
      (n : ℕ) (s : S.State)
      → n ≤ length (pending s)
      → Does tape (read_exact_idle S n s) s (take n (pending s)) (drop n (pending s)) [] none
  unfolding read_exact_idle
  read_exact_idle-Does n s h = read_loop-Does n n [] (pending s) s (omega arith) refl h

  -- So a block that stands next on the wire is read as it is.
  pub read_block-Does :
      (block rest : Bytes) (s : S.State)
      → pending s ≡ block ++ rest
      → Does tape (read_exact_idle S (length block) s) s block rest [] none
  read_block-Does block rest s p =
      let d =
        read_exact_idle-Does (length block) s (rw p (omega (arith, length-append block rest))) in
      record {
        last = d.last;
        result =
            d.result
            ∙ ap (λ x. (ok x, d.last)) (ap (take (length block)) p ∙ take-append_left block rest);
        input = d.input ∙ ap (drop (length block)) p ∙ drop-append_left block rest;
        output = d.output;
        counted = d.counted;
      }
