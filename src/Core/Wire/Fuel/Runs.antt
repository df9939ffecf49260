-- ===== src/Core/Wire/Fuel/Runs.antt =====
-- To what end the loops of crates/rb-core/src/wire.rs come, on any stream.
use rust_backup.Prelude.{
  ℕ, zero, suc, ◌-◌, ◌≤◌, ◌≡◌, ◌↔◌, refl, ap, subst, ◌∙◌, String, [], ◌∷◌, ◌++◌, arith, length,
  drop, length-drop,
}
use rust_backup.Core.Error.{Result, ok, err, Action, transfer, phase, phase_src}
use rust_backup.Core.Wire.{
  Bytes, Stream, Io, ready, fault, timed_out, write_loop, after_write, write_all_idle, read_loop,
  after_read, read_exact_idle,
}
use rust_backup.Core.Wire.Fuel.{write_all_idle_loop, read_on, read_exact_idle_loop}

module _ (S : Stream) where
  -- What becomes of a buffer that is to be written, turn by turn: a stream that takes bytes is offered
  -- the rest of them, and one that is idle, breaks or takes none ends it with an error.
  pub data Writes : Bytes → S.State → Result (Unit {0}) → S.State → Type 0 where
    all_written : {s : S.State} → Writes [] s (ok tt) s
    takes :
        {b k : ℕ} {bs : Bytes} {s t u : S.State} {r : Result (Unit {0})}
        → S.write (b ∷ bs) s ≡ (ready (suc k), t)
        → Writes (drop (suc k) (b ∷ bs)) t r u
        → Writes (b ∷ bs) s r u
    takes_none :
        {b : ℕ} {bs : Bytes} {s t : S.State}
        → S.write (b ∷ bs) s ≡ (ready zero, t)
        → Writes (b ∷ bs) s (err (phase transfer "write returned 0 (peer closed)")) t
    write_breaks :
        {b : ℕ} {bs : Bytes} {s t : S.State} {e : String}
        → S.write (b ∷ bs) s ≡ (fault e, t)
        → Writes (b ∷ bs) s (err (phase_src transfer "write" e)) t
    write_idles :
        {b : ℕ} {bs : Bytes} {s t : S.State}
        → S.write (b ∷ bs) s ≡ (timed_out, t)
        → Writes (b ∷ bs) s (err (phase transfer "write idle timeout")) t

  -- What becomes of a number of bytes that are to be read behind those that there are.
  pub data Reads : ℕ → Bytes → S.State → Result Bytes → S.State → Type 0 where
    all_read : {got : Bytes} {s : S.State} → Reads 0 got s (ok got) s
    gives :
        {k b : ℕ} {bs got : Bytes} {s t u : S.State} {r : Result Bytes}
        → S.read (suc k) s ≡ (ready (b ∷ bs), t)
        → Reads (suc k - length (b ∷ bs)) (got ++ (b ∷ bs)) t r u
        → Reads (suc k) got s r u
    ends_early :
        {k : ℕ} {got : Bytes} {s t : S.State}
        → S.read (suc k) s ≡ (ready [], t)
        → Reads (suc k) got s (err (phase transfer "unexpected EOF mid-frame")) t
    read_breaks :
        {k : ℕ} {got : Bytes} {s t : S.State} {e : String}
        → S.read (suc k) s ≡ (fault e, t)
        → Reads (suc k) got s (err (phase_src transfer "read" e)) t
    read_idles :
        {k : ℕ} {got : Bytes} {s t : S.State}
        → S.read (suc k) s ≡ (timed_out, t)
        → Reads (suc k) got s (err (phase transfer "read idle timeout")) t

  write_turn-Writes :
      (more : Bytes → Action S.State (Unit {0})) (b : ℕ) (bs : Bytes) (s : S.State)
      (r : Io ℕ × S.State)
      → S.write (b ∷ bs) s ≡ r
      → ((k : ℕ) (t : S.State) → Writes (drop k bs) t (more (drop k bs) t).0 (more (drop k bs) t).1)
      → Writes (b ∷ bs) s (after_write S more (b ∷ bs) r).0 (after_write S more (b ∷ bs) r).1
  unfolding after_write
  write_turn-Writes more b bs s (timed_out, t) e rest = write_idles e
  write_turn-Writes more b bs s (fault x, t) e rest = write_breaks e
  write_turn-Writes more b bs s (ready zero, t) e rest = takes_none e
  write_turn-Writes more b bs s (ready (suc k), t) e rest = takes e (rest k t)

  write_loop-Writes :
      (turns : ℕ) (buf : Bytes) (s : S.State)
      → length buf ≤ turns
      → Writes buf s (write_loop S turns buf s).0 (write_loop S turns buf s).1
  unfolding write_loop
  write_loop-Writes zero [] s p = all_written
  write_loop-Writes (suc turns) [] s p = all_written
  write_loop-Writes zero (b ∷ bs) s p = absurd (omega arith)
  write_loop-Writes (suc turns) (b ∷ bs) s p =
      write_turn-Writes (write_loop S turns) b bs s (S.write (b ∷ bs) s) refl
        λ k t. write_loop-Writes turns (drop k bs) t (omega (arith, length-drop {0} k bs))

  read_turn-Reads :
      (more : ℕ → Bytes → Action S.State Bytes) (k : ℕ) (got : Bytes) (s : S.State)
      (r : Io Bytes × S.State)
      → S.read (suc k) s ≡ r
      → ((j : ℕ) (had : Bytes) (t : S.State)
          → j ≤ k
          → Reads j had t (more j had t).0 (more j had t).1)
      → Reads (suc k) got s (after_read S more (suc k) got r).0 (after_read S more (suc k) got r).1
  unfolding after_read
  read_turn-Reads more k got s (timed_out, t) e rest = read_idles e
  read_turn-Reads more k got s (fault x, t) e rest = read_breaks e
  read_turn-Reads more k got s (ready [], t) e rest = ends_early e
  read_turn-Reads more k got s (ready (b ∷ bs), t) e rest =
      gives e (rest (suc k - length (b ∷ bs)) (got ++ (b ∷ bs)) t (omega arith))

  read_loop-Reads :
      (turns k : ℕ) (got : Bytes) (s : S.State)
      → k ≤ turns
      → Reads k got s (read_loop S turns k got s).0 (read_loop S turns k got s).1
  unfolding read_loop
  read_loop-Reads zero zero got s p = all_read
  read_loop-Reads (suc turns) zero got s p = all_read
  read_loop-Reads zero (suc k) got s p = absurd (omega arith)
  read_loop-Reads (suc turns) (suc k) got s p =
      read_turn-Reads (read_loop S turns) k got s (S.read (suc k) s) refl
        λ j had t h. read_loop-Reads turns j had t (omega arith)

  Writes-write_all_idle :
      {buf : Bytes} {s t : S.State} {r : Result (Unit {0})}
      → Writes buf s r t
      → write_all_idle S buf s ≡ (r, t)
  unfolding after_write
  Writes-write_all_idle {s = s} all_written = (write_all_idle_loop S 0 [] s).0
  Writes-write_all_idle {s = s} (takes {b} {bs = bs} e rest) =
      (write_all_idle_loop S b bs s).1
      ∙ ap (after_write S (write_all_idle S) (b ∷ bs)) e
      ∙ Writes-write_all_idle rest
  Writes-write_all_idle {s = s} (takes_none {b} {bs} e) =
      (write_all_idle_loop S b bs s).1 ∙ ap (after_write S (write_all_idle S) (b ∷ bs)) e
  Writes-write_all_idle {s = s} (write_breaks {b} {bs} e) =
      (write_all_idle_loop S b bs s).1 ∙ ap (after_write S (write_all_idle S) (b ∷ bs)) e
  Writes-write_all_idle {s = s} (write_idles {b} {bs} e) =
      (write_all_idle_loop S b bs s).1 ∙ ap (after_write S (write_all_idle S) (b ∷ bs)) e

  Reads-read_on :
      {k : ℕ} {got : Bytes} {s t : S.State} {r : Result Bytes}
      → Reads k got s r t
      → read_on S k got s ≡ (r, t)
  unfolding after_read
  Reads-read_on {got = got} {s} all_read = (read_exact_idle_loop S 0 0 got s).1
  Reads-read_on {got = got} {s} (gives {k} e rest) =
      (read_exact_idle_loop S 0 k got s).2
      ∙ ap (after_read S (read_on S) (suc k) got) e
      ∙ Reads-read_on rest
  Reads-read_on {got = got} {s} (ends_early {k} e) =
      (read_exact_idle_loop S 0 k got s).2 ∙ ap (after_read S (read_on S) (suc k) got) e
  Reads-read_on {got = got} {s} (read_breaks {k} e) =
      (read_exact_idle_loop S 0 k got s).2 ∙ ap (after_read S (read_on S) (suc k) got) e
  Reads-read_on {got = got} {s} (read_idles {k} e) =
      (read_exact_idle_loop S 0 k got s).2 ∙ ap (after_read S (read_on S) (suc k) got) e

  -- Whatever the stream does, `write_all_idle` comes to exactly the end that the turns of `Writes`
  -- describe, and `read_exact_idle` to that of `Reads`: neither stops for want of turns, a call that is
  -- idle, breaks or moves nothing ends the loop with its own error, and the loop succeeds only when no
  -- byte is left.
  pub idle_loops-Ends :
      (buf : Bytes) (n : ℕ) (s t u : S.State) (r : Result (Unit {0})) (got : Result Bytes)
      → ((write_all_idle S buf s ≡ (r, t)) ↔ Writes buf s r t)
        × ((read_exact_idle S n s ≡ (got, u)) ↔ Reads n [] s got u)
  unfolding write_all_idle read_exact_idle read_on
  idle_loops-Ends buf n s t u r got = (
    (
      λ h. subst (λ x. Writes buf s x.0 x.1) h (write_loop-Writes (length buf) buf s (omega arith)),
      Writes-write_all_idle,
    ),
    (
      λ h. subst (λ x. Reads n [] s x.0 x.1) h (read_loop-Reads n n [] s (omega arith)),
      Reads-read_on,
    ),
  )
