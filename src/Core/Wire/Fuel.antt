-- ===== src/Core/Wire/Fuel.antt =====
-- The loops of crates/rb-core/src/wire.rs without their turns, on any stream.
pub mod Runs
use rust_backup.Prelude.{
  ℕ, zero, suc, ◌-◌, ◌≤◌, ◌≡◌, refl, [], ◌∷◌, ◌++◌, arith, length, drop, length-drop,
}
use rust_backup.Core.Error.{ok, Action}
use rust_backup.Core.Wire.{
  Bytes, Stream, Io, ready, fault, timed_out, write_loop, after_write, write_all_idle, read_loop,
  after_read, read_exact_idle,
}

module _ (S : Stream) where
  -- One turn asks the rest of the loop only about a shorter buffer.
  write_turn :
      (f g : Bytes → Action S.State (Unit {0})) (b : ℕ) (bs : Bytes) (r : Io ℕ × S.State)
      → ((k : ℕ) (t : S.State) → f (drop k bs) t ≡ g (drop k bs) t)
      → after_write S f (b ∷ bs) r ≡ after_write S g (b ∷ bs) r
  unfolding after_write
  write_turn f g b bs (timed_out, t) same = refl
  write_turn f g b bs (fault e, t) same = refl
  write_turn f g b bs (ready zero, t) same = refl
  write_turn f g b bs (ready (suc k), t) same = same k t

  -- Two numbers of turns that are both enough make no difference.
  write_loop_turns :
      (m n : ℕ) (buf : Bytes) (s : S.State)
      → length buf ≤ m
      → length buf ≤ n
      → write_loop S m buf s ≡ write_loop S n buf s
  unfolding write_loop
  write_loop_turns zero zero buf s p q = refl
  write_loop_turns zero (suc n) [] s p q = refl
  write_loop_turns zero (suc n) (b ∷ bs) s p q = absurd (omega arith)
  write_loop_turns (suc m) zero [] s p q = refl
  write_loop_turns (suc m) zero (b ∷ bs) s p q = absurd (omega arith)
  write_loop_turns (suc m) (suc n) [] s p q = refl
  write_loop_turns (suc m) (suc n) (b ∷ bs) s p q =
      write_turn (write_loop S m) (write_loop S n) b bs (S.write (b ∷ bs) s) λ k t.
        write_loop_turns m n (drop k bs) t (omega (arith, length-drop {0} k bs))
          (omega (arith, length-drop {0} k bs))

  -- Whatever the stream does, `write_all_idle` never stops for want of turns: with no bytes left it
  -- succeeds, and otherwise it is one turn of the loop behind which it goes on by itself.
  pub write_all_idle_loop :
      (b : ℕ) (bs : Bytes) (s : S.State)
      → (write_all_idle S [] s ≡ (ok tt, s))
        × (write_all_idle S (b ∷ bs) s
            ≡ after_write S (write_all_idle S) (b ∷ bs) (S.write (b ∷ bs) s))
  unfolding write_all_idle write_loop
  write_all_idle_loop b bs s = (
    refl,
    write_turn (write_loop S (length bs)) (write_all_idle S) b bs (S.write (b ∷ bs) s) λ k t.
        write_loop_turns (length bs) (length (drop k bs)) (drop k bs) t
          (omega (arith, length-drop {0} k bs)) (omega arith),
  )

  read_turn :
      (f g : ℕ → Bytes → Action S.State Bytes) (k : ℕ) (got : Bytes) (r : Io Bytes × S.State)
      → ((j : ℕ) (more : Bytes) (t : S.State) → j ≤ k → f j more t ≡ g j more t)
      → after_read S f (suc k) got r ≡ after_read S g (suc k) got r
  unfolding after_read
  read_turn f g k got (timed_out, t) same = refl
  read_turn f g k got (fault e, t) same = refl
  read_turn f g k got (ready [], t) same = refl
  read_turn f g k got (ready (b ∷ bs), t) same =
      same (suc k - length (b ∷ bs)) (got ++ (b ∷ bs)) t (omega arith)

  read_loop_turns :
      (m n k : ℕ) (got : Bytes) (s : S.State)
      → k ≤ m
      → k ≤ n
      → read_loop S m k got s ≡ read_loop S n k got s
  unfolding read_loop
  read_loop_turns zero n zero got s p q = ground arith
  read_loop_turns (suc m) n zero got s p q = ground arith
  read_loop_turns zero n (suc k) got s p q = absurd (omega arith)
  read_loop_turns (suc m) zero (suc k) got s p q = absurd (omega arith)
  read_loop_turns (suc m) (suc n) (suc k) got s p q =
      read_turn (read_loop S m) (read_loop S n) k got (S.read (suc k) s)
        λ j more t h. read_loop_turns m n j more t (omega arith) (omega arith)

  -- The loop of `read_exact_idle` with `k` bytes still to read behind those it has got.
  pub read_on : ℕ → Bytes → Action S.State Bytes
  read_on k got = read_loop S k k got

  -- Whatever the stream does, `read_exact_idle` never stops for want of turns: it is the loop that is
  -- done with nothing left to read, and otherwise takes one turn behind which it goes on by itself.
  pub read_exact_idle_loop :
      (n k : ℕ) (got : Bytes) (s : S.State)
      → (read_exact_idle S n s ≡ read_on n [] s)
        × (read_on 0 got s ≡ (ok got, s))
        × (read_on (suc k) got s ≡ after_read S read_on (suc k) got (S.read (suc k) s))
  unfolding read_exact_idle read_on read_loop
  read_exact_idle_loop n k got s = (
    refl,
    refl,
    read_turn (read_loop S k) read_on k got (S.read (suc k) s)
        λ j more t h. read_loop_turns k j j more t h (omega arith),
  )
