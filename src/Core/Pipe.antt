-- ===== src/Core/Pipe.antt =====
-- A stream in memory: an inbox, an outbox, and a bound on the bytes that one call moves. It keeps the
-- promises of `IsReliable`, so that the theorems about healthy streams can be met and run.
use rust_backup.Prelude.{
  ℕ, zero, suc, ◌≤◌, ◌≡◌, refl, ap, none, [], ◌∷◌, ◌++◌, arith, length, take, drop, ltb, lt→ltb,
  ltb-false, if◌then◌else◌, min,
}
use rust_backup.Core.Wire.{Bytes, Stream, Io, ready, ReadExact, filled, unexpected_eof}
use rust_backup.Core.Wire.Reliable.{IsReliable}

pub record Pipe : Type 0 where
  pub inbox : Bytes
  pub outbox : Bytes

-- `step` bytes and one more at most in one call.
unfoldable pub read_some : ℕ → ℕ → Bytes → Bytes → Io Bytes × Pipe
read_some step k [] out = (ready [], record { inbox = []; outbox = out })
read_some step k (b ∷ bs) out =
    let n = min (min step k) (length bs) in
    (ready (b ∷ take n bs), record { inbox = drop n bs; outbox = out })

unfoldable pub read_pipe : ℕ → ℕ → Pipe → Io Bytes × Pipe
read_pipe step zero p = (ready [], p)
read_pipe step (suc k) p = read_some step k p.inbox p.outbox

unfoldable pub write_pipe : ℕ → Bytes → Pipe → Io ℕ × Pipe
write_pipe step [] p = (ready 0, p)
write_pipe step (b ∷ bs) p = (
  ready (suc (min step (length bs))),
  record p { outbox = p.outbox ++ take (suc (min step (length bs))) (b ∷ bs) },
)

unfoldable pub read_exact_pipe : ℕ → Pipe → ReadExact × Pipe
read_exact_pipe n p =
    if ltb (length p.inbox) n
    then (unexpected_eof, record p { inbox = [] })
    else (filled (take n p.inbox), record p { inbox = drop n p.inbox })

abbrev pub pipe : ℕ → Stream
pipe step = record {
  State = Pipe;
  read = read_pipe step;
  read_exact = read_exact_pipe;
  write = write_pipe step;
  flush = λ p. (none, p);
}

pub read_pipe-some :
    (step k b : ℕ) (bs : Bytes) (p : Pipe)
    → p.inbox ≡ b ∷ bs
    → (n : ℕ) × (t : Pipe) × (read_pipe step (suc k) p ≡ (ready (b ∷ take n bs), t))
      × (n ≤ k)
      × (n ≤ length bs)
      × (t.inbox ≡ drop n bs)
      × (t.outbox ≡ p.outbox)
unfolding read_pipe read_some
read_pipe-some step k b bs p e =
    let n = min (min step k) (length bs) in
    (
      n,
      record { inbox = drop n bs; outbox = p.outbox },
      ap (λ x. read_some step k x p.outbox) e,
      omega arith,
      omega arith,
      refl,
      refl,
    )

unfoldable pub pipe-IsReliable : (step : ℕ) → IsReliable (pipe step)
unfolding read_pipe read_some write_pipe read_exact_pipe
pipe-IsReliable step = record {
  pending = λ p. p.inbox;
  sent = λ p. p.outbox;
  write_some = λ b bs s. (min step (length bs), _, refl, refl, refl);
  flush_done = λ s. (s, refl, refl, refl);
  read_some = read_pipe-some step;
  read_end = λ k s e. (
    record { inbox = []; outbox = s.outbox },
    ap (λ x. read_some step k x s.outbox) e,
    refl,
    refl,
  );
  read_exact_all = λ n s h.
      (record s { inbox = drop n s.inbox }, rw (ltb-false (length s.inbox) n h) refl, refl, refl);
  read_exact_short =
      λ n s h. (record s { inbox = [] }, rw (lt→ltb (length s.inbox) n h) refl, refl, refl);
}
