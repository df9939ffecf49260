-- ===== src/Transport/Paired/Marker.antt =====
-- The ready marker of crates/rb-transport/src/channel.rs on a healthy substream.
use rust_backup.Prelude.{
  ℕ, ◌≡◌, refl, ap, ◌∙◌, some, [], ◌∷◌, take, ◌==◌, if◌then◌else◌, Bool-cases, inl, inr, arith,
}
use rust_backup.Core.Error.{ok, err, connect, phase}
use rust_backup.Core.Wire.{Bytes, Stream, filled}
use rust_backup.Core.Wire.Reliable.{IsReliable}
use rust_backup.Transport.Paired.{
  stream_ready, Mux, source, check_marker, after_accept, accept_stream,
}

module _ (S : Stream) (R : IsReliable S) (C : Type 0) (mux : Mux S C) where
  open R use {pending, sent}

  -- A source that is handed a healthy substream with a first byte takes this byte alone off it: the
  -- substream goes to the session if the byte is the ready marker, and is an error of the connection
  -- otherwise.
  pub accept_stream_marker :
      (k k' : C) (s : S.State) (m : ℕ) (rest : Bytes)
      → mux.accept k ≡ (some s, k')
      → pending s ≡ m ∷ rest
      → (t : S.State) × (accept_stream S C mux source k ≡ (
        (if m == stream_ready then ok t else err (phase connect "invalid stream ready marker")),
        k',
      ))
        × (pending t ≡ rest)
        × (sent t ≡ sent s)
  unfolding accept_stream
  accept_stream_marker k k' s m rest handed p =
      let (t, got, left, same) = R.read_exact_all 1 s (rw p (omega arith)) in
      (
        t,
        ap (after_accept S C mux) handed
            ∙ ap (check_marker S C mux k') got
            ∙ ap (λ b. check_marker S C mux k' (filled (take 1 b), t)) p
            ∙ decide t,
        left ∙ rw p refl,
        same,
      )
    where
      decide :
          (t : S.State)
          → check_marker S C mux k' (filled (m ∷ []), t) ≡ (
            (if m == stream_ready then ok t else err (phase connect "invalid stream ready marker")),
            k',
          )
      decide t = elim (Bool-cases (m == stream_ready)) [ inl e ↦ rw e refl | inr e ↦ rw e refl ]
