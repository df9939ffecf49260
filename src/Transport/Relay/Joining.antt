-- ===== src/Transport/Relay/Joining.antt =====
-- What a relay of crates/rb-transport/src/server.rs does with a healthy consumer.
use rust_backup.Prelude.{ℕ, ◌≡◌, refl, ap, ◌∙◌, String, none, some, [], ◌∷◌, arith}
use rust_backup.Core.Error.{success}
use rust_backup.Core.Wire.{Bytes, Stream}
use rust_backup.Core.Wire.Reliable.{IsReliable}
use rust_backup.Transport.Paired.{stream_ready}
use rust_backup.Transport.Pool.{CarrierPool, pick}
use rust_backup.Transport.Relay.{Driver, ready_provider, join, with_opener, behind_marker, relay}

module _ {Opener : Type 0} (S : Stream) (R : IsReliable S) (D : Driver Opener) where
  open R use {pending, sent}

  -- The relay of a consumer whose substream begins with a byte, whichever it is, and whose provider
  -- opens a substream that takes the ready marker: this byte is dropped, the marker is written in its
  -- place, and what the consumer sends behind it is left for the copy. The pool has taken its turn.
  pub relay_joins :
      (id : String) (pool : CarrierPool Opener) (s : S.State) (w w' : D.State) (o : Opener)
      (p p' : D.Provider) (m : ℕ) (rest : Bytes)
      → pending s ≡ m ∷ rest
      → (pick pool).0 ≡ some o
      → D.open_next o w ≡ (success p, w')
      → D.write_all (stream_ready ∷ []) p ≡ (none, p')
      → (t : S.State) × (relay S D id (some pool) s w
          ≡ record { joined = success (t, p'); pool = some (pick pool).1; driver = w' })
        × (pending t ≡ rest)
        × (sent t ≡ sent s)
  unfolding relay
  relay_joins id pool s w w' o p p' m rest begins picked opened wrote =
      let (t, got, left, same) = R.read_exact_all 1 s (rw begins (omega arith)) in
      (
        t,
        ap (behind_marker S D id w (some pool)) got
            ∙ ap (λ x. with_opener S D t w (x, (pick pool).1)) picked
            ∙ ap (join S D t (pick pool).1) opened
            ∙ ap
                (λ x. record {
                  joined = ready_provider S D t x;
                  pool = some (pick pool).1;
                  driver = w';
                })
                wrote,
        left ∙ rw begins refl,
        same,
      )
