-- ===== src/Transport/Connection/Delegation.antt =====
-- Rows of calls on `ControlStream` of crates/rb-transport/src/transport.rs, against those on the stream
-- inside it.
use rust_backup.Prelude.{ℕ, ◌≡◌, refl, ap, ◌∙◌, String, Bool, Option, List, [], ◌∷◌}
use rust_backup.Core.Error.{Outcome}
use rust_backup.Core.Wire.{Bytes}
use rust_backup.Transport.Connection.{
  Socket, ControlStream, plain, tls, as_plain, as_tls, poll_read, poll_write, poll_flush,
  poll_shutdown, poll_write_vectored, is_write_vectored, control_stream,
}

pub data Operation : Type 0 where
  read : ℕ → Operation
  write : Bytes → Operation
  flush shutdown : Operation
  write_vectored : List Bytes → Operation
  ask_vectored : Operation

pub data Reply : Type 0 where
  got : Outcome Bytes → Reply
  moved : Outcome ℕ → Reply
  done : Option String → Reply
  told : Bool → Reply

module _ (S : Socket) where
  abbrev pub perform : Operation → S.State → Reply × S.State
  perform (read n) s = let (r, t) = S.poll_read n s in (got r, t)
  perform (write buf) s = let (r, t) = S.poll_write buf s in (moved r, t)
  perform flush s = let (r, t) = S.poll_flush s in (done r, t)
  perform shutdown s = let (r, t) = S.poll_shutdown s in (done r, t)
  perform (write_vectored bufs) s = let (r, t) = S.poll_write_vectored bufs s in (moved r, t)
  perform ask_vectored s = (told (S.is_write_vectored s), s)

  unfoldable pub perform_all : List Operation → S.State → List Reply × S.State
  perform_all [] s = ([], s)
  perform_all (o ∷ os) s =
      let (r, t) = perform o s in let (rs, last) = perform_all os t in (r ∷ rs, last)

module _ (Tcp Tls : Socket) where
  perform_plain :
      (o : Operation) (s : Tcp.State)
      → perform (control_stream Tcp Tls) o (plain s) ≡ as_plain Tcp Tls (perform Tcp o s)
  unfolding poll_read poll_write poll_flush poll_shutdown poll_write_vectored is_write_vectored
  perform_plain (read n) s = refl
  perform_plain (write buf) s = refl
  perform_plain flush s = refl
  perform_plain shutdown s = refl
  perform_plain (write_vectored bufs) s = refl
  perform_plain ask_vectored s = refl

  perform_tls :
      (o : Operation) (s : Tls.State)
      → perform (control_stream Tcp Tls) o (tls s) ≡ as_tls Tcp Tls (perform Tls o s)
  unfolding poll_read poll_write poll_flush poll_shutdown poll_write_vectored is_write_vectored
  perform_tls (read n) s = refl
  perform_tls (write buf) s = refl
  perform_tls flush s = refl
  perform_tls shutdown s = refl
  perform_tls (write_vectored bufs) s = refl
  perform_tls ask_vectored s = refl

  -- Whatever is called on it and in whatever order, a control stream answers as the stream inside it does,
  -- and keeps its kind: neither a byte nor an error is lost, added or sent past the encryption.
  pub control_stream_delegates :
      (os : List Operation) (s : Tcp.State) (s' : Tls.State)
      → (perform_all (control_stream Tcp Tls) os (plain s)
          ≡ as_plain Tcp Tls (perform_all Tcp os s))
        × (perform_all (control_stream Tcp Tls) os (tls s')
            ≡ as_tls Tcp Tls (perform_all Tls os s'))
  unfolding perform_all
  control_stream_delegates [] s s' = (refl, refl)
  control_stream_delegates (o ∷ os) s s' = (
    ap (continued os) (perform_plain o s)
        ∙ ap (λ r. ((perform Tcp o s).0 ∷ r.0, r.1))
            (control_stream_delegates os (perform Tcp o s).1 s').0,
    ap (continued os) (perform_tls o s')
        ∙ ap (λ r. ((perform Tls o s').0 ∷ r.0, r.1))
            (control_stream_delegates os s (perform Tls o s').1).1,
  )
    where
      continued :
          List Operation → Reply × ControlStream Tcp Tls → List Reply × ControlStream Tcp Tls
      continued os r =
          let (rs, last) = perform_all (control_stream Tcp Tls) os r.1 in (r.0 ∷ rs, last)
