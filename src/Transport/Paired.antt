-- ===== src/Transport/Paired.antt =====
-- crates/rb-transport/src/channel.rs: `PairedChannel`, the channel that a session runs on. The driver of
-- the substreams (yamux) is a parameter: what its opener and its acceptor hand out, and tokio's
-- `write_all`.
pub mod Marker
use rust_backup.Prelude.{ℕ, String, ◌<>◌, Option, none, some, [], ◌∷◌, ◌==◌, if◌then◌else◌}
use rust_backup.Core.Error.{Result, ok, err, Outcome, success, failure, connect, phase}
use rust_backup.Core.Wire.{Bytes, Stream, ReadExact, filled, unexpected_eof, failed}
use rust_backup.Core.Session.{DataChannel}

-- crates/rb-transport/src/mux.rs
abbrev pub stream_ready : ℕ
stream_ready = 0

-- `PairedChannelInner`; the control stream is only kept alive.
pub data Inner : Type 0 where
  source destination : Inner

module _ (S : Stream) (C : Type 0) where
  pub record Mux : Type 0 where
    pub open_next : C → Outcome S.State × C
    pub accept : C → Option S.State × C
    pub write_all : Bytes → S.State → Option String × S.State
    -- the text of the error for a stream that ends too early
    pub early_eof : String

  module _ (mux : Mux) where
    abbrev pub after_ready : C → Option String × S.State → Result S.State × C
    after_ready k (none, s) = (ok s, k)
    after_ready k (some e, s) = (err (phase connect ("write ready: " <> e)), k)

    abbrev pub after_open : Outcome S.State × C → Result S.State × C
    after_open (failure e, k) = (err (phase connect ("open stream: " <> e)), k)
    after_open (success s, k) = after_ready k (mux.write_all (stream_ready ∷ []) s)

    unfoldable pub open_stream : Inner → C → Result S.State × C
    open_stream source k = (err (phase connect "source cannot open streams"), k)
    open_stream destination k = after_open (mux.open_next k)

    abbrev pub check_marker : C → ReadExact × S.State → Result S.State × C
    check_marker k (filled (m ∷ []), s) =
        if m == stream_ready
        then (ok s, k)
        else (err (phase connect "invalid stream ready marker"), k)
    check_marker k (filled other, s) = (err (phase connect "invalid stream ready marker"), k)
    check_marker k (unexpected_eof, s) = (err (phase connect ("read ready: " <> mux.early_eof)), k)
    check_marker k (failed e, s) = (err (phase connect ("read ready: " <> e)), k)

    abbrev pub after_accept : Option S.State × C → Result S.State × C
    after_accept (none, k) = (err (phase connect "acceptor closed"), k)
    after_accept (some s, k) = check_marker k (S.read_exact 1 s)

    unfoldable pub accept_stream : Inner → C → Result S.State × C
    accept_stream source k = after_accept (mux.accept k)
    accept_stream destination k = (err (phase connect "destination cannot accept streams"), k)

    -- The channel as a session takes it.
    abbrev pub paired : Inner → DataChannel S C
    paired inner = record { open_stream = open_stream inner; accept_stream = accept_stream inner }
