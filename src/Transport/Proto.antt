-- ===== src/Transport/Proto.antt =====
-- crates/rb-transport/src/proto.rs: the control messages, and their framing as JSON behind which a zero
-- byte stands. What the peer sends is the row of results that the remaining reads give; behind the row
-- stands the end of the stream. The sending half of the stream and the JSON codec are parameters.
pub mod Cuts
pub mod Steps
use rust_backup.Prelude.{ℕ, String, Option, none, some, List, [], ◌∷◌, ◌++◌, ◌==◌, if◌then◌else◌}
use mathlib.Core.Option
use rust_backup.Core.Anyhow.{Call}
use rust_backup.Core.Error.{Outcome, success, failure}
use rust_backup.Core.Wire.{Bytes, Codec, Coded, coded, refused}

pub data ClientMsg : Type 0 where
  register : (channel : String) → ClientMsg
  connect : (channel : String) → ClientMsg
  authenticate : (tag : String) → ClientMsg
  heartbeat : ClientMsg

-- `Uuid` is the type of the uuid crate.
pub data ServerMsg (Uuid : Type 0) : Type 0 where
  challenge : Uuid → ServerMsg Uuid
  accepted : ServerMsg Uuid
  heartbeat_echo : ServerMsg Uuid
  error : String → ServerMsg Uuid

pub data Read : Type 0 where
  got : Bytes → Read
  failed : String → Read

-- tokio's `write_all` and `flush`, which answer with the text of an error, or none.
pub record Output : Type 1 where
  pub State : Type 0
  pub write_all : Bytes → State → Option String × State
  pub flush : State → Option String × State

-- The bytes before and behind the first zero byte.
unfoldable pub split_null : Bytes → Option (Bytes × Bytes)
split_null [] = none
split_null (b ∷ bs) =
    let rest = split_null bs in
    if b == 0 then some ([], bs) else Option.map (λ p. (b ∷ p.0, p.1)) rest

-- `Delimited`, its receiving half: the reads to come, and `read_buf`.
pub record Incoming : Type 0 where
  pub reads : List Read
  pub read_buf : Bytes

module _ {T : Type 0} (codec : Codec T) where
  abbrev pub decoded : Coded T → Outcome (Option T)
  decoded (coded msg) = success (some msg)
  decoded (refused e) = failure e

  -- A turn of the loop behind a buffer without a zero byte.
  abbrev pub after_read :
      (Bytes → Outcome (Option T) × Incoming)
      → Bytes
      → List Read
      → Read
      → Outcome (Option T) × Incoming
  after_read more buf reads (failed e) = (failure e, record { reads = reads; read_buf = buf })
  after_read more buf reads (got []) = (success none, record { reads = reads; read_buf = buf })
  after_read more buf reads (got (b ∷ bs)) = more (buf ++ (b ∷ bs))

  -- The other turn: the frame leaves the buffer, whether or not it is JSON.
  abbrev pub on_frame :
      List Read
      → Outcome (Option T) × Incoming
      → Option (Bytes × Bytes)
      → Outcome (Option T) × Incoming
  on_frame reads otherwise none = otherwise
  on_frame reads otherwise (some (json, rest)) =
      (decoded (codec.from_slice json), record { reads = reads; read_buf = rest })

  -- `recv_client` and `recv_server`, which differ in the type of the message only.
  unfoldable pub recv : List Read → Bytes → Outcome (Option T) × Incoming
  recv [] buf = on_frame [] (success none, record { reads = []; read_buf = buf }) (split_null buf)
  recv (r ∷ reads) buf = on_frame (r ∷ reads) (after_read (recv reads) buf reads r) (split_null buf)

  module _ (out : Output) where
    abbrev pub and_then :
        (out.State → Outcome (Unit {0}) × out.State)
        → Option String × out.State
        → Outcome (Unit {0}) × out.State
    and_then more (none, s) = more s
    and_then more (some e, s) = (failure e, s)

    abbrev pub send_json : Coded Bytes → out.State → Outcome (Unit {0}) × out.State
    send_json (refused e) s = (failure e, s)
    send_json (coded json) s =
        and_then
          (λ s.
            and_then (λ s. and_then (λ s. (success tt, s)) (out.flush s))
              (out.write_all (0 ∷ []) s))
          (out.write_all json s)

    -- `send_client` and `send_server`
    unfoldable pub send : T → out.State → Outcome (Unit {0}) × out.State
    send msg s = send_json (codec.to_vec msg) s

-- `Delimited` whole: the stream that it writes to, and what it reads.
pub record Delimited (out : Output) : Type 0 where
  pub inner : out.State
  pub incoming : Incoming

module _ (out : Output) {T : Type 0} (codec : Codec T) where
  unfoldable pub send_msg : T → Call (Delimited out) (Unit {0})
  send_msg msg d = let (r, s) = send codec out msg d.inner in (r, record d { inner = s })

  unfoldable pub recv_msg : Call (Delimited out) (Option T)
  recv_msg d =
      let (r, i) = recv codec d.incoming.reads d.incoming.read_buf in (r, record d { incoming = i })
