-- ===== src/Core/Wire.antt =====
-- crates/rb-core/src/wire.rs: frames with a little-endian `u32` length before a JSON body, and the
-- two loops that write and read with an idle timeout.
-- The stream (tokio), the JSON codec (serde_json) and the hash (blake3) are parameters.
pub mod Tape
pub mod Reliable
pub mod Frames
pub mod Fuel
use rust_backup.Prelude.{
  ℕ, zero, suc, ◌+◌, ◌-◌, ◌*◌, ◌/◌, ◌%◌, ◌^◌, String, Bool, Option, none, some, List, [], ◌∷◌, ◌++◌,
  length, drop, get_elem?, ltb, if◌then◌else◌,
}
use rust_backup.Core.Error.{
  Result, ok, err, Action, continue, ◌>>=◌, ◌>>◌, fail, pure, transfer, phase, phase_src,
}
use rust_backup.Core.Plan.{BackupPlan}

abbrev pub Bytes : Type 0
Bytes = List ℕ

abbrev pub chunk_size : ℕ
chunk_size = 1024 * 1024

abbrev pub frame_limit : ℕ
frame_limit = 16 * 1024 * 1024

pub data ControlFrame (V : Type 0) : Type 0 where
  plan_frame : BackupPlan V → ControlFrame V
  plan_ack : Bool → String → ControlFrame V
  done : ℕ → String → ControlFrame V
  abort : String → ControlFrame V

pub data DataFrame : Type 0 where
  chunk_start : (item_id offset len : ℕ) (blake3 : String) → DataFrame
  item_end : (item_id total : ℕ) (blake3 : String) → DataFrame
  stream_end : DataFrame

-- What one `read` or `write` under `timeout(IO_IDLE_TIMEOUT, _)` gives.
pub data Io (A : Type 0) : Type 0 where
  ready : A → Io A
  fault : String → Io A
  timed_out : Io A

-- What tokio's `read_exact` gives: all bytes, `ErrorKind::UnexpectedEof`, or another error.
pub data ReadExact : Type 0 where
  filled : Bytes → ReadExact
  unexpected_eof : ReadExact
  failed : String → ReadExact

-- A tokio stream with its state. `read n` reads into a buffer of `n` bytes; no bytes is the end.
pub record Stream : Type 1 where
  pub State : Type 0
  pub read : ℕ → State → Io Bytes × State
  pub read_exact : ℕ → State → ReadExact × State
  pub write : Bytes → State → Io ℕ × State
  pub flush : State → Option String × State

-- `serde_json::to_vec` and `serde_json::from_slice` at one type.
pub data Coded (A : Type 0) : Type 0 where
  coded : A → Coded A
  refused : String → Coded A

pub record Codec (T : Type 0) : Type 0 where
  pub to_vec : T → Coded Bytes
  pub from_slice : Bytes → Coded T

-- `u32::to_le_bytes` of `n as u32`.
abbrev pub to_le_bytes : ℕ → Bytes
to_le_bytes n = n % 256 ∷ n / 256 % 256 ∷ n / 65536 % 256 ∷ n / 16777216 % 256 ∷ []

-- `u32::from_le_bytes` of a buffer of four bytes.
abbrev pub from_le_bytes : Bytes → ℕ
from_le_bytes (a ∷ b ∷ c ∷ d ∷ []) = a + 256 * b + 65536 * c + 16777216 * d
from_le_bytes _ = 0

module _ (S : Stream) where
  -- One turn of the loop of `write_all_idle`; `more` is the rest of the loop.
  pub after_write :
      (Bytes → Action S.State (Unit {0})) → Bytes → Io ℕ × S.State → Result (Unit {0}) × S.State
  after_write more buf (timed_out, s) = (err (phase transfer "write idle timeout"), s)
  after_write more buf (fault e, s) = (err (phase_src transfer "write" e), s)
  after_write more buf (ready zero, s) = (err (phase transfer "write returned 0 (peer closed)"), s)
  after_write more buf (ready (suc n), s) = more (drop (suc n) buf) s

  -- A turn takes a byte at least, so the length of the buffer bounds the turns.
  write_loop : ℕ → Bytes → Action S.State (Unit {0})
  write_loop zero buf s = (ok tt, s)
  write_loop (suc turns) [] s = (ok tt, s)
  write_loop (suc turns) (b ∷ bs) s = after_write (write_loop turns) (b ∷ bs) (S.write (b ∷ bs) s)

  unfoldable pub write_all_idle : Bytes → Action S.State (Unit {0})
  unfolding write_loop after_write
  write_all_idle buf = write_loop (length buf) buf

  -- One turn of the loop of `read_exact_idle`, with `k` bytes still to read.
  pub after_read :
      (ℕ → Bytes → Action S.State Bytes) → ℕ → Bytes → Io Bytes × S.State → Result Bytes × S.State
  after_read more k got (timed_out, s) = (err (phase transfer "read idle timeout"), s)
  after_read more k got (fault e, s) = (err (phase_src transfer "read" e), s)
  after_read more k got (ready [], s) = (err (phase transfer "unexpected EOF mid-frame"), s)
  after_read more k got (ready (b ∷ bs), s) = more (k - length (b ∷ bs)) (got ++ (b ∷ bs)) s

  pub read_loop : ℕ → ℕ → Bytes → Action S.State Bytes
  read_loop turns zero got s = (ok got, s)
  read_loop zero (suc k) got s = (ok got, s)
  read_loop (suc turns) (suc k) got s = after_read (read_loop turns) (suc k) got (S.read (suc k) s)

  unfoldable pub read_exact_idle : ℕ → Action S.State Bytes
  unfolding read_loop after_read
  read_exact_idle n = read_loop n n []

  after_flush : Option String × S.State → Result (Unit {0}) × S.State
  after_flush (none, s) = (ok tt, s)
  after_flush (some e, s) = (err (phase_src transfer "frame flush" e), s)

  module _ {T : Type 0} (c : Codec T) where
    send_body : Coded Bytes → Action S.State (Unit {0})
    send_body (refused e) = fail (phase_src transfer "frame serialize" e)
    send_body (coded body) =
        if ltb frame_limit (length body)
        then fail (phase transfer "frame exceeds FRAME_LIMIT")
        else (do
          write_all_idle (to_le_bytes (length body))
          write_all_idle body
          λ s. after_flush (S.flush s))

    unfoldable pub send_frame : T → Action S.State (Unit {0})
    unfolding send_body after_flush
    send_frame frame = send_body (c.to_vec frame)

    parse_body : Bytes → Action S.State (Option T)
    parse_body body = elim (c.from_slice body) [
      | coded frame ↦ pure (some frame)
      | refused e ↦ fail (phase_src transfer "frame deserialize" e)
    ]

    after_length : ReadExact × S.State → Result (Option T) × S.State
    after_length (unexpected_eof, s) = (ok none, s)
    after_length (failed e, s) = (err (phase_src transfer "frame len read" e), s)
    after_length (filled len_buf, s) =
        let len = from_le_bytes len_buf in
        if ltb frame_limit len
        then (err (phase transfer "incoming frame too large"), s)
        else continue parse_body (read_exact_idle len s)

    unfoldable pub recv_frame : Action S.State (Option T)
    unfolding after_length parse_body
    recv_frame s = after_length (S.read_exact 4 s)
