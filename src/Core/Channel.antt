-- ===== src/Core/Channel.antt =====
-- crates/rb-core/src/channel.rs: the chunk sink and the chunk source over one stream, and the
-- exchange of plan and decision. The stream, the codecs, the hash and the derived `Debug` text are
-- parameters, as in `Wire`.
pub mod Chunks
pub mod Transfer
pub mod Integrity
pub mod Counting
use mathlib.Core.Option
use text.Mathlib.Text.{◌==◌ as str_eq}
use rust_backup.Prelude.{
  ℕ, ◌%◌, ◌^◌, String, ◌<>◌, Bool, true, false, Option, none, some, length, ltb, if◌then◌else◌,
  decimal,
}
use rust_backup.Core.Error.{
  Result, ok, err, Action, continue, ◌>>=◌, ◌>>◌, fail, pure, transfer, connect, phase, integrity,
  plan_rejected,
}
use rust_backup.Core.Plan.{BackupPlan}
use rust_backup.Core.Progress.{Progress, add_bytes, item_done}
use rust_backup.Core.Wire.{
  Bytes, Stream, Codec, chunk_size, ControlFrame, plan_frame, plan_ack, abort, done, DataFrame,
  chunk_start, item_end, stream_end, write_all_idle, read_exact_idle, send_frame, recv_frame,
}

pub data ChunkEvent : Type 0 where
  chunk : (item_id offset : ℕ) (bytes : Bytes) → ChunkEvent
  item_finished : (item_id total : ℕ) (blake3 : String) → ChunkEvent
  end : ChunkEvent

module _ (S : Stream) where
  -- `StreamChunkSink` and `StreamChunkSource`: the stream, and the counters if it is `new_counted`.
  pub record Counted : Type 0 where
    pub stream : S.State
    pub progress : Option Progress

  -- `new_counted`, and `into_inner` is the field `stream`.
  abbrev pub new_counted : S.State → Progress → Counted
  new_counted s p = record { stream = s; progress = some p }

  -- A call on the stream inside.
  unfoldable pub on_stream {ℓ} : {A : Type ℓ} → Action S.State A → Action Counted A
  on_stream m c = let (r, s) = m c.stream in (r, record c { stream = s })

  -- `if let Some(p) = &self.progress`
  unfoldable pub count : (Progress → Progress) → Action Counted (Unit {0})
  count f c = (ok tt, record c { progress = Option.map f c.progress })

  module _ (codec : Codec DataFrame) (blake3_hex : Bytes → String) where
    unfoldable pub send_chunk : ℕ → ℕ → Bytes → Action Counted (Unit {0})
    send_chunk item_id offset bytes =
        if ltb chunk_size (length bytes)
        then fail (phase transfer "chunk exceeds CHUNK_SIZE")
        else (do
          let header = chunk_start item_id offset (length bytes % 2 ^ 32) (blake3_hex bytes)
          on_stream (send_frame S codec header)
          on_stream (write_all_idle S bytes)
          count (add_bytes (length bytes)))

    unfoldable pub finish_item : ℕ → ℕ → String → Action Counted (Unit {0})
    finish_item item_id total blake3 = do
      on_stream (send_frame S codec (item_end item_id total blake3))
      count item_done

    unfoldable pub finish : Action Counted (Unit {0})
    finish = on_stream (send_frame S codec stream_end)

    unfoldable pub mismatch : ℕ → ℕ → String
    mismatch item_id offset =
        "chunk item=" <> decimal item_id <> " offset=" <> decimal offset <> ": blake3 mismatch"

    verify : ℕ → ℕ → String → Bytes → Action Counted ChunkEvent
    verify item_id offset blake3 bytes =
        if str_eq (blake3_hex bytes) blake3
        then (do count (add_bytes (length bytes)); pure (chunk item_id offset bytes))
        else fail (integrity (mismatch item_id offset))

    after_frame : Option DataFrame → Action Counted ChunkEvent
    after_frame none = pure end
    after_frame (some stream_end) = pure end
    after_frame (some (chunk_start item_id offset len blake3)) = do
      bytes ← on_stream (read_exact_idle S len)
      verify item_id offset blake3 bytes
    after_frame (some (item_end item_id total blake3)) = do
      count item_done
      pure (item_finished item_id total blake3)

    unfoldable pub next : Action Counted ChunkEvent
    unfolding after_frame verify mismatch
    next = do frame ← on_stream (recv_frame S codec); after_frame frame

  module _ {V : Type 0} (codec : Codec (ControlFrame V))
      (debug : Option (ControlFrame V) → String) where
    unfoldable pub send_plan : BackupPlan V → Action S.State (Unit {0})
    send_plan plan = send_frame S codec (plan_frame plan)

    pub take_plan : Option (ControlFrame V) → Action S.State (BackupPlan V)
    take_plan (some (plan_frame plan)) = pure plan
    take_plan (some (abort reason)) = fail (plan_rejected reason)
    take_plan other = fail (phase connect ("expected Plan frame, got " <> debug other))

    unfoldable pub recv_plan : Action S.State (BackupPlan V)
    unfolding take_plan
    recv_plan = do frame ← recv_frame S codec; take_plan frame

    unfoldable pub send_ack : Bool → String → Action S.State (Unit {0})
    send_ack accepted reason = send_frame S codec (plan_ack accepted reason)

    pub take_ack : Option (ControlFrame V) → Action S.State (Unit {0})
    take_ack (some (plan_ack true reason)) = pure tt
    take_ack (some (plan_ack false reason)) = fail (plan_rejected reason)
    take_ack other = fail (phase connect ("expected PlanAck, got " <> debug other))

    unfoldable pub recv_ack : Action S.State (Unit {0})
    unfolding take_ack
    recv_ack = do frame ← recv_frame S codec; take_ack frame
