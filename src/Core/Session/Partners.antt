-- ===== src/Core/Session/Partners.antt =====
-- What two partners of a backup that goes well bring along, for crates/rb-core/src/session.rs: their
-- backends, and frames that JSON carries.
use rust_backup.Prelude.{ℕ, ◌<◌, ◌≡◌, String, true, List, All, length}
use rust_backup.Core.Error.{ok}
use rust_backup.Core.Plan.{BackupPlan, Preflight}
use rust_backup.Core.Wire.{Bytes, plan_frame, plan_ack, done, DataFrame, stream_end}
use rust_backup.Core.Channel.{ChunkEvent}
use rust_backup.Core.Channel.Chunks.{Travels}
use rust_backup.Core.Channel.Transfer.{IsSendable}
use rust_backup.Core.Session.{Formats, Source, Destination}
use rust_backup.Core.Session.Effects.{sends, takes, IsItem}

-- A backend that is analysed without a failure, sends `es` and keeps its fingerprint.
pub record Sends {V B : Type 0} (src : Source V B) (plan : BackupPlan V) (es : List ChunkEvent)
    (b last : B) : Type 0 where
  pub fp : String
  pub analyzed : B
  pub streamed : B
  pub before : src.fingerprint b ≡ (ok fp, analyzed)
  pub analysis : src.analyze analyzed ≡ (ok plan, streamed)
  pub stream_out : src.stream_out plan streamed ≡ sends es streamed
  pub after : src.fingerprint streamed ≡ (ok fp, last)

-- A backend that is ready for the plan, takes events up to the end and applies `step` to each.
pub record Takes {V B : Type 0} (dest : Destination V B) (step : ChunkEvent → B → B)
    (plan : BackupPlan V) (es : List ChunkEvent) (b first : B) : Type 0 where
  pub preflight : Preflight
  pub turns : ℕ
  pub validated : dest.validate plan b ≡ (ok preflight, first)
  pub passed : preflight.ok ≡ true
  pub stream_in : dest.stream_in plan first ≡ takes step turns first
  pub enough : length es < turns

-- Frames that JSON carries: those of a run over `es`, with these bodies for the plan, its acceptance and
-- the completion.
pub record Carried {V : Type 0} (fmt : Formats V) (encode : DataFrame → Bytes) (plan : BackupPlan V)
    (es : List ChunkEvent) (sent : ℕ) (plan_body ack_body done_body : Bytes) : Type 0 where
  pub plan_travels : Travels fmt.control (plan_frame plan) plan_body
  pub ack_travels : Travels fmt.control (plan_ack true "accepted") ack_body
  pub events_travel : All (IsSendable fmt.frames fmt.blake3_hex encode) es
  pub end_travels : Travels fmt.frames stream_end (encode stream_end)
  pub done_travels : Travels fmt.control (done sent "") done_body
  pub items : All IsItem es
