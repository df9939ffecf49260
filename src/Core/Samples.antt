-- ===== src/Core/Samples.antt =====
-- Concrete data for the tests of crates/rb-core: a codec with one-byte bodies, a plan, a chunk, two
-- backends and two channels.
use rust_backup.Prelude.{
  ℕ, suc, refl, String, true, false, none, List, [], ◌∷◌, ◌++◌, arith, length, ◌==◌, if◌then◌else◌,
  All,
}
use rust_backup.Core.Error.{ok}
use rust_backup.Core.Plan.{BackupPlan, Preflight, copy_1_to_1, default_integrity}
use rust_backup.Core.Wire.{
  Bytes, Codec, Coded, coded, refused, ControlFrame, plan_frame, plan_ack, done, abort, DataFrame,
  chunk_start, item_end, stream_end,
}
use rust_backup.Core.Channel.{ChunkEvent, chunk, item_finished}
use rust_backup.Core.Channel.Chunks.{Travels}
use rust_backup.Core.Channel.Transfer.{IsSendable}
use rust_backup.Core.Session.{Formats, Source, Destination, DataChannel}
use rust_backup.Core.Session.Partners.{Sends, Takes, Carried}
use rust_backup.Core.Session.Effects.{sends, takes}
use rust_backup.Core.Pipe.{Pipe, pipe}

abbrev pub plan : BackupPlan (Unit {0})
plan = record {
  format_version = 1;
  module_name = "filesystem";
  mode = copy_1_to_1;
  created_at = "2026-01-01T00:00:00Z";
  source_summary = "one file";
  items = [];
  estimated_bytes = 3;
  integrity = default_integrity;
  payload = tt;
}

abbrev pub encode_frame : DataFrame → Bytes
encode_frame (chunk_start item_id offset len digest) = 1 ∷ []
encode_frame (item_end item_id total digest) = 2 ∷ []
encode_frame stream_end = 3 ∷ []

abbrev pub decode_frame : Bytes → Coded DataFrame
decode_frame [] = refused "EOF while parsing a value"
decode_frame (b ∷ bs) =
    if b == 1
    then coded (chunk_start 7 0 3 "digest")
    else if b == 2
    then coded (item_end 7 3 "digest")
    else if b == 3
    then coded stream_end
    else refused "expected value"

abbrev pub encode_control : ControlFrame (Unit {0}) → Bytes
encode_control (plan_frame p) = 10 ∷ []
encode_control (plan_ack true reason) = 11 ∷ []
encode_control (plan_ack false reason) = 12 ∷ []
encode_control (done total digest) = 13 ∷ []
encode_control (abort reason) = 14 ∷ []

abbrev pub decode_control : Bytes → Coded (ControlFrame (Unit {0}))
decode_control [] = refused "EOF while parsing a value"
decode_control (b ∷ bs) =
    if b == 10
    then coded (plan_frame plan)
    else if b == 11
    then coded (plan_ack true "accepted")
    else if b == 12
    then coded (plan_ack false "preflight failed")
    else if b == 13
    then coded (done 3 "")
    else refused "expected value"

abbrev pub frames : Codec DataFrame
frames = record { to_vec = λ f. coded (encode_frame f); from_slice = decode_frame }

abbrev pub control : Codec (ControlFrame (Unit {0}))
control = record { to_vec = λ f. coded (encode_control f); from_slice = decode_control }

abbrev pub digest_of : Bytes → String
digest_of bytes = if length bytes == 3 then "digest" else "other"

abbrev pub formats : Formats (Unit {0})
formats = record {
  control = control;
  frames = frames;
  blake3_hex = digest_of;
  debug = λ f. "frame";
}

abbrev pub events : List ChunkEvent
events = chunk 7 0 (65 ∷ 66 ∷ 67 ∷ []) ∷ item_finished 7 3 "digest" ∷ []

pub events-IsSendable : All (IsSendable frames digest_of encode_frame) events
events-IsSendable = (
  (omega arith, record { written = refl; read_back = refl; fits = omega arith }),
  ((omega arith, record { written = refl; read_back = refl; fits = omega arith }), tt),
)

pub end-Travels : Travels frames stream_end (encode_frame stream_end)
end-Travels = record { written = refl; read_back = refl; fits = omega arith }

pub plan-Travels : Travels control (plan_frame plan) (10 ∷ [])
plan-Travels = record { written = refl; read_back = refl; fits = omega arith }

pub accepted-Travels : Travels control (plan_ack true "accepted") (11 ∷ [])
accepted-Travels = record { written = refl; read_back = refl; fits = omega arith }

pub failed-Travels : Travels control (plan_ack false "preflight failed") (12 ∷ [])
failed-Travels = record { written = refl; read_back = refl; fits = omega arith }

pub done-Travels : Travels control (done 3 "") (13 ∷ [])
done-Travels = record { written = refl; read_back = refl; fits = omega arith }

-- A backend whose fingerprint is fixed, and one that counts the looks taken at it.
abbrev pub steady : Source (Unit {0}) ℕ
steady = record {
  analyze = λ b. (ok plan, b);
  stream_out = λ p b. sends events b;
  fingerprint = λ b. (ok "fp", b);
}

-- A destination that collects the payload.
abbrev pub collect : ChunkEvent → List ℕ → List ℕ
collect (chunk item_id offset bytes) seen = seen ++ bytes
collect _ seen = seen

abbrev pub passed : Preflight
passed = record { ok = true; checks = []; available_bytes = none }

abbrev pub failed : Preflight
failed = record { ok = false; checks = []; available_bytes = none }

abbrev pub collector : Preflight → Destination (Unit {0}) (List ℕ)
collector preflight = record {
  validate = λ p b. (ok preflight, b);
  stream_in = λ p b. takes collect 5 b;
}

-- A channel that hands out one prepared substream.
abbrev pub prepared : (step : ℕ) → Pipe → DataChannel (pipe step) ℕ
prepared step p = record { open_stream = λ k. (ok p, suc k); accept_stream = λ k. (ok p, suc k) }

-- What the two partners of the tests bring along.
pub sending : Sends steady plan events 0 0
sending = record {
  fp = "fp";
  analyzed = 0;
  streamed = 0;
  before = refl;
  analysis = refl;
  stream_out = refl;
  after = refl;
}

pub taking : Takes (collector passed) collect plan events [] []
taking = record {
  preflight = passed;
  turns = 5;
  validated = refl;
  passed = refl;
  stream_in = refl;
  enough = omega arith;
}

pub carried : Carried formats encode_frame plan events 3 (10 ∷ []) (11 ∷ []) (13 ∷ [])
carried = record {
  plan_travels = plan-Travels;
  ack_travels = accepted-Travels;
  events_travel = events-IsSendable;
  end_travels = end-Travels;
  done_travels = done-Travels;
  items = (tt, (tt, tt));
}
