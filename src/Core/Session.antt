-- ===== src/Core/Session.antt =====
-- crates/rb-core/src/session.rs and the `Source` and `Destination` traits of module.rs: the run loops
-- of both sides of a backup.
-- A backend is a parameter: its state, and what each method of its trait does. What `stream_out` does
-- with the `ChunkSink` that it is given is a tree of its calls (`Upload`), each with what follows on
-- every result; `stream_in` is such a tree over `ChunkSource` (`Download`). Logging is left out.
pub mod Effects
pub mod Release
pub mod Refusal
pub mod Consent
pub mod Opening
pub mod Partners
pub mod Cut
pub mod Torn
pub mod Turns
pub mod EndToEnd
pub mod Restoring
pub mod Serving
pub mod Outcomes
pub mod Immutability
pub mod Unattended
pub mod Counting
use text.Mathlib.Text.{◌==◌ as str_eq}
use rust_backup.Prelude.{
  ℕ, String, ◌<>◌, Bool, true, false, ◌&&◌, not, Option, none, some, if◌then◌else◌,
}
use rust_backup.Core.Error.{
  BackupError, Result, ok, err, Action, continue, ◌>>=◌, ◌>>◌, fail, pure, phase, apply,
  source_mutated, preflight_failed, plan_rejected,
}
use rust_backup.Core.Plan.{BackupPlan, Preflight}
use rust_backup.Core.Progress.{Progress, bytes}
use rust_backup.Core.Wire.{
  Bytes, Stream, Codec, ControlFrame, done, abort, DataFrame, send_frame, recv_frame,
}
use rust_backup.Core.Channel.{
  ChunkEvent, Counted, new_counted, on_stream, send_chunk, finish_item, finish, next, send_plan,
  recv_plan, send_ack, recv_ack,
}

-- A run of `Source::stream_out`, up to its own result and the state that it leaves the backend in.
pub data Upload (B : Type 0) : Type 0 where
  uploaded : Result (Unit {0}) → B → Upload B
  call_send_chunk : (item_id offset : ℕ) → Bytes → (Result (Unit {0}) → Upload B) → Upload B
  call_finish_item : (item_id total : ℕ) → String → (Result (Unit {0}) → Upload B) → Upload B
  call_finish : (Result (Unit {0}) → Upload B) → Upload B

-- A run of `Destination::stream_in`.
pub data Download (B : Type 0) : Type 0 where
  downloaded : Result (Unit {0}) → B → Download B
  call_next : (Result ChunkEvent → Download B) → Download B

pub record Source (V B : Type 0) : Type 0 where
  pub analyze : Action B (BackupPlan V)
  pub stream_out : BackupPlan V → B → Upload B
  pub fingerprint : Action B String

pub record Destination (V B : Type 0) : Type 0 where
  pub validate : BackupPlan V → Action B Preflight
  pub stream_in : BackupPlan V → B → Download B

-- `DataChannel`: both calls hand out a substream.
pub record DataChannel (S : Stream) (C : Type 0) : Type 0 where
  pub open_stream : Action C S.State
  pub accept_stream : Action C S.State

pub record SourceOutcome (V : Type 0) : Type 0 where
  pub plan : BackupPlan V
  pub bytes_sent : ℕ

-- What serde_json, blake3 and `#[derive(Debug)]` supply.
pub record Formats (V : Type 0) : Type 0 where
  pub control : Codec (ControlFrame V)
  pub frames : Codec DataFrame
  pub blake3_hex : Bytes → String
  pub debug : Option (ControlFrame V) → String

module _ (S : Stream) {V : Type 0} (fmt : Formats V) (B : Type 0) where
  -- A side whose substream is open.
  pub record Side : Type 0 where
    pub backend : B
    pub link : Counted S

  abbrev pub on_backend {ℓ} : {A : Type ℓ} → Action B A → Action Side A
  on_backend m d = let (r, b) = m d.backend in (r, record d { backend = b })

  abbrev pub on_link {ℓ} : {A : Type ℓ} → Action (Counted S) A → Action Side A
  on_link m d = let (r, c) = m d.link in (r, record d { link = c })

  abbrev pub on_wire {ℓ} : {A : Type ℓ} → Action S.State A → Action Side A
  on_wire m = on_link (on_stream S m)

  unfoldable pub upload : Upload B → Counted S → Result (Unit {0}) × Side
  upload (uploaded r b) c = (r, record { backend = b; link = c })
  upload (call_send_chunk item_id offset bytes then_do) c =
      let (r, c') = send_chunk S fmt.frames fmt.blake3_hex item_id offset bytes c in
      upload (then_do r) c'
  upload (call_finish_item item_id total digest then_do) c =
      let (r, c') = finish_item S fmt.frames fmt.blake3_hex item_id total digest c in
      upload (then_do r) c'
  upload (call_finish then_do) c =
      let (r, c') = finish S fmt.frames fmt.blake3_hex c in upload (then_do r) c'

  unfoldable pub download : Download B → Counted S → Result (Unit {0}) × Side
  download (downloaded r b) c = (r, record { backend = b; link = c })
  download (call_next then_do) c =
      let (r, c') = next S fmt.frames fmt.blake3_hex c in download (then_do r) c'

  -- `progress.bytes()`; the link of a session is always counted.
  pub counted_bytes : Counted S → ℕ
  counted_bytes c = elim c.progress [ none ↦ 0 | some p ↦ bytes p ]

  -- What a finished run gives, and the states that it leaves; no link if no substream was opened.
  pub record Run (C A : Type 0) : Type 0 where
    pub result : Result A
    pub backend : B
    pub chan : C
    pub link : Option (Counted S)

  module _ (src : Source V B) where
    unfoldable pub mutated : String → String → BackupError
    mutated before after =
        source_mutated
          ("source fingerprint changed during backup (" <> before <> " -> " <> after <> ")")

    pub audit : BackupPlan V → ℕ → String → String → Action Side (SourceOutcome V)
    audit plan bytes_sent fp_before fp_after =
        if str_eq fp_before fp_after
        then pure (record { plan = plan; bytes_sent = bytes_sent })
        else fail (mutated fp_before fp_after)

    -- Steps 5 and 6 of `run_source`: the completion frame and the audit.
    unfoldable pub conclude : String → BackupPlan V → ℕ → Action Side (SourceOutcome V)
    unfolding audit
    conclude fp_before plan bytes_sent = do
      on_wire (send_frame S fmt.control (done bytes_sent ""))
      fp_after ← on_backend src.fingerprint
      audit plan bytes_sent fp_before fp_after

    -- Step 4: the payload.
    unfoldable pub stream_payload : String → BackupPlan V → Action Side (SourceOutcome V)
    unfolding counted_bytes
    stream_payload fp_before plan = do
      λ d. upload (src.stream_out plan d.backend) d.link
      on_link (finish S fmt.frames fmt.blake3_hex)
      λ d. conclude fp_before plan (counted_bytes d.link) d

    -- Step 3, behind `accept_stream`: the plan goes out, and the decision comes back.
    unfoldable pub serve : String → BackupPlan V → Action Side (SourceOutcome V)
    unfolding stream_payload conclude
    serve fp_before plan = do
      on_wire (send_plan S fmt.control fmt.debug plan)
      on_wire (recv_ack S fmt.control fmt.debug)
      stream_payload fp_before plan

    -- Steps 1 and 2: the baseline and the plan.
    unfoldable pub prepare : Action B (String × BackupPlan V)
    prepare = do fp_before ← src.fingerprint; plan ← src.analyze; pure (fp_before, plan)

    module _ {C : Type 0} (channel : DataChannel S C) (progress : Progress) where
      serve_stream : String → BackupPlan V → B → Result S.State × C → Run C (SourceOutcome V)
      serve_stream fp_before plan b (err e, k) = record {
        result = err e;
        backend = b;
        chan = k;
        link = none;
      }
      serve_stream fp_before plan b (ok s, k) =
          let (r, d) =
            serve fp_before plan (record { backend = b; link = new_counted S s progress }) in
          record { result = r; backend = d.backend; chan = k; link = some d.link }

      serve_plan : C → Result (String × BackupPlan V) × B → Run C (SourceOutcome V)
      serve_plan k (err e, b) = record { result = err e; backend = b; chan = k; link = none }
      serve_plan k (ok (fp_before, plan), b) =
          serve_stream fp_before plan b (channel.accept_stream k)

      unfoldable pub run_source : B → C → Run C (SourceOutcome V)
      unfolding serve_plan serve_stream
      run_source b k = serve_plan k (prepare b)

  module _ (dest : Destination V B) where
    -- `preflight.ok && accept(&plan)`, where the policy is consulted only behind a passed preflight.
    unfoldable pub decide :
        {P : Type 0} → (BackupPlan V → P → Bool × P) → BackupPlan V → Preflight → P → Bool × P
    decide accept plan preflight q = elim preflight.ok [ true ↦ accept plan q | false ↦ (false, q) ]

    abbrev pub reason_of : Bool → Bool → String
    reason_of preflight_ok approved =
        if not preflight_ok
        then "preflight failed"
        else if not approved
        then "rejected by operator"
        else "accepted"

    abbrev pub refusal : Bool → String → BackupError
    refusal preflight_ok reason =
        if not preflight_ok then preflight_failed reason else plan_rejected reason

    -- Step 5. Anything but `Done` and `Abort` is only logged.
    pub completion : BackupPlan V → Option (ControlFrame V) → Action Side (BackupPlan V)
    completion plan (some (abort reason)) = fail (phase apply ("source aborted: " <> reason))
    completion plan _ = pure plan

    -- Steps 4 and 5.
    unfoldable pub restore : BackupPlan V → Action Side (BackupPlan V)
    unfolding completion
    restore plan = do
      λ d. download (dest.stream_in plan d.backend) d.link
      frame ← on_wire (recv_frame S fmt.control)
      completion plan frame

    -- The rest of step 3, once the decision stands, and what follows it.
    unfoldable pub answer : BackupPlan V → Bool → Bool → Action Side (BackupPlan V)
    unfolding restore
    answer plan preflight_ok approved = do
      on_wire (send_ack S fmt.control fmt.debug approved (reason_of preflight_ok approved))
      if approved
          then restore plan
          else fail (refusal preflight_ok (reason_of preflight_ok approved))

    module _ {P : Type 0} (accept : BackupPlan V → P → Bool × P) where
      judge : BackupPlan V → P → Result Preflight × Side → (Result (BackupPlan V) × Side) × P
      judge plan q (err e, d) = ((err e, d), q)
      judge plan q (ok preflight, d) =
          let (approved, q') = decide accept plan preflight q in
          (answer plan preflight.ok approved d, q')

      -- Steps 2 to 5, on the plan that was received.
      unfoldable pub consider : BackupPlan V → P → Side → (Result (BackupPlan V) × Side) × P
      unfolding judge decide
      consider plan q d = judge plan q (on_backend (dest.validate plan) d)

      -- As `Run`, with the state of the policy.
      pub record Restore (C : Type 0) : Type 0 where
        pub run : Run C (BackupPlan V)
        pub policy : P

      module _ {C : Type 0} (channel : DataChannel S C) (progress : Progress) where
        restore_plan : B → C → P → Result (BackupPlan V) × S.State → Restore C
        restore_plan b k q (err e, s) = record {
          run = record {
            result = err e;
            backend = b;
            chan = k;
            link = some (new_counted S s progress);
          };
          policy = q;
        }
        restore_plan b k q (ok plan, s) =
            let ((r, d), q') =
              consider plan q (record { backend = b; link = new_counted S s progress }) in
            record {
              run = record { result = r; backend = d.backend; chan = k; link = some d.link };
              policy = q';
            }

        restore_stream : B → P → Result S.State × C → Restore C
        restore_stream b q (err e, k) = record {
          run = record { result = err e; backend = b; chan = k; link = none };
          policy = q;
        }
        restore_stream b q (ok s, k) = restore_plan b k q (recv_plan S fmt.control fmt.debug s)

        unfoldable pub run_destination : B → C → P → Restore C
        unfolding restore_stream restore_plan
        run_destination b k q = restore_stream b q (channel.open_stream k)
