-- ===== src/Core/Session/Outcomes.antt =====
-- How an accepted and how a rejected run of `run_source` in crates/rb-core/src/session.rs ends.
use text.Mathlib.Text.{◌==◌ as str_eq}
use rust_backup.Prelude.{
  ℕ, ◌≡◌, refl, ap, ◌∙◌, String, true, false, Option, List, ◌++◌, append-nil, All, arith,
  if◌then◌else◌,
}
use rust_backup.Core.Error.{Result, ok, err, continue, ◌>>◌, plan_rejected}
use rust_backup.Core.Plan.{BackupPlan}
use rust_backup.Core.Wire.{
  Bytes, Stream, ControlFrame, plan_frame, plan_ack, done, DataFrame, stream_end,
}
use rust_backup.Core.Wire.Reliable.{IsReliable}
use rust_backup.Core.Wire.Frames.{framed, recv_frame-Does}
use rust_backup.Core.Channel.{ChunkEvent, on_stream, send_plan, recv_ack, take_ack}
use rust_backup.Core.Channel.Chunks.{Travels}
use rust_backup.Core.Channel.Transfer.{IsSendable}
use rust_backup.Core.Session.{Formats, Side, Source, on_wire, audit, stream_payload, serve, mutated}
use rust_backup.Core.Session.Effects.{on_wire-Does, sends}
use rust_backup.Core.Session.Serving.{total, transcript, send_plan-Does, serve-Served}

module _ (S : Stream) (R : IsReliable S) {V : Type 0} (fmt : Formats V) where
  module _ (B : Type 0) (encode : DataFrame → Bytes) (src : Source V B) where
    audit-eq :
        (plan : BackupPlan V) (n : ℕ) (fp fp' : String) (d : Side S fmt B)
        → audit S fmt B src plan n fp fp' d ≡ (
          (if str_eq fp fp'
              then ok (record { plan = plan; bytes_sent = n })
              else err (mutated S fmt B src fp fp')),
          d,
        )
    unfolding audit
    audit-eq plan n fp fp' d = ground arith

    -- On a healthy substream on which an acceptance arrives, with a module that sends the events `es`
    -- and a codec that carries the frames: whether the source succeeds or reports a mutation is decided
    -- by comparing the two fingerprints alone, and in both cases the whole transcript has gone out,
    -- the completion frame included.
    pub serve_outcome :
        (fp fp' reason : String) (plan : BackupPlan V) (es : List ChunkEvent)
        (plan_body ack_body done_body rest : Bytes) (d : Side S fmt B) (b : B)
        → src.stream_out plan d.backend ≡ sends es d.backend
        → R.pending d.link.stream ≡ framed ack_body ++ rest
        → Travels fmt.control (plan_frame plan) plan_body
        → Travels fmt.control (plan_ack true reason) ack_body
        → All (IsSendable fmt.frames fmt.blake3_hex encode) es
        → Travels fmt.frames stream_end (encode stream_end)
        → Travels fmt.control (done (total es d.link.progress) "") done_body
        → src.fingerprint d.backend ≡ (ok fp', b)
        → (last : Side S fmt B) × (serve S fmt B src fp plan d ≡ (
          (if str_eq fp fp'
              then ok (record { plan = plan; bytes_sent = total es d.link.progress })
              else err (mutated S fmt B src fp fp')),
          last,
        ))
          × (last.backend ≡ b)
          × (R.sent last.link.stream
              ≡ R.sent d.link.stream ++ transcript fmt encode plan_body es done_body)
    serve_outcome fp fp' reason plan es plan_body ack_body done_body rest d b up p t_plan t_ack t_es
          t_end t_done print =
        let s =
          serve-Served S R fmt B encode src fp reason plan es plan_body ack_body done_body rest d up
            p t_plan t_ack t_es t_end t_done in
        let e : Side S fmt B = record (s.last) { backend = b } in
        (
          e,
          s.result
              ∙ ap
                  (λ (r : Result String × B).
                    continue (audit S fmt B src plan (total es d.link.progress) fp)
                      (r.0, record (s.last) { backend = r.1 }))
                  (ap src.fingerprint s.backend ∙ print)
              ∙ audit-eq plan (total es d.link.progress) fp fp' e,
          refl,
          s.output,
        )

    -- On a healthy substream on which a rejection arrives, with a codec that carries it and the plan,
    -- the source fails with the destination's reason, has sent its plan and nothing else, and leaves
    -- its backend untouched: no payload was asked for.
    pub serve_rejected :
        (fp reason : String) (plan : BackupPlan V) (plan_body ack_body rest : Bytes)
        (d : Side S fmt B)
        → R.pending d.link.stream ≡ framed ack_body ++ rest
        → Travels fmt.control (plan_frame plan) plan_body
        → Travels fmt.control (plan_ack false reason) ack_body
        → (last : Side S fmt B) × (serve S fmt B src fp plan d ≡ (err (plan_rejected reason), last))
          × (last.backend ≡ d.backend)
          × (R.sent last.link.stream ≡ R.sent d.link.stream ++ framed plan_body)
    unfolding serve recv_ack on_stream
    serve_rejected fp reason plan plan_body ack_body rest d p t_plan t_ack =
        let s1 =
          on_wire-Does S R fmt B (send_plan S fmt.control fmt.debug plan) d
            (send_plan-Does S R fmt plan plan_body d.link.stream t_plan) in
        let ack =
          recv_frame-Does S R fmt.control (plan_ack false reason) ack_body rest s1.last.link.stream
            (s1.input ∙ p) t_ack.fits t_ack.read_back in
        (
          record (s1.last) { link = record (s1.last.link) { stream = ack.last } },
          ap
                (continue (λ _.
                  on_wire S fmt B (recv_ack S fmt.control fmt.debug)
                  >> stream_payload S fmt B src fp plan))
                s1.result
              ∙ ap
                  (λ (r : Result (Option (ControlFrame V)) × S.State).
                    (let q = continue (take_ack S fmt.control fmt.debug) r in
                      continue (λ _. stream_payload S fmt B src fp plan)
                        (q.0, record (s1.last) { link = record (s1.last.link) { stream = q.1 } })))
                  ack.result,
          ap (λ n. n.1) s1.counted,
          ack.output ∙ append-nil (R.sent s1.last.link.stream) ∙ s1.output,
        )
