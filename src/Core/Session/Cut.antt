-- ===== src/Core/Session/Cut.antt =====
-- A destination of crates/rb-core/src/session.rs that approves, and whose connection is cut behind any of
-- the source's events.
use rust_backup.Prelude.{ℕ, ◌<◌, ◌≡◌, ap, sym, ◌∙◌, true, List, ◌++◌, All, length}
use rust_backup.Core.Error.{ok, continue}
use rust_backup.Core.Plan.{BackupPlan}
use rust_backup.Core.Wire.{Bytes, Stream, plan_ack, DataFrame}
use rust_backup.Core.Wire.Reliable.{IsReliable}
use rust_backup.Core.Wire.Frames.{framed}
use rust_backup.Core.Channel.{ChunkEvent, send_ack}
use rust_backup.Core.Channel.Chunks.{Travels}
use rust_backup.Core.Channel.Transfer.{wire, IsSendable}
use rust_backup.Core.Session.{Formats, Side, Destination, restore, answer}
use rust_backup.Core.Session.Effects.{takes, apply_all, IsItem, on_wire-Does}
use rust_backup.Core.Session.Restoring.{send_ack-Does, restore_cut}

module _ (S : Stream) (R : IsReliable S) {V : Type 0} (fmt : Formats V) (encode : DataFrame → Bytes)
    (B : Type 0) where
  -- A destination that approves sends its acceptance and then applies what comes, up to the cut.
  pub answer_cut :
      (dest : Destination V B) (step : ChunkEvent → B → B) (plan : BackupPlan V)
      (es : List ChunkEvent) (n : ℕ) (ack_body : Bytes) (d : Side S fmt B)
      → dest.stream_in plan d.backend ≡ takes step n d.backend
      → length es < n
      → All (IsSendable fmt.frames fmt.blake3_hex encode) es
      → All IsItem es
      → Travels fmt.control (plan_ack true "accepted") ack_body
      → R.pending d.link.stream ≡ wire fmt.frames fmt.blake3_hex encode es
      → (last : Side S fmt B) × (answer S fmt B dest plan true true d ≡ (ok plan, last))
        × (last.backend ≡ apply_all step es d.backend)
        × (R.sent last.link.stream ≡ R.sent d.link.stream ++ framed ack_body)
  unfolding answer
  answer_cut dest step plan es n ack_body d code more t_es items t_ack p =
      let s =
        on_wire-Does S R fmt B (send_ack S fmt.control fmt.debug true "accepted") d
          (send_ack-Does S R fmt B dest true "accepted" ack_body d.link.stream t_ack) in
      let same : s.last.backend ≡ d.backend = ap (λ n. n.1) s.counted in
      let (last, result, back, out) =
        restore_cut S R fmt B dest encode step plan es n s.last
          (ap (dest.stream_in plan) same ∙ code ∙ ap (takes step n) (sym same)) t_es items more
          (s.input ∙ p) in
      (
        last,
        ap (continue (λ _. restore S fmt B dest plan)) s.result ∙ result,
        back ∙ ap (apply_all step es) same,
        out ∙ s.output,
      )
