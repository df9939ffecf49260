-- ===== src/Core/Session/Counting.antt =====
-- The byte counter over `run_source` of crates/rb-core/src/session.rs: what `bytes_sent` counts.
pub mod Tally
pub mod Receiving
use mathlib.Core.Option
use rust_backup.Prelude.{
  ℕ, ◌≡◌, ◌+◌, ◌%◌, ◌^◌, ◌<◌, refl, ap, sym, ◌∙◌, String, Option, none, some, length, arith,
}
use rust_backup.Core.Error.{Result, ok, Action}
use rust_backup.Core.Plan.{BackupPlan}
use rust_backup.Core.Progress.{Progress, bytes}
use rust_backup.Core.Wire.{Stream}
use rust_backup.Core.Channel.{Counted, on_stream, send_chunk, finish_item, finish}
use rust_backup.Core.Session.{
  Upload, uploaded, call_send_chunk, call_finish_item, call_finish, upload, Formats, Side, Source,
  SourceOutcome, on_wire, on_link, counted_bytes, audit,
}
use rust_backup.Core.Channel.Counting.{
  shown, Moves, zero-Moves, add-Moves, credit, send_chunk-Credits, finish_item-Silent,
  finish-Silent,
}

module _ (S : Stream) {V : Type 0} (fmt : Formats V) (B : Type 0) where
  -- The bytes of the chunks that an upload sends: those of each call that succeeds.
  unfoldable pub sent : Upload B → Counted S → ℕ
  sent (uploaded r b) c = 0
  sent (call_send_chunk item_id offset body then_do) c =
      let (r, c') = send_chunk S fmt.frames fmt.blake3_hex item_id offset body c in
      credit S (length body) r + sent (then_do r) c'
  sent (call_finish_item item_id total digest then_do) c =
      let (r, c') = finish_item S fmt.frames fmt.blake3_hex item_id total digest c in
      sent (then_do r) c'
  sent (call_finish then_do) c =
      let (r, c') = finish S fmt.frames fmt.blake3_hex c in sent (then_do r) c'

  upload-Moves : (u : Upload B) (c : Counted S) → Moves S (sent u c) c (upload S fmt B u c).1.link
  unfolding sent upload
  upload-Moves (uploaded r b) c = zero-Moves S c c refl
  upload-Moves (call_send_chunk item_id offset body then_do) c =
      let (r, d) = send_chunk S fmt.frames fmt.blake3_hex item_id offset body c in
      add-Moves S (credit S (length body) r) (sent (then_do r) d) c d
        (upload S fmt B (then_do r) d).1.link
        (send_chunk-Credits S fmt.frames fmt.blake3_hex item_id offset body c)
        (upload-Moves (then_do r) d)
  upload-Moves (call_finish_item item_id total digest then_do) c =
      let (r, d) = finish_item S fmt.frames fmt.blake3_hex item_id total digest c in
      λ k h.
        upload-Moves (then_do r) d k
          (finish_item-Silent S fmt.frames fmt.blake3_hex item_id total digest c ∙ h)
  upload-Moves (call_finish then_do) c =
      let (r, d) = finish S fmt.frames fmt.blake3_hex c in
      λ k h. upload-Moves (then_do r) d k (finish-Silent S fmt.frames fmt.blake3_hex c ∙ h)

  pub on_wire-ok :
      (m : Action S.State (Unit {0})) (d e : Side S fmt B)
      → on_wire S fmt B m d ≡ (ok tt, e)
      → (s : S.State) × (m d.link.stream ≡ (ok tt, s))
        × (e ≡ record d { link = record d.link { stream = s } })
  unfolding on_stream
  on_wire-ok m d e h = (
    (m d.link.stream).1,
    ap (λ r. (r, (m d.link.stream).1)) (ap (λ p. p.0) h),
    sym (ap (λ p. p.1) h),
  )

  pub on_link-ok :
      (m : Action (Counted S) (Unit {0})) (d e : Side S fmt B)
      → on_link S fmt B m d ≡ (ok tt, e)
      → (c : Counted S) × (m d.link ≡ (ok tt, c)) × (e ≡ record d { link = c })
  on_link-ok m d e h =
      ((m d.link).1, ap (λ r. (r, (m d.link).1)) (ap (λ p. p.0) h), sym (ap (λ p. p.1) h))

  pub counted_bytes-shown :
      (c : Counted S) (n : ℕ) → shown S c ≡ some n → counted_bytes S fmt B c ≡ n
  unfolding counted_bytes
  counted_bytes-shown c n h = go c.progress h
    where
      go :
          (p : Option Progress)
          → Option.map bytes p ≡ some n
          → (elim p [ none ↦ 0 | some q ↦ bytes q ]) ≡ n
      go none h = absurd (cc)
      go (some q) h = cc h

  -- The counter behind an upload and the end of the stream.
  pub counted_after :
      (u : Upload B) (c finished : Counted S) (d : Side S fmt B) (k : ℕ) {r : Result (Unit {0})}
      → upload S fmt B u c ≡ (r, d)
      → finish S fmt.frames fmt.blake3_hex d.link ≡ (ok tt, finished)
      → shown S c ≡ some k
      → k < 2 ^ 64
      → counted_bytes S fmt B finished ≡ (k + sent u c) % 2 ^ 64
  counted_after u c finished d k sending finishing h small =
      counted_bytes-shown finished ((k + sent u c) % 2 ^ 64) (
        sym (ap (λ p. shown S p.1) finishing)
        ∙ finish-Silent S fmt.frames fmt.blake3_hex d.link
        ∙ sym (ap (λ p. shown S p.1.link) sending)
        ∙ upload-Moves u c k h small)

  module _ (src : Source V B) where
    pub audit_bytes :
        (plan : BackupPlan V) (n : ℕ) (before after : String) (d : Side S fmt B)
        {out : SourceOutcome V} {e : Side S fmt B}
        → audit S fmt B src plan n before after d ≡ (ok out, e)
        → (out.bytes_sent ≡ n) × (out.plan ≡ plan)
    unfolding audit
    audit_bytes plan n before after d h = ground arith
