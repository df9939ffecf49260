-- ===== src/Core/Session/Torn.antt =====
-- A source whose backend fails in the middle of `stream_out`, and the destination at the other end, in
-- crates/rb-core/src/session.rs.
use rust_backup.Prelude.{
  ◌≡◌, refl, ap, sym, ◌∙◌, String, Bool, true, some, List, [], ◌∷◌, ◌++◌, append-nil, append_assoc,
  All,
}
use rust_backup.Core.Error.{BackupError, Result, ok, err, continue, ◌>>◌}
use rust_backup.Core.Plan.{BackupPlan}
use rust_backup.Core.Progress.{Progress}
use rust_backup.Core.Wire.{Bytes, Stream, plan_frame, plan_ack, DataFrame}
use rust_backup.Core.Wire.Reliable.{IsReliable}
use rust_backup.Core.Wire.Frames.{framed}
use rust_backup.Core.Channel.{ChunkEvent, chunk, item_finished, end, Counted, new_counted, finish}
use rust_backup.Core.Channel.Chunks.{Travels}
use rust_backup.Core.Channel.Transfer.{
  wire, IsSendable, frame_of, payload, send_event, send_event-Does,
}
use rust_backup.Core.Session.{
  Formats, Side, Source, Destination, DataChannel, Upload, uploaded, call_send_chunk,
  call_finish_item, call_finish, upload, on_link, counted_bytes, conclude, stream_payload, serve,
  run_source, run_destination,
}
use rust_backup.Core.Session.Cut.{answer_cut}
use rust_backup.Core.Session.Effects.{stop_or, apply_all, IsItem}
use rust_backup.Core.Session.Opening.{
  ended, source_comes, ended_with, destination_comes, recv_plan-Does,
}
use rust_backup.Core.Session.Partners.{Takes}
use rust_backup.Core.Session.Restoring.{consider_accepted}
use rust_backup.Core.Session.Serving.{exchange}

-- A `stream_out` that makes the calls of a list of events and then fails with `x`.
pub breaks_off : {B : Type 0} → BackupError → List ChunkEvent → B → Upload B
breaks_off x [] b = uploaded (err x) b
breaks_off x (chunk item_id offset bytes ∷ es) b =
    call_send_chunk item_id offset bytes (stop_or b (breaks_off x es b))
breaks_off x (item_finished item_id total digest ∷ es) b =
    call_finish_item item_id total digest (stop_or b (breaks_off x es b))
breaks_off x (end ∷ es) b = call_finish (stop_or b (breaks_off x es b))

-- A backend that is analysed without a failure, sends `es` and then fails with `x`.
pub record BreaksOff {V B : Type 0} (src : Source V B) (plan : BackupPlan V) (x : BackupError)
    (es : List ChunkEvent) (b last : B) : Type 0 where
  pub fp : String
  pub analyzed : B
  pub before : src.fingerprint b ≡ (ok fp, analyzed)
  pub analysis : src.analyze analyzed ≡ (ok plan, last)
  pub stream_out : src.stream_out plan last ≡ breaks_off x es last

module _ (S : Stream) (R : IsReliable S) {V : Type 0} (fmt : Formats V)
    (encode : DataFrame → Bytes) where
  module _ (B : Type 0) where
    upload-breaks_off_event :
        (x : BackupError) (e : ChunkEvent) (es : List ChunkEvent) (b : B) (c : Counted S)
        → upload S fmt B (breaks_off x (e ∷ es) b) c ≡ (
            let r = send_event fmt.frames fmt.blake3_hex S e c in
            upload S fmt B (stop_or b (breaks_off x es b) r.0) r.1)
    unfolding upload breaks_off
    upload-breaks_off_event x (chunk item_id offset bytes) es b c = refl
    upload-breaks_off_event x (item_finished item_id total digest) es b c = refl
    upload-breaks_off_event x end es b c = refl

    -- The events go out, and the backend's error comes back.
    upload-breaks_off :
        (x : BackupError) (es : List ChunkEvent) (b : B) (c : Counted S)
        → All (IsSendable fmt.frames fmt.blake3_hex encode) es
        → (last : Side S fmt B) × (upload S fmt B (breaks_off x es b) c ≡ (err x, last))
          × (last.backend ≡ b)
          × (R.sent last.link.stream ≡ R.sent c.stream ++ wire fmt.frames fmt.blake3_hex encode es)
    upload-breaks_off x [] b c h =
        unfold upload breaks_off in
        (record { backend = b; link = c }, refl, refl, sym (append-nil _))
    upload-breaks_off x (e ∷ es) b c h =
        let first = send_event-Does fmt.frames fmt.blake3_hex encode S R e c h.0 in
        let (last, failed, same, out) = upload-breaks_off x es b first.last h.1 in
        let items = wire fmt.frames fmt.blake3_hex encode es in
        let head = framed (encode (frame_of fmt.frames fmt.blake3_hex encode e)) in
        let body = payload fmt.frames fmt.blake3_hex encode e in
        (
          last,
          upload-breaks_off_event x e es b c
              ∙ ap
                  (λ (r : Result (Unit {0}) × Counted S).
                    upload S fmt B (stop_or b (breaks_off x es b) r.0) r.1)
                  first.result
              ∙ failed,
          same,
          out
              ∙ ap (λ y. y ++ items) first.output
              ∙ append_assoc (R.sent c.stream) (head ++ body) items
              ∙ ap (λ y. R.sent c.stream ++ y) (append_assoc head body items),
        )

    -- An accepted source whose backend breaks off: what was sent is the plan and the events, and the
    -- backend was asked for nothing behind its failure.
    serve-breaks_off :
        (src : Source V B) (fp reason : String) (plan : BackupPlan V) (x : BackupError)
        (es : List ChunkEvent) (plan_body ack_body rest : Bytes) (d : Side S fmt B)
        → src.stream_out plan d.backend ≡ breaks_off x es d.backend
        → R.pending d.link.stream ≡ framed ack_body ++ rest
        → Travels fmt.control (plan_frame plan) plan_body
        → Travels fmt.control (plan_ack true reason) ack_body
        → All (IsSendable fmt.frames fmt.blake3_hex encode) es
        → (last : Side S fmt B) × (serve S fmt B src fp plan d ≡ (err x, last))
          × (last.backend ≡ d.backend)
          × (R.sent last.link.stream
              ≡ R.sent d.link.stream
                ++ (framed plan_body ++ wire fmt.frames fmt.blake3_hex encode es))
    unfolding stream_payload
    serve-breaks_off src fp reason plan x es plan_body ack_body rest d up p t_plan t_ack t_es =
        let s1 =
          exchange S R fmt B encode src fp reason plan plan_body ack_body rest d p t_plan t_ack in
        let same : s1.last.backend ≡ d.backend = ap (λ n. n.1) s1.note in
        let (last, failed, kept, out) = upload-breaks_off x es s1.last.backend s1.last.link t_es in
        let behind : Result (Unit {0}) × Side S fmt B → _ = continue (λ _.
          on_link S fmt B (finish S fmt.frames fmt.blake3_hex) >> λ e.
          conclude S fmt B src fp plan (counted_bytes S fmt B e.link) e) in
        (
          last,
          s1.result
              ∙ ap (λ u. behind (upload S fmt B u s1.last.link))
                  (ap (src.stream_out plan) same ∙ up ∙ ap (breaks_off x es) (sym same))
              ∙ ap behind failed,
          kept ∙ same,
          out
              ∙ ap (λ y. y ++ wire fmt.frames fmt.blake3_hex encode es) s1.output
              ∙ append_assoc (R.sent d.link.stream) (framed plan_body)
                  (wire fmt.frames fmt.blake3_hex encode es),
        )

module _ (S : Stream) (R : IsReliable S) (S' : Stream) (R' : IsReliable S') {V : Type 0}
    (fmt : Formats V) (encode : DataFrame → Bytes) where
  -- A backup whose source breaks off, over two healthy substreams, each side reading what the other
  -- writes. If the source's backend is analysed without a failure, sends the events `es` and then fails
  -- with `x`, the destination's is ready and takes events up to the end, the policy approves, both
  -- channels hand out a substream, and the codec carries the plan, the acceptance and the events, then
  -- the source fails with `x`, and its backend was asked for nothing behind that, also not for a second
  -- fingerprint; the destination succeeds with the events that came; and the plan, the acceptance and the
  -- events are all that was written.
  pub backup_torn :
      (B : Type 0) (src : Source V B) {C : Type 0} (channel : DataChannel S C) (progress : Progress)
      (B' : Type 0) (dest : Destination V B') {P : Type 0} (accept : BackupPlan V → P → Bool × P)
      {C' : Type 0} (channel' : DataChannel S' C') (progress' : Progress)
      (step : ChunkEvent → B' → B') (plan : BackupPlan V) (x : BackupError) (es : List ChunkEvent)
      (plan_body ack_body : Bytes) (b last : B) (k k1 : C) (s : S.State) (b' first : B')
      (k' k1' : C') (q q' : P) (s' : S'.State)
      → BreaksOff src plan x es b last
      → Takes dest step plan es b' first
      → accept plan q ≡ (true, q')
      → channel.accept_stream k ≡ (ok s, k1)
      → channel'.open_stream k' ≡ (ok s', k1')
      → R.sent s ≡ []
      → R'.sent s' ≡ []
      → R.pending s ≡ framed ack_body
      → R'.pending s' ≡ framed plan_body ++ wire fmt.frames fmt.blake3_hex encode es
      → Travels fmt.control (plan_frame plan) plan_body
      → Travels fmt.control (plan_ack true "accepted") ack_body
      → All (IsSendable fmt.frames fmt.blake3_hex encode) es
      → All IsItem es
      → (l : Counted S) × (l' : Counted S') × (run_source S fmt B src channel progress b k
          ≡ record { result = err x; backend = last; chan = k1; link = some l })
        × (run_destination S' fmt B' dest accept channel' progress' b' k' q ≡ record {
          run = record {
            result = ok plan;
            backend = apply_all step es first;
            chan = k1';
            link = some l';
          };
          policy = q';
        })
        × (R.sent l.stream ≡ R'.pending s')
        × (R'.sent l'.stream ≡ R.pending s)
  backup_torn B src channel progress B' dest accept channel' progress' step plan x es plan_body
        ack_body b last k k1 s b' first k' k1' q q' s' o i approved acc op new new' with_ack
        with_plan t_plan t_ack t_es items =
      let (d, failed, same, out) =
        serve-breaks_off S R fmt encode B src o.fp "accepted" plan x es plan_body ack_body []
          (record { backend = last; link = new_counted S s progress }) o.stream_out
          (with_ack ∙ sym (append-nil _)) t_plan t_ack t_es in
      let got =
        recv_plan-Does S' R' fmt plan plan_body (wire fmt.frames fmt.blake3_hex encode es) s' t_plan
          with_plan in
      let (d', done, back, out') =
        answer_cut S' R' fmt encode B' dest step plan es i.turns ack_body
          (record { backend = first; link = new_counted S' got.last progress' }) i.stream_in
          i.enough t_es items t_ack got.input in
      (
        d.link,
        d'.link,
        source_comes S fmt B src channel progress o.fp plan b o.analyzed last k k1 s o.before
              o.analysis acc
            ∙ ap (ended S fmt k1) failed
            ∙ ap (λ y. record { result = err x; backend = y; chan = k1; link = some d.link }) same,
        destination_comes S' fmt B' dest accept channel' progress' plan b' k' k1' q s' got.last op
              got.result
            ∙ ap (ended_with S' fmt B' dest accept channel' progress' k1') (
                consider_accepted S' R' fmt B' dest accept plan i.preflight q q' first
                  (record { backend = b'; link = new_counted S' got.last progress' }) i.validated
                  i.passed approved
                ∙ ap (λ r. (r, q')) done)
            ∙ ap
                (λ y. record {
                  run = record { result = ok plan; backend = y; chan = k1'; link = some d'.link };
                  policy = q';
                })
                back,
        out
            ∙ ap (λ y. y ++ (framed plan_body ++ wire fmt.frames fmt.blake3_hex encode es)) new
            ∙ sym with_plan,
        out'
            ∙ ap (λ y. y ++ framed ack_body) (got.output ∙ append-nil (R'.sent s') ∙ new')
            ∙ sym with_ack,
      )
