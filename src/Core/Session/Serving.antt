-- ===== src/Core/Session/Serving.antt =====
-- `run_source` of crates/rb-core/src/session.rs on a healthy substream: the whole transcript of an
-- accepted run, up to its audit.
use rust_backup.Prelude.{
  ℕ, ◌≡◌, refl, ap, sym, ◌∙◌, String, true, Option, none, some, List, [], ◌++◌, append-nil,
  append_assoc, All,
}
use rust_backup.Core.Error.{Result, continue, ◌>>=◌, ◌>>◌}
use rust_backup.Core.Plan.{BackupPlan}
use rust_backup.Core.Progress.{Progress, bytes}
use rust_backup.Core.Wire.{
  Bytes, Stream, plan_frame, plan_ack, done, DataFrame, stream_end, send_frame, recv_frame,
}
use rust_backup.Core.Wire.Tape.{Does, recast-Does, bind-Does, pure-Does}
use rust_backup.Core.Wire.Reliable.{IsReliable, tape}
use rust_backup.Core.Wire.Frames.{framed, send_frame-Does, recv_frame-Does}
use rust_backup.Core.Channel.{ChunkEvent, finish, send_plan, recv_ack, take_ack}
use rust_backup.Core.Channel.Chunks.{Travels, finish-Does}
use rust_backup.Core.Channel.Transfer.{meters, wire, IsSendable}
use rust_backup.Core.Session.{
  Formats, Side, Source, SourceOutcome, on_wire, on_link, on_backend, upload, counted_bytes, audit,
  conclude, stream_payload, serve,
}
use rust_backup.Core.Session.Effects.{side, on_wire-Does, on_link-Does, sends, upload-Does}

-- The byte count that a source announces: the counter after its events.
abbrev pub total : List ChunkEvent → Option Progress → ℕ
total es p = elim (meters es p) [ none ↦ 0 | some q ↦ bytes q ]

-- What an accepted source has written when it comes to its audit.
abbrev pub transcript :
    {V : Type 0} → Formats V → (DataFrame → Bytes) → Bytes → List ChunkEvent → Bytes → Bytes
transcript fmt encode plan_body es done_body =
    framed plan_body
    ++ (wire fmt.frames fmt.blake3_hex encode es
        ++ (framed (encode stream_end) ++ framed done_body))

regroup : (a b c d e : Bytes) → (((a ++ b) ++ (c ++ d)) ++ e) ≡ a ++ (b ++ (c ++ (d ++ e)))
regroup a b c d e = simp append_assoc

module _ (S : Stream) (R : IsReliable S) {V : Type 0} (fmt : Formats V) where
  pub send_plan-Does :
      (plan : BackupPlan V) (body : Bytes) (s : S.State)
      → Travels fmt.control (plan_frame plan) body
      → Does
          (tape S R)
          (send_plan S fmt.control fmt.debug plan s)
          s
          tt
          (R.pending s)
          (framed body)
          none
  unfolding send_plan
  send_plan-Does plan body s t =
      send_frame-Does S R fmt.control (plan_frame plan) body s t.written t.fits

  recv_ack-Does :
      (reason : String) (body rest : Bytes) (s : S.State)
      → Travels fmt.control (plan_ack true reason) body
      → R.pending s ≡ framed body ++ rest
      → Does (tape S R) (recv_ack S fmt.control fmt.debug s) s tt rest [] none
  unfolding recv_ack
  recv_ack-Does reason body rest s t p =
      let d =
        recv_frame-Does S R fmt.control (plan_ack true reason) body rest s p t.fits t.read_back in
      bind-Does (tape S R) (recv_frame S fmt.control) (take_ack S fmt.control fmt.debug) s [] d
        (recast-Does (tape S R) (pure-Does (tape S R) tt d.last) refl d.input refl refl)

  module _ (B : Type 0) (encode : DataFrame → Bytes) (src : Source V B) where
    -- A stage of the source: from `d` it comes to the call `next` in the state `last`.
    pub record Stage (call : Result (SourceOutcome V) × Side S fmt B)
        (next : Side S fmt B → Result (SourceOutcome V) × Side S fmt B) (d : Side S fmt B)
        (left out : Bytes) (p : Option Progress) : Type 0 where
      pub last : Side S fmt B
      pub result : call ≡ next last
      pub input : R.pending last.link.stream ≡ left
      pub output : R.sent last.link.stream ≡ R.sent d.link.stream ++ out
      pub note : (side S R fmt B).note last ≡ (p, d.backend)

    pub exchange :
        (fp reason : String) (plan : BackupPlan V) (plan_body ack_body rest : Bytes)
        (d : Side S fmt B)
        → R.pending d.link.stream ≡ framed ack_body ++ rest
        → Travels fmt.control (plan_frame plan) plan_body
        → Travels fmt.control (plan_ack true reason) ack_body
        → Stage
            (serve S fmt B src fp plan d)
            (stream_payload S fmt B src fp plan)
            d
            rest
            (framed plan_body)
            d.link.progress
    unfolding serve
    exchange fp reason plan plan_body ack_body rest d p t_plan t_ack =
        let s1 =
          on_wire-Does S R fmt B (send_plan S fmt.control fmt.debug plan) d
            (send_plan-Does plan plan_body d.link.stream t_plan) in
        let s2 =
          on_wire-Does S R fmt B (recv_ack S fmt.control fmt.debug) s1.last
            (recv_ack-Does reason ack_body rest s1.last.link.stream t_ack (s1.input ∙ p)) in
        record {
          last = s2.last;
          result =
              ap
                (continue (λ _.
                  on_wire S fmt B (recv_ack S fmt.control fmt.debug)
                  >> stream_payload S fmt B src fp plan))
                s1.result
              ∙ ap (continue (λ _. stream_payload S fmt B src fp plan)) s2.result;
          input = s2.input;
          output = s2.output ∙ append-nil (R.sent s1.last.link.stream) ∙ s1.output;
          note = s2.counted ∙ s1.counted;
        }

    stream :
        (fp : String) (plan : BackupPlan V) (es : List ChunkEvent) (d : Side S fmt B)
        → src.stream_out plan d.backend ≡ sends es d.backend
        → All (IsSendable fmt.frames fmt.blake3_hex encode) es
        → Travels fmt.frames stream_end (encode stream_end)
        → Stage
            (stream_payload S fmt B src fp plan d)
            (λ e. conclude S fmt B src fp plan (counted_bytes S fmt B e.link) e)
            d
            (R.pending d.link.stream)
            (wire fmt.frames fmt.blake3_hex encode es ++ framed (encode stream_end))
            (meters es d.link.progress)
    unfolding stream_payload
    stream fp plan es d up t_es t_end =
        let s1 = upload-Does S R fmt B encode es d.backend d.link t_es in
        let s2 =
          on_link-Does S R fmt B (finish S fmt.frames fmt.blake3_hex) s1.last
            (finish-Does S R fmt.frames fmt.blake3_hex (encode stream_end) s1.last.link t_end) in
        record {
          last = s2.last;
          result =
              ap
                (λ u.
                  continue
                    (λ _. on_link S fmt B (finish S fmt.frames fmt.blake3_hex) >> λ e.
                      conclude S fmt B src fp plan (counted_bytes S fmt B e.link) e)
                    (upload S fmt B u d.link))
                up
              ∙ ap
                  (continue (λ _. on_link S fmt B (finish S fmt.frames fmt.blake3_hex) >> λ e.
                    conclude S fmt B src fp plan (counted_bytes S fmt B e.link) e))
                  s1.result
              ∙ ap (continue (λ _ e. conclude S fmt B src fp plan (counted_bytes S fmt B e.link) e))
                  s2.result;
          input = s2.input ∙ s1.input;
          output =
              s2.output
              ∙ ap (λ x. x ++ framed (encode stream_end)) s1.output
              ∙ append_assoc (R.sent d.link.stream) (wire fmt.frames fmt.blake3_hex encode es)
                  (framed (encode stream_end));
          note = s2.counted ∙ s1.counted;
        }

    announce :
        (fp : String) (plan : BackupPlan V) (n : ℕ) (body : Bytes) (d : Side S fmt B)
        → Travels fmt.control (done n "") body
        → Stage
            (conclude S fmt B src fp plan n d)
            (λ e. continue (audit S fmt B src plan n fp) (on_backend S fmt B src.fingerprint e))
            d
            (R.pending d.link.stream)
            (framed body)
            d.link.progress
    unfolding conclude
    announce fp plan n body d t =
        let s =
          on_wire-Does S R fmt B (send_frame S fmt.control (done n "")) d
            (send_frame-Does S R fmt.control (done n "") body d.link.stream t.written t.fits) in
        record {
          last = s.last;
          result =
              ap
                (continue (λ _. on_backend S fmt B src.fingerprint >>= audit S fmt B src plan n fp))
                s.result;
          input = s.input;
          output = s.output;
          note = s.counted;
        }

    -- An accepted source, on a healthy substream: it has sent its plan, the events of its module, the
    -- end of the stream and a completion with its byte count, and now stands before its audit.
    pub record Served (fp : String) (plan : BackupPlan V) (d : Side S fmt B) (es : List ChunkEvent)
        (rest out : Bytes) : Type 0 where
      pub last : Side S fmt B
      pub result :
          serve S fmt B src fp plan d
          ≡ continue
              (audit S fmt B src plan (total es d.link.progress) fp)
              (on_backend S fmt B src.fingerprint last)
      pub backend : last.backend ≡ d.backend
      pub output : R.sent last.link.stream ≡ R.sent d.link.stream ++ out
      pub input : R.pending last.link.stream ≡ rest

    pub serve-Served :
        (fp reason : String) (plan : BackupPlan V) (es : List ChunkEvent)
        (plan_body ack_body done_body rest : Bytes) (d : Side S fmt B)
        → src.stream_out plan d.backend ≡ sends es d.backend
        → R.pending d.link.stream ≡ framed ack_body ++ rest
        → Travels fmt.control (plan_frame plan) plan_body
        → Travels fmt.control (plan_ack true reason) ack_body
        → All (IsSendable fmt.frames fmt.blake3_hex encode) es
        → Travels fmt.frames stream_end (encode stream_end)
        → Travels fmt.control (done (total es d.link.progress) "") done_body
        → Served fp plan d es rest (transcript fmt encode plan_body es done_body)
    unfolding counted_bytes
    serve-Served fp reason plan es plan_body ack_body done_body rest d up p t_plan t_ack t_es t_end
          t_done =
        let s1 = exchange fp reason plan plan_body ack_body rest d p t_plan t_ack in
        let b1 : s1.last.backend ≡ d.backend = ap (λ n. n.1) s1.note in
        let s2 =
          stream fp plan es s1.last (ap (src.stream_out plan) b1 ∙ up ∙ ap (sends es) (sym b1)) t_es
            t_end in
        let n2 : counted_bytes S fmt B s2.last.link ≡ total es d.link.progress =
          ap (λ n. elim n.0 [ none ↦ 0 | some q ↦ bytes q ]) s2.note
          ∙ ap (λ n. total es n.0) s1.note in
        let s3 = announce fp plan (total es d.link.progress) done_body s2.last t_done in
        record {
          last = s3.last;
          result =
              s1.result
              ∙ s2.result
              ∙ ap (λ n. conclude S fmt B src fp plan n s2.last) n2
              ∙ s3.result;
          backend = ap (λ n. n.1) s3.note ∙ ap (λ n. n.1) s2.note ∙ b1;
          output =
              s3.output
              ∙ ap (λ x. x ++ framed done_body)
                  (s2.output
                    ∙ ap
                        (λ x.
                          x
                          ++ (wire fmt.frames fmt.blake3_hex encode es
                              ++ framed (encode stream_end)))
                        s1.output)
              ∙ regroup (R.sent d.link.stream) (framed plan_body)
                  (wire fmt.frames fmt.blake3_hex encode es) (framed (encode stream_end))
                  (framed done_body);
          input = s3.input ∙ s2.input ∙ s1.input;
        }
