-- ===== src/Core/Session/Restoring.antt =====
-- `run_destination` of crates/rb-core/src/session.rs on a healthy substream: the decision, the restore,
-- and what counts as a complete transfer.
use rust_backup.Prelude.{
  ℕ, ◌<◌, ◌≡◌, refl, ap, sym, ◌∙◌, ◌⊎◌, inl, inr, String, Bool, true, false, Option, none, List, [],
  ◌++◌, append-nil, All, length, arith,
}
use rust_backup.Core.Error.{Result, ok, err, continue, ◌>>=◌}
use rust_backup.Core.Plan.{BackupPlan, Preflight}
use rust_backup.Core.Wire.{
  Bytes, Stream, ControlFrame, plan_ack, done, DataFrame, stream_end, recv_frame,
}
use rust_backup.Core.Wire.Tape.{Does}
use rust_backup.Core.Wire.Reliable.{IsReliable, tape}
use rust_backup.Core.Wire.Frames.{framed, send_frame-Does, recv_frame-Does, recv_frame_end-Does}
use rust_backup.Core.Channel.{ChunkEvent, send_ack}
use rust_backup.Core.Channel.Chunks.{Travels, next_end-Does, next_cut-Does}
use rust_backup.Core.Channel.Transfer.{wire, IsSendable}
use rust_backup.Core.Session.{
  Formats, Side, Destination, on_wire, download, decide, reason_of, refusal, completion, restore,
  answer, consider, judge,
}
use rust_backup.Core.Session.Effects.{on_wire-Does, takes, apply_all, IsItem, EndsAt, download-Does}

module _ (S : Stream) (R : IsReliable S) {V : Type 0} (fmt : Formats V) (B : Type 0)
    (dest : Destination V B) where
  pub send_ack-Does :
      (accepted : Bool) (reason : String) (body : Bytes) (s : S.State)
      → Travels fmt.control (plan_ack accepted reason) body
      → Does
          (tape S R)
          (send_ack S fmt.control fmt.debug accepted reason s)
          s
          tt
          (R.pending s)
          (framed body)
          none
  unfolding send_ack
  send_ack-Does accepted reason body s t =
      send_frame-Does S R fmt.control (plan_ack accepted reason) body s t.written t.fits

  -- A destination that refuses tells the peer so, fails with the error of the refusal, and leaves its
  -- backend alone.
  answer_refused :
      (plan : BackupPlan V) (preflight_ok : Bool) (body : Bytes) (d : Side S fmt B)
      → Travels fmt.control (plan_ack false (reason_of S fmt B dest preflight_ok false)) body
      → (last : Side S fmt B) × (answer S fmt B dest plan preflight_ok false d ≡ (
        err (refusal S fmt B dest preflight_ok (reason_of S fmt B dest preflight_ok false)),
        last,
      ))
        × (last.backend ≡ d.backend)
        × (R.sent last.link.stream ≡ R.sent d.link.stream ++ framed body)
  unfolding answer
  answer_refused plan preflight_ok body d t =
      let s =
        on_wire-Does S R fmt B
          (send_ack S fmt.control fmt.debug false (reason_of S fmt B dest preflight_ok false)) d
          (send_ack-Does false (reason_of S fmt B dest preflight_ok false) body d.link.stream t) in
      (
        s.last,
        ap
            (continue (λ _ e. (
              err (refusal S fmt B dest preflight_ok (reason_of S fmt B dest preflight_ok false)),
              e,
            )))
            s.result,
        ap (λ n. n.1) s.counted,
        s.output,
      )

  module _ (encode : DataFrame → Bytes) (step : ChunkEvent → B → B) where
    -- The payload is applied event by event, and then whatever the peer says last is read.
    restore-frame :
        (plan : BackupPlan V) (es : List ChunkEvent) (n : ℕ) (d : Side S fmt B)
        {tail rest left : Bytes} {f : Option (ControlFrame V)}
        → dest.stream_in plan d.backend ≡ takes step n d.backend
        → All (IsSendable fmt.frames fmt.blake3_hex encode) es
        → All IsItem es
        → length es < n
        → EndsAt S R fmt B encode tail rest
        → R.pending d.link.stream ≡ wire fmt.frames fmt.blake3_hex encode es ++ tail
        → ((s : S.State)
            → R.pending s ≡ rest
            → Does (tape S R) (recv_frame S fmt.control s) s f left [] none)
        → (last : Side S fmt B) × (restore S fmt B dest plan d
            ≡ completion S fmt B dest plan f last)
          × (last.backend ≡ apply_all step es d.backend)
          × (R.sent last.link.stream ≡ R.sent d.link.stream)
    unfolding restore
    restore-frame plan es n d {f} code ok_es items lt ends p final =
        let s1 = download-Does S R fmt B encode step es n d.backend d.link ok_es items lt ends p in
        let s2 =
          on_wire-Does S R fmt B (recv_frame S fmt.control) s1.last
            (final s1.last.link.stream s1.input) in
        (
          s2.last,
          ap
                (λ u.
                  continue
                    (λ _.
                      on_wire S fmt B (recv_frame S fmt.control) >>= completion S fmt B dest plan)
                    (download S fmt B u d.link))
                code
              ∙ ap
                  (continue (λ _.
                    on_wire S fmt B (recv_frame S fmt.control) >>= completion S fmt B dest plan))
                  s1.result
              ∙ ap (continue (completion S fmt B dest plan)) s2.result,
          ap (λ n. n.1) s2.counted ∙ ap (λ n. n.1) s1.counted,
          s2.output
              ∙ append-nil (R.sent s1.last.link.stream)
              ∙ s1.output
              ∙ append-nil (R.sent d.link.stream),
        )

    ends_marked :
        (rest : Bytes)
        → Travels fmt.frames stream_end (encode stream_end)
        → EndsAt S R fmt B encode (framed (encode stream_end) ++ rest) rest
    ends_marked rest t c p =
        next_end-Does S R fmt.frames fmt.blake3_hex (encode stream_end) rest c t p

    ends_cut : EndsAt S R fmt B encode [] []
    ends_cut c p = next_cut-Does S R fmt.frames fmt.blake3_hex c (rw p (omega arith))

    -- A transfer that is complete, with its end and its completion, succeeds.
    pub restore_complete :
        (plan : BackupPlan V) (es : List ChunkEvent) (n bytes_sent : ℕ) (done_body rest : Bytes)
        (d : Side S fmt B)
        → dest.stream_in plan d.backend ≡ takes step n d.backend
        → All (IsSendable fmt.frames fmt.blake3_hex encode) es
        → All IsItem es
        → length es < n
        → Travels fmt.frames stream_end (encode stream_end)
        → Travels fmt.control (done bytes_sent "") done_body
        → R.pending d.link.stream
          ≡ wire fmt.frames fmt.blake3_hex encode es
            ++ (framed (encode stream_end) ++ (framed done_body ++ rest))
        → (last : Side S fmt B) × (restore S fmt B dest plan d ≡ (ok plan, last))
          × (last.backend ≡ apply_all step es d.backend)
          × (R.sent last.link.stream ≡ R.sent d.link.stream)
    unfolding completion
    restore_complete plan es n bytes_sent done_body rest d code ok_es items lt t_end t_done p =
        restore-frame plan es n d code ok_es items lt (ends_marked (framed done_body ++ rest) t_end)
          p
          (λ s q.
            recv_frame-Does S R fmt.control (done bytes_sent "") done_body rest s q t_done.fits
              t_done.read_back)

    -- A restore whose connection is cut behind any of its events succeeds: if a healthy substream ends
    -- behind the sendable events `es`, without the end marker and without the completion frame, a
    -- module that takes events up to the end has applied just these, and `restore` returns the plan.
    pub restore_cut :
        (plan : BackupPlan V) (es : List ChunkEvent) (n : ℕ) (d : Side S fmt B)
        → dest.stream_in plan d.backend ≡ takes step n d.backend
        → All (IsSendable fmt.frames fmt.blake3_hex encode) es
        → All IsItem es
        → length es < n
        → R.pending d.link.stream ≡ wire fmt.frames fmt.blake3_hex encode es
        → (last : Side S fmt B) × (restore S fmt B dest plan d ≡ (ok plan, last))
          × (last.backend ≡ apply_all step es d.backend)
          × (R.sent last.link.stream ≡ R.sent d.link.stream)
    unfolding completion
    restore_cut plan es n d code ok_es items lt p =
        restore-frame plan es n d code ok_es items lt ends_cut (p ∙ sym (append-nil _))
          (λ s q. recv_frame_end-Does S R fmt.control s (rw q (omega arith)))

    -- An approved, complete transfer: the acceptance goes out, and every event is applied.
    pub answer_accepted :
        (plan : BackupPlan V) (es : List ChunkEvent) (n bytes_sent : ℕ)
        (ack_body done_body rest : Bytes) (d : Side S fmt B)
        → dest.stream_in plan d.backend ≡ takes step n d.backend
        → All (IsSendable fmt.frames fmt.blake3_hex encode) es
        → All IsItem es
        → length es < n
        → Travels fmt.control (plan_ack true "accepted") ack_body
        → Travels fmt.frames stream_end (encode stream_end)
        → Travels fmt.control (done bytes_sent "") done_body
        → R.pending d.link.stream
          ≡ wire fmt.frames fmt.blake3_hex encode es
            ++ (framed (encode stream_end) ++ (framed done_body ++ rest))
        → (last : Side S fmt B) × (answer S fmt B dest plan true true d ≡ (ok plan, last))
          × (last.backend ≡ apply_all step es d.backend)
          × (R.sent last.link.stream ≡ R.sent d.link.stream ++ framed ack_body)
    unfolding answer
    answer_accepted plan es n bytes_sent ack_body done_body rest d code ok_es items lt t_ack t_end
          t_done p =
        let s =
          on_wire-Does S R fmt B (send_ack S fmt.control fmt.debug true "accepted") d
            (send_ack-Does true "accepted" ack_body d.link.stream t_ack) in
        let same : s.last.backend ≡ d.backend = ap (λ n. n.1) s.counted in
        let (last, result, back, out) =
          restore_complete plan es n bytes_sent done_body rest s.last
            (ap (dest.stream_in plan) same ∙ code ∙ ap (takes step n) (sym same)) ok_es items lt
            t_end t_done (s.input ∙ p) in
        (
          last,
          ap (continue (λ _. restore S fmt B dest plan)) s.result ∙ result,
          back ∙ ap (apply_all step es) same,
          out ∙ s.output,
        )

  module _ {P : Type 0} (accept : BackupPlan V → P → Bool × P) where
    -- Why a destination refuses, and the state in which the policy is left: a failed preflight does not
    -- consult it.
    abbrev pub Refuses : BackupPlan V → Preflight → P → P → Type 0
    Refuses plan preflight q q' =
        ((preflight.ok ≡ false) × (q' ≡ q))
        ⊎ ((preflight.ok ≡ true) × (accept plan q ≡ (false, q')))

    decide-false :
        (plan : BackupPlan V) (preflight : Preflight) (q q' : P)
        → Refuses plan preflight q q'
        → decide S fmt B dest accept plan preflight q ≡ (false, q')
    unfolding decide
    decide-false plan preflight q q' (inl (failed, same)) =
        rw failed (ap (λ q. (false, q)) (sym same))
    decide-false plan preflight q q' (inr (passed, refused)) = rw passed refused

    -- A destination whose preflight failed, or whose policy rejects the plan, on a healthy substream
    -- and with a codec that carries the answer, tells the peer so, fails with the error that matches,
    -- asks for no payload, and leaves its backend as the preflight left it. `Refuses` says that a failed
    -- preflight does not consult the policy.
    pub consider_refused :
        (plan : BackupPlan V) (preflight : Preflight) (q q' : P) (b : B) (body : Bytes)
        (d : Side S fmt B)
        → dest.validate plan d.backend ≡ (ok preflight, b)
        → Refuses plan preflight q q'
        → Travels fmt.control (plan_ack false (reason_of S fmt B dest preflight.ok false)) body
        → (last : Side S fmt B) × (consider S fmt B dest accept plan q d ≡ (
          (
            err (refusal S fmt B dest preflight.ok (reason_of S fmt B dest preflight.ok false)),
            last,
          ),
          q',
        ))
          × (last.backend ≡ b)
          × (R.sent last.link.stream ≡ R.sent d.link.stream ++ framed body)
    unfolding consider
    consider_refused plan preflight q q' b body d v refused t =
        let (last, result, same, out) =
          answer_refused plan preflight.ok body (record d { backend = b }) t in
        (
          last,
          ap
                (λ (r : Result Preflight × B).
                  judge S fmt B dest accept plan q (r.0, record d { backend = r.1 }))
                v
              ∙ ap
                  (λ (r : Bool × P).
                    (answer S fmt B dest plan preflight.ok r.0 (record d { backend = b }), r.1))
                  (decide-false plan preflight q q' refused)
              ∙ ap (λ r. (r, q')) result,
          same,
          out,
        )

    -- The other way: a passed preflight and an accepted plan.
    pub consider_accepted :
        (plan : BackupPlan V) (preflight : Preflight) (q q' : P) (b : B) (d : Side S fmt B)
        → dest.validate plan d.backend ≡ (ok preflight, b)
        → preflight.ok ≡ true
        → accept plan q ≡ (true, q')
        → consider S fmt B dest accept plan q d
          ≡ (answer S fmt B dest plan true true (record d { backend = b }), q')
    unfolding consider decide
    consider_accepted plan preflight q q' b d v passed yes_please =
        ap
          (λ (r : Result Preflight × B).
            judge S fmt B dest accept plan q (r.0, record d { backend = r.1 }))
          v
        ∙ rw (passed, yes_please) refl
