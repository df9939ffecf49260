-- ===== src/Core/Session/Release.antt =====
-- When `run_source` of crates/rb-core/src/session.rs asks its backend for the payload, on any stream, any
-- channel and any backend.
use rust_backup.Prelude.{
  ◌≡◌, refl, ap, subst, sym, ◌∙◌, ◌⊎◌, inl, inr, String, true, false, Option, some, none,
}
use rust_backup.Core.Error.{Result, ok, err, Fails, continue, ◌>>◌}
use rust_backup.Core.Plan.{BackupPlan}
use rust_backup.Core.Progress.{Progress}
use rust_backup.Core.Wire.{Stream, ControlFrame, plan_frame, plan_ack, done, abort, recv_frame}
use rust_backup.Core.Channel.{new_counted, send_plan, recv_ack, take_ack, on_stream}
use rust_backup.Core.Session.{
  Formats, Side, Source, SourceOutcome, DataChannel, on_wire, stream_payload, serve, prepare,
  serve_plan, serve_stream, run_source,
}

module _ (S : Stream) {V : Type 0} (fmt : Formats V) (B : Type 0) (src : Source V B) where
  -- The plan went out on a substream, and the next frame there was an acceptance.
  pub record Accepted (plan : BackupPlan V) (s : S.State) : Type 0 where
    pub reason : String
    pub before : S.State
    pub after : S.State
    pub sent : send_plan S fmt.control fmt.debug plan s ≡ (ok tt, before)
    pub read : recv_frame S fmt.control before ≡ (ok (some (plan_ack true reason)), after)

  -- A failed call that has left the backend alone, or an acceptance on the substream `s`.
  abbrev Held :
      BackupPlan V → S.State → Side S fmt B → Result (SourceOutcome V) × Side S fmt B → Type 0
  Held plan s d r = (Fails r.0 × (r.1.backend ≡ d.backend)) ⊎ Accepted plan s

  -- The side `d` with its substream at `s`.
  abbrev at : Side S fmt B → S.State → Side S fmt B
  at d s = record d { link = record (d.link) { stream = s } }

  abbrev behind_frame :
      String
      → BackupPlan V
      → Side S fmt B
      → Result (Option (ControlFrame V)) × S.State
      → Result (SourceOutcome V) × Side S fmt B
  behind_frame fp plan d r =
      let q = continue (take_ack S fmt.control fmt.debug) r in
      continue (λ _. stream_payload S fmt B src fp plan) (q.0, at d q.1)

  frame-Held :
      (fp : String) (plan : BackupPlan V) (s t : S.State) (d : Side S fmt B)
      (r : Result (Option (ControlFrame V)) × S.State)
      → send_plan S fmt.control fmt.debug plan s ≡ (ok tt, t)
      → recv_frame S fmt.control t ≡ r
      → Held plan s d (behind_frame fp plan d r)
  unfolding recv_ack
  frame-Held fp plan s t d (err e, u) sent h = inl ((e, refl), refl)
  frame-Held fp plan s t d (ok none, u) sent h = inl ((_, refl), refl)
  frame-Held fp plan s t d (ok (some (plan_frame p)), u) sent h = inl ((_, refl), refl)
  frame-Held fp plan s t d (ok (some (plan_ack true reason)), u) sent h =
      inr (record { reason = reason; before = t; after = u; sent = sent; read = h })
  frame-Held fp plan s t d (ok (some (plan_ack false reason)), u) sent h = inl ((_, refl), refl)
  frame-Held fp plan s t d (ok (some (done total digest)), u) sent h = inl ((_, refl), refl)
  frame-Held fp plan s t d (ok (some (abort reason)), u) sent h = inl ((_, refl), refl)

  abbrev behind_plan :
      String
      → BackupPlan V
      → Side S fmt B
      → Result (Unit {0}) × S.State
      → Result (SourceOutcome V) × Side S fmt B
  behind_plan fp plan d r =
      continue
        (λ _.
          on_wire S fmt B (recv_ack S fmt.control fmt.debug) >> stream_payload S fmt B src fp plan)
        (r.0, at d r.1)

  plan-Held :
      (fp : String) (plan : BackupPlan V) (s : S.State) (d : Side S fmt B)
      (r : Result (Unit {0}) × S.State)
      → send_plan S fmt.control fmt.debug plan s ≡ r
      → Held plan s d (behind_plan fp plan d r)
  unfolding recv_ack on_stream
  plan-Held fp plan s d (err e, t) sent = inl ((e, refl), refl)
  plan-Held fp plan s d (ok _, t) sent =
      frame-Held fp plan s t (at d t) (recv_frame S fmt.control t) sent refl

  serve-Held :
      (fp : String) (plan : BackupPlan V) (d : Side S fmt B)
      → Held plan d.link.stream d (serve S fmt B src fp plan d)
  unfolding serve on_stream
  serve-Held fp plan d =
      plan-Held fp plan d.link.stream d (send_plan S fmt.control fmt.debug plan d.link.stream) refl

  module _ {C : Type 0} (channel : DataChannel S C) (progress : Progress) where
    -- How the run of a source comes out, from the backend `b` and the channel `k`: its result, and the
    -- backend that it leaves. If the backend could not be analysed, or its plan was not accepted on the
    -- substream that the channel handed out, it fails and has asked the backend for nothing behind its
    -- analysis; and only what is behind an acceptance is left open.
    pub data Released (b : B) (k : C) : Result (SourceOutcome V) → B → Type 0 where
      unprepared :
          {r : Result (SourceOutcome V)}
          → Fails (prepare S fmt B src b).0
          → Fails r
          → Released b k r (prepare S fmt B src b).1
      unanswered :
          (fp : String) (plan : BackupPlan V) {r : Result (SourceOutcome V)}
          → (prepare S fmt B src b).0 ≡ ok (fp, plan)
          → Fails r
          → Released b k r (prepare S fmt B src b).1
      released :
          (fp : String) (plan : BackupPlan V) (s : S.State) (left : C)
          {r : Result (SourceOutcome V)} {last : B}
          → (prepare S fmt B src b).0 ≡ ok (fp, plan)
          → channel.accept_stream k ≡ (ok s, left)
          → Accepted plan s
          → Released b k r last

    serve_stream-Released :
        (b b' : B) (k : C) (fp : String) (plan : BackupPlan V) (r : Result S.State × C)
        → prepare S fmt B src b ≡ (ok (fp, plan), b')
        → channel.accept_stream k ≡ r
        → Released b k
            (serve_stream S fmt B src channel progress fp plan b' r).result
            (serve_stream S fmt B src channel progress fp plan b' r).backend
    unfolding serve_stream
    serve_stream-Released b b' k fp plan (err e, left) h handed =
        subst (Released b k (err e)) (ap (λ r. r.1) h)
          (unanswered fp plan (ap (λ r. r.0) h) (e, refl))
    serve_stream-Released b b' k fp plan (ok s, left) h handed =
        let d : Side S fmt B = record { backend = b'; link = new_counted S s progress } in
        elim (serve-Held fp plan d) [
          | inl (fails, same) ↦
              subst (Released b k (serve S fmt B src fp plan d).0) (ap (λ r. r.1) h ∙ sym same)
                (unanswered fp plan (ap (λ r. r.0) h) fails)
          | inr accepted ↦ released fp plan s left (ap (λ r. r.0) h) handed accepted
        ]

    serve_plan-Released :
        (b : B) (k : C) (r : Result (String × BackupPlan V) × B)
        → prepare S fmt B src b ≡ r
        → Released b k
            (serve_plan S fmt B src channel progress k r).result
            (serve_plan S fmt B src channel progress k r).backend
    unfolding serve_plan
    serve_plan-Released b k (err e, b') h =
        subst (Released b k (err e)) (ap (λ r. r.1) h) (unprepared (e, ap (λ r. r.0) h) (e, refl))
    serve_plan-Released b k (ok (fp, plan), b') h =
        serve_stream-Released b b' k fp plan (channel.accept_stream k) h refl

    -- Whatever the peer sends and whatever the stream does, a source only asks its backend for the payload
    -- if it has sent its plan on the substream that it was handed, and the next frame there was an
    -- acceptance. In every other case the run fails, and the backend is as its analysis left it.
    pub run_source-Released :
        (b : B) (k : C)
        → Released b k
            (run_source S fmt B src channel progress b k).result
            (run_source S fmt B src channel progress b k).backend
    unfolding run_source
    run_source-Released b k = serve_plan-Released b k (prepare S fmt B src b) refl
