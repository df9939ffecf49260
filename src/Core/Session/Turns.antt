-- ===== src/Core/Session/Turns.antt =====
-- The turns of `run_source` and `run_destination` of crates/rb-core/src/session.rs: what each side writes on
-- what it has read so far.
use rust_backup.Prelude.{
  ◌<◌, ◌≡◌, refl, ap, sym, ◌∙◌, subst, String, ◌<>◌, Bool, true, Option, none, some, List, [], ◌++◌,
  append-nil, length, arith,
}
use rust_backup.Core.Error.{Result, ok, err, connect, phase, continue, ◌>>◌}
use rust_backup.Core.Plan.{BackupPlan}
use rust_backup.Core.Progress.{Progress}
use rust_backup.Core.Wire.{Bytes, Stream, ControlFrame, plan_frame, plan_ack, DataFrame}
use rust_backup.Core.Wire.Reliable.{IsReliable}
use rust_backup.Core.Wire.Frames.{framed, recv_frame_end-Does}
use rust_backup.Core.Channel.{
  ChunkEvent, Counted, new_counted, on_stream, send_plan, recv_ack, take_ack,
}
use rust_backup.Core.Channel.Chunks.{Travels}
use rust_backup.Core.Session.{
  Formats, Side, Source, Destination, DataChannel, on_wire, stream_payload, serve, run_source,
  run_destination,
}
use rust_backup.Core.Session.Cut.{answer_cut}
use rust_backup.Core.Session.Effects.{on_wire-Does, apply_all}
use rust_backup.Core.Session.EndToEnd.{source_runs, destination_runs}
use rust_backup.Core.Session.Opening.{
  ended, source_comes, ended_with, destination_comes, recv_plan-Does,
}
use rust_backup.Core.Session.Partners.{Sends, Takes, Carried}
use rust_backup.Core.Session.Restoring.{consider_accepted}
use rust_backup.Core.Session.Serving.{transcript, total, send_plan-Does}

-- A channel that hands out one substream.
abbrev pub handing : (S : Stream) → S.State → DataChannel S (Unit {0})
handing S s = record { open_stream = λ k. (ok s, k); accept_stream = λ k. (ok s, k) }

module _ (S : Stream) (R : IsReliable S) {V : Type 0} (fmt : Formats V) where
  -- What a run has written, if it came to a substream.
  abbrev pub written : Option (Counted S) → Bytes
  written none = []
  written (some l) = R.sent l.stream

  -- A source whose connection ends before the decision has sent its plan and nothing else, and leaves its
  -- backend untouched.
  serve_cut :
      (B : Type 0) (src : Source V B) (fp : String) (plan : BackupPlan V) (plan_body : Bytes)
      (d : Side S fmt B)
      → length (R.pending d.link.stream) < 4
      → Travels fmt.control (plan_frame plan) plan_body
      → (last : Side S fmt B) × (serve S fmt B src fp plan d
          ≡ (err (phase connect ("expected PlanAck, got " <> fmt.debug none)), last))
        × (last.backend ≡ d.backend)
        × (R.sent last.link.stream ≡ R.sent d.link.stream ++ framed plan_body)
  unfolding serve recv_ack on_stream
  serve_cut B src fp plan plan_body d short t_plan =
      let s1 =
        on_wire-Does S R fmt B (send_plan S fmt.control fmt.debug plan) d
          (send_plan-Does S R fmt plan plan_body d.link.stream t_plan) in
      let ack =
        recv_frame_end-Does S R fmt.control s1.last.link.stream
          (subst (λ p. length p < 4) (sym s1.input) short) in
      (
        record (s1.last) { link = record (s1.last.link) { stream = ack.last } },
        ap
              (continue (λ _.
                on_wire S fmt B (recv_ack S fmt.control fmt.debug)
                >> stream_payload S fmt B src fp plan))
              s1.result
            ∙ ap
                (λ (r : Result (Option (ControlFrame V)) × S.State).
                  (let q = continue (take_ack S fmt.control fmt.debug) r in
                    continue (λ _. stream_payload S fmt B src fp plan)
                      (q.0, record (s1.last) { link = record (s1.last.link) { stream = q.1 } })))
                ack.result,
        ap (λ n. n.1) s1.counted,
        ack.output ∙ append-nil (R.sent s1.last.link.stream) ∙ s1.output,
      )

  -- The first turn of a source, and that of a destination.
  source_begins :
      (B : Type 0) (src : Source V B) (progress : Progress) (plan : BackupPlan V)
      (es : List ChunkEvent) (plan_body : Bytes) (b last : B) (s : S.State)
      → Sends src plan es b last
      → Travels fmt.control (plan_frame plan) plan_body
      → R.pending s ≡ []
      → written (run_source S fmt B src (handing S s) progress b tt).link
        ≡ R.sent s ++ framed plan_body
  source_begins B src progress plan es plan_body b last s o t nothing =
      let (d, cut, _, out) =
        serve_cut B src o.fp plan plan_body
          (record { backend = o.streamed; link = new_counted S s progress })
          (subst (λ p. length p < 4) (sym nothing) (omega arith)) t in
      ap (λ r. written r.link)
        (source_comes S fmt B src (handing S s) progress o.fp plan b o.analyzed o.streamed tt tt s
            o.before o.analysis refl
          ∙ ap (ended S fmt tt) cut)
      ∙ out

  destination_answers :
      (B : Type 0) (dest : Destination V B) (encode : DataFrame → Bytes) {P : Type 0}
      (accept : BackupPlan V → P → Bool × P) (progress : Progress) (step : ChunkEvent → B → B)
      (plan : BackupPlan V) (es : List ChunkEvent) (plan_body ack_body : Bytes) (b first : B)
      (q q' : P) (s : S.State)
      → Takes dest step plan es b first
      → accept plan q ≡ (true, q')
      → Travels fmt.control (plan_frame plan) plan_body
      → Travels fmt.control (plan_ack true "accepted") ack_body
      → R.pending s ≡ framed plan_body
      → written (run_destination S fmt B dest accept (handing S s) progress b tt q).run.link
        ≡ R.sent s ++ framed ack_body
  destination_answers B dest encode accept progress step plan es plan_body ack_body b first q q' s i
        approved t_plan t_ack p =
      let s1 =
        recv_plan-Does S R fmt plan plan_body [] s t_plan
          (p ∙ sym (append-nil (framed plan_body))) in
      let d : Side S fmt B = record { backend = b; link = new_counted S s1.last progress } in
      let (last, cut, _, out) =
        answer_cut S R fmt encode B dest step plan [] i.turns ack_body
          (record d { backend = first }) i.stream_in
          (let enough : length es < i.turns = i.enough in omega arith) tt tt t_ack s1.input in
      ap (λ r. written r.run.link)
        (destination_comes S fmt B dest accept (handing S s) progress plan b tt tt q s s1.last refl
            s1.result
          ∙ ap (ended_with S fmt B dest accept (handing S s) progress tt) (
              consider_accepted S R fmt B dest accept plan i.preflight q q' first d i.validated
                i.passed approved
              ∙ ap (λ r. (r, q')) cut))
      ∙ out
      ∙ ap (λ x. x ++ framed ack_body) (s1.output ∙ append-nil (R.sent s))

module _ (S : Stream) (R : IsReliable S) (S' : Stream) (R' : IsReliable S') {V : Type 0}
    (fmt : Formats V) where
  -- The two sides of a backup never wait for each other. On healthy substreams, with backends that serve
  -- the plan, a policy that approves and a codec that carries the frames of the run: a source that has
  -- read nothing has sent its plan (`s0`); a destination that has read this and no more has sent its
  -- acceptance (`t0`); a source that has read this and no more has sent all that is left and succeeds
  -- (`s1`); and on all this a destination succeeds and has applied the events (`t1`).
  pub sides_take_turns :
      (encode : DataFrame → Bytes) (B : Type 0) (src : Source V B) (progress : Progress)
      (B' : Type 0) (dest : Destination V B') {P : Type 0} (accept : BackupPlan V → P → Bool × P)
      (progress' : Progress) (step : ChunkEvent → B' → B') (plan : BackupPlan V)
      (es : List ChunkEvent) (plan_body ack_body done_body : Bytes) (b last : B) (b' first : B')
      (q q' : P) (s0 s1 : S.State) (t0 t1 : S'.State)
      → Sends src plan es b last
      → Takes dest step plan es b' first
      → accept plan q ≡ (true, q')
      → Carried fmt encode plan es (total es (some progress)) plan_body ack_body done_body
      → R.pending s0 ≡ []
      → R'.pending t0 ≡ framed plan_body
      → R.pending s1 ≡ framed ack_body
      → R'.pending t1 ≡ transcript fmt encode plan_body es done_body
      → (written S R fmt (run_source S fmt B src (handing S s0) progress b tt).link
          ≡ R.sent s0 ++ framed plan_body)
        × (written S' R' fmt
              (run_destination S' fmt B' dest accept (handing S' t0) progress' b' tt q).run.link
            ≡ R'.sent t0 ++ framed ack_body)
        × (written S R fmt (run_source S fmt B src (handing S s1) progress b tt).link
            ≡ R.sent s1 ++ transcript fmt encode plan_body es done_body)
        × ((run_source S fmt B src (handing S s1) progress b tt).result
            ≡ ok (record { plan = plan; bytes_sent = total es (some progress) }))
        × ((run_destination S' fmt B' dest accept (handing S' t1) progress' b' tt q).run.result
            ≡ ok plan)
        × ((run_destination S' fmt B' dest accept (handing S' t1) progress' b' tt q).run.backend
            ≡ apply_all step es first)
  sides_take_turns encode B src progress B' dest accept progress' step plan es plan_body ack_body
        done_body b last b' first q q' s0 s1 t0 t1 o i approved c at_first with_plan with_ack
        with_all =
      let (l, run, out) =
        source_runs S R fmt B src (handing S s1) progress encode o.fp "accepted" plan es plan_body
          ack_body done_body b o.analyzed o.streamed last tt tt s1 o.before o.analysis o.stream_out
          o.after refl with_ack c.plan_travels c.ack_travels c.events_travel c.end_travels
          c.done_travels in
      let (l', run', out') =
        destination_runs S' R' fmt B' dest accept (handing S' t1) progress' encode step i.turns
          (total es (some progress)) plan i.preflight es plan_body ack_body done_body b' first tt tt
          q q' t1 refl i.validated i.passed approved i.stream_in i.enough c.items with_all
          c.plan_travels c.ack_travels c.events_travel c.end_travels c.done_travels in
      (
        source_begins S R fmt B src progress plan es plan_body b last s0 o c.plan_travels at_first,
        destination_answers S' R' fmt B' dest encode accept progress' step plan es plan_body
            ack_body b' first q q' t0 i approved c.plan_travels c.ack_travels with_plan,
        ap (λ r. written S R fmt r.link) run ∙ out,
        ap (λ r. r.result) run,
        ap (λ r. r.run.result) run',
        ap (λ r. r.run.backend) run',
      )
