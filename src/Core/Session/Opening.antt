-- ===== src/Core/Session/Opening.antt =====
-- How `run_source` and `run_destination` of crates/rb-core/src/session.rs come to their substream, and the
-- destination to its plan.
use rust_backup.Prelude.{◌≡◌, refl, ap, ◌∙◌, String, ◌<>◌, Bool, none, some, [], ◌++◌, arith}
use rust_backup.Core.Error.{Result, ok, err, continue, ◌>>=◌, pure, connect, phase}
use rust_backup.Core.Plan.{BackupPlan}
use rust_backup.Core.Progress.{Progress}
use rust_backup.Core.Wire.{Bytes, Stream, plan_frame, recv_frame}
use rust_backup.Core.Wire.Tape.{Does, bind-Does, recast-Does, pure-Does}
use rust_backup.Core.Wire.Reliable.{IsReliable, tape}
use rust_backup.Core.Wire.Frames.{framed, recv_frame-Does, recv_frame_end-Does}
use rust_backup.Core.Channel.{Counted, new_counted, recv_plan, take_plan}
use rust_backup.Core.Channel.Chunks.{Travels}
use rust_backup.Core.Session.{
  Formats, Side, Source, Destination, DataChannel, Run, Restore, prepare, serve, run_source,
  serve_plan, serve_stream, run_destination, restore_stream, restore_plan, consider,
}

-- The error of a destination whose substream ends before a plan.
abbrev pub no_plan : {V : Type 0} → Formats V → Result (BackupPlan V)
no_plan fmt = err (phase connect ("expected Plan frame, got " <> fmt.debug none))

module _ (S : Stream) {V : Type 0} (fmt : Formats V) where
  -- What a run is that ends as a side does.
  abbrev pub ended : {B C A : Type 0} → C → Result A × Side S fmt B → Run S fmt B C A
  ended k r = record { result = r.0; backend = r.1.backend; chan = k; link = some r.1.link }

  module _ (B : Type 0) (src : Source V B) {C : Type 0} (channel : DataChannel S C)
      (progress : Progress) where
    -- A source whose backend is analysed, and that is handed a substream.
    pub source_comes :
        (fp : String) (plan : BackupPlan V) (b b0 b1 : B) (k k1 : C) (s : S.State)
        → src.fingerprint b ≡ (ok fp, b0)
        → src.analyze b0 ≡ (ok plan, b1)
        → channel.accept_stream k ≡ (ok s, k1)
        → run_source S fmt B src channel progress b k
          ≡ ended k1
              (serve S fmt B src fp plan (record { backend = b1; link = new_counted S s progress }))
    unfolding run_source serve_plan serve_stream prepare
    source_comes fp plan b b0 b1 k k1 s f1 an acc =
        ap
          (λ (r : Result String × B).
            serve_plan S fmt B src channel progress k
              (continue (λ fp. src.analyze >>= λ plan. pure (fp, plan)) r))
          f1
        ∙ ap
            (λ (r : Result (BackupPlan V) × B).
              serve_plan S fmt B src channel progress k (continue (λ plan. pure (fp, plan)) r))
            an
        ∙ ap (serve_stream S fmt B src channel progress fp plan b1) acc

  module _ (B : Type 0) (dest : Destination V B) {P : Type 0} (accept : BackupPlan V → P → Bool × P)
      {C : Type 0} (channel : DataChannel S C) (progress : Progress) where
    abbrev pub ended_with :
        C → (Result (BackupPlan V) × Side S fmt B) × P → Restore S fmt B dest accept C
    ended_with k r = record { run = ended k r.0; policy = r.1 }

    -- A destination that opens a substream at which the plan arrives.
    pub destination_comes :
        (plan : BackupPlan V) (b : B) (k k1 : C) (q : P) (s t : S.State)
        → channel.open_stream k ≡ (ok s, k1)
        → recv_plan S fmt.control fmt.debug s ≡ (ok plan, t)
        → run_destination S fmt B dest accept channel progress b k q
          ≡ ended_with k1 (
              consider S fmt B dest accept plan q
                (record { backend = b; link = new_counted S t progress }))
    unfolding run_destination restore_stream restore_plan
    destination_comes plan b k k1 q s t op received =
        ap (restore_stream S fmt B dest accept channel progress b q) op
        ∙ ap (restore_plan S fmt B dest accept channel progress b k1 q) received

module _ (S : Stream) (R : IsReliable S) {V : Type 0} (fmt : Formats V) where
  pub recv_plan-Does :
      (plan : BackupPlan V) (body rest : Bytes) (s : S.State)
      → Travels fmt.control (plan_frame plan) body
      → R.pending s ≡ framed body ++ rest
      → Does (tape S R) (recv_plan S fmt.control fmt.debug s) s plan rest [] none
  unfolding recv_plan
  recv_plan-Does plan body rest s t p =
      let d = recv_frame-Does S R fmt.control (plan_frame plan) body rest s p t.fits t.read_back in
      bind-Does (tape S R) (recv_frame S fmt.control) (take_plan S fmt.control fmt.debug) s [] d
        (recast-Does (tape S R) (pure-Does (tape S R) plan d.last) refl d.input refl refl)

  recv_plan_end :
      (s : S.State)
      → R.pending s ≡ []
      → (t : S.State) × (recv_plan S fmt.control fmt.debug s ≡ (no_plan fmt, t))
  unfolding recv_plan
  recv_plan_end s p =
      let d = recv_frame_end-Does S R fmt.control s (rw p (omega arith)) in
      (d.last, ap (continue (take_plan S fmt.control fmt.debug)) d.result)

  -- A destination whose substream ends before a plan.
  pub destination_unplanned :
      (B : Type 0) (dest : Destination V B) {P : Type 0} (accept : BackupPlan V → P → Bool × P)
      {C : Type 0} (channel : DataChannel S C) (progress : Progress) (b : B) (k k1 : C) (q : P)
      (s : S.State)
      → channel.open_stream k ≡ (ok s, k1)
      → R.pending s ≡ []
      → (l : Counted S) × (run_destination S fmt B dest accept channel progress b k q ≡ record {
        run = record { result = no_plan fmt; backend = b; chan = k1; link = some l };
        policy = q;
      })
  unfolding run_destination restore_stream restore_plan
  destination_unplanned B dest accept channel progress b k k1 q s op p =
      let (t, received) = recv_plan_end s p in
      (
        new_counted S t progress,
        ap (restore_stream S fmt B dest accept channel progress b q) op
            ∙ ap (restore_plan S fmt B dest accept channel progress b k1 q) received,
      )
