-- ===== src/Modules/Stubs.antt =====
-- What a session does with the modules that crates/rust-backup/src/main.rs registers, whose sources and
-- destinations are stubs.
use text.Mathlib.Text.{◌==◌ as str_eq}
use rust_backup.Prelude.{
  ◌≡◌, refl, sym, ◌∙◌, String, Bool, false, none, some, [], ◌∷◌, ◌++◌, Bool-cases, inl, inr, All,
}
use rust_backup.Core.Error.{Result, ok, err, phase, analyze, preflight_failed}
use rust_backup.Core.Plan.{BackupPlan, Preflight, pass, check}
use rust_backup.Core.Progress.{Progress}
use rust_backup.Core.Wire.{Bytes, Stream, Coded, plan_ack}
use rust_backup.Core.Wire.Reliable.{IsReliable}
use rust_backup.Core.Wire.Frames.{framed}
use rust_backup.Core.Channel.Chunks.{Travels}
use rust_backup.Core.Session.{
  Source, Destination, DataChannel, Formats, Side, prepare, run_source, consider,
}
use rust_backup.Core.Session.Restoring.{consider_refused}
use rust_backup.Core.Module.{
  OpenSource, OpenDestination, BackupModule, ModuleRegistry, get, box_source, box_destination,
  deserialize,
}
use rust_backup.Modules.{Readers, build_registry}
use rust_backup.Modules.Filesystem
use rust_backup.Modules.S3
use rust_backup.Modules.Postgres
use rust_backup.Modules.Mongodb

module _ {V : Type 0} where
  -- A backend that cannot be analysed: its very first call fails and leaves it as it was.
  record Unreadable (o : OpenSource V) : Type 0 where
    message : String
    fails : (b : o.Backend) → o.methods.fingerprint b ≡ (err (phase analyze message), b)

  -- A backend that accepts no plan.
  record Unready (o : OpenDestination V) : Type 0 where
    preflight : Preflight
    validates : (p : BackupPlan V) (b : o.Backend) → o.methods.validate p b ≡ (ok preflight, b)
    not_ok : preflight.ok ≡ false

  record IsStub (m : BackupModule V) : Type 1 where
    unreadable : (v : V) (o : OpenSource V) → m.open_source v ≡ ok o → Unreadable o
    unready : (v : V) (o : OpenDestination V) → m.open_destination v ≡ ok o → Unready o

  module _ {T : Type 0} where
    box_source-Unreadable :
        (methods : Source V T)
        → ((t : T) → Unreadable (record { Backend = T; state = t; methods = methods }))
        → (r : Result T) (o : OpenSource V) → box_source methods r ≡ ok o
        → Unreadable o
    box_source-Unreadable methods h (err e) o q = absurd (cc)
    box_source-Unreadable methods h (ok t) o q =
        let same : record { Backend = T; state = t; methods = methods } ≡ o = cc in
        rw (sym same) (h t)

    box_destination-Unready :
        (methods : Destination V T)
        → ((t : T) → Unready (record { Backend = T; state = t; methods = methods }))
        → (r : Result T) (o : OpenDestination V) → box_destination methods r ≡ ok o
        → Unready o
    box_destination-Unready methods h (err e) o q = absurd (cc)
    box_destination-Unready methods h (ok t) o q =
        let same : record { Backend = T; state = t; methods = methods } ≡ o = cc in
        rw (sym same) (h t)

  postgres-IsStub :
      (read : V → Coded Postgres.PostgresParams) → IsStub (Postgres.backup_module read)
  unfolding pass check
  postgres-IsStub read = record {
    unreadable = λ v.
        box_source-Unreadable Postgres.source (λ t. record { message = _; fails = λ b. refl })
          (deserialize (read v));
    unready = λ v.
        box_destination-Unready Postgres.destination
          (λ t. record { preflight = _; validates = λ p b. refl; not_ok = refl })
          (deserialize (read v));
  }

  mongodb-IsStub : (read : V → Coded Mongodb.MongoDbParams) → IsStub (Mongodb.backup_module read)
  unfolding pass check
  mongodb-IsStub read = record {
    unreadable = λ v.
        box_source-Unreadable Mongodb.source (λ t. record { message = _; fails = λ b. refl })
          (deserialize (read v));
    unready = λ v.
        box_destination-Unready Mongodb.destination
          (λ t. record { preflight = _; validates = λ p b. refl; not_ok = refl })
          (deserialize (read v));
  }

  filesystem-IsStub :
      (read : V → Coded Filesystem.FilesystemParams) → IsStub (Filesystem.backup_module read)
  unfolding pass check
  filesystem-IsStub read = record {
    unreadable = λ v.
        box_source-Unreadable Filesystem.source (λ t. record { message = _; fails = λ b. refl })
          (deserialize (read v));
    unready = λ v.
        box_destination-Unready Filesystem.destination
          (λ t. record { preflight = _; validates = λ p b. refl; not_ok = refl })
          (deserialize (read v));
  }

  s3-IsStub : (read : V → Coded S3.S3Params) → IsStub (S3.backup_module read)
  unfolding pass check
  s3-IsStub read = record {
    unreadable = λ v.
        box_source-Unreadable S3.source (λ t. record { message = _; fails = λ b. refl })
          (deserialize (read v));
    unready = λ v.
        box_destination-Unready S3.destination
          (λ t. record { preflight = _; validates = λ p b. refl; not_ok = refl })
          (deserialize (read v));
  }

  -- What holds of every entry of a registry holds of what is looked up in it.
  get-All :
      (P : BackupModule V → Type 1) (reg : ModuleRegistry V) (name : String) (m : BackupModule V)
      → All (λ e. P e.1) reg
      → get reg name ≡ some m
      → P m
  get-All P [] name m all h = absurd (cc)
  get-All P ((k, n) ∷ reg) name m (p, all) h = elim (Bool-cases (str_eq k name)) [
    | inl here ↦
        let found : get ((k, n) ∷ reg) name ≡ some n = rw here refl in
        let same : n ≡ m = cc in rw (sym same) p
    | inr there ↦
        let found : get ((k, n) ∷ reg) name ≡ get reg name = rw there refl in
        get-All P reg name m all (sym found ∙ h)
  ]

  registered-IsStub :
      (readers : Readers V) (name : String) (m : BackupModule V)
      → get (build_registry readers) name ≡ some m
      → IsStub m
  unfolding build_registry
  registered-IsStub readers name m = get-All IsStub (build_registry readers) name m (
    postgres-IsStub readers.postgres,
    (
      mongodb-IsStub readers.mongodb,
      (filesystem-IsStub readers.filesystem, (s3-IsStub readers.s3, tt)),
    ),
  )

  -- The source side of any registered module, once its parameters were read, fails in its analysis:
  -- the run ends with that error, and the channel has not been touched.
  pub stub_source_fails :
      (readers : Readers V) (name : String) (m : BackupModule V) (v : V) (o : OpenSource V)
      (S : Stream) (fmt : Formats V) {C : Type 0} (channel : DataChannel S C) (progress : Progress)
      (k : C)
      → get (build_registry readers) name ≡ some m
      → m.open_source v ≡ ok o
      → (message : String) × (run_source S fmt o.Backend o.methods channel progress o.state k
          ≡ record {
            result = err (phase analyze message);
            backend = o.state;
            chan = k;
            link = none;
          })
  unfolding run_source prepare
  stub_source_fails readers name m v o S fmt channel progress k found opened =
      let u = (registered-IsStub readers name m found).unreadable v o opened in
      (u.message, rw (u.fails o.state) refl)

  -- The destination side of any registered module, on a healthy substream and with a codec that carries
  -- the refusal, rejects every plan: it tells the peer, fails with a preflight error and asks neither
  -- the policy nor for payload.
  pub stub_destination_refuses :
      (readers : Readers V) (name : String) (m : BackupModule V) (v : V) (o : OpenDestination V)
      (S : Stream) (R : IsReliable S) (fmt : Formats V) {P : Type 0}
      (accept : BackupPlan V → P → Bool × P) (plan : BackupPlan V) (q : P) (body : Bytes)
      (d : Side S fmt o.Backend)
      → get (build_registry readers) name ≡ some m
      → m.open_destination v ≡ ok o
      → Travels fmt.control (plan_ack false "preflight failed") body
      → (last : Side S fmt o.Backend) × (consider S fmt o.Backend o.methods accept plan q d
          ≡ ((err (preflight_failed "preflight failed"), last), q))
        × (last.backend ≡ d.backend)
        × (R.sent last.link.stream ≡ R.sent d.link.stream ++ framed body)
  stub_destination_refuses readers name m v o S R fmt accept plan q body d found opened t =
      let u = (registered-IsStub readers name m found).unready v o opened in
      refused u.preflight u.not_ok (u.validates plan d.backend)
    where
      refused :
          (p : Preflight)
          → p.ok ≡ false
          → o.methods.validate plan d.backend ≡ (ok p, d.backend)
          → (last : Side S fmt o.Backend) × (consider S fmt o.Backend o.methods accept plan q d
              ≡ ((err (preflight_failed "preflight failed"), last), q))
            × (last.backend ≡ d.backend)
            × (R.sent last.link.stream ≡ R.sent d.link.stream ++ framed body)
      refused p bad e = rw bad at (
          consider_refused S R fmt o.Backend o.methods accept plan p q q d.backend body d e
            (inl (bad, refl)) (rw bad t))
