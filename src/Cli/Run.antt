-- ===== src/Cli/Run.antt =====
-- crates/rust-backup/src/main.rs: the dispatch of a target to its module and its side, a session of many
-- targets, and the question that is put to the operator.
-- The channel, standard input and the file system are parameters; a target opens its backend and its
-- channel afresh. An error with a context is the context, a colon and its cause, as `{:#}` writes it.
pub mod Sessions
use rust_backup.Prelude.{
  ℕ, ◌+◌, String, ◌<>◌, Bool, true, false, ◌||◌, Option, none, some, List, [], ◌∷◌, decimal, codes,
  trim, lowercase, same_codes,
}
use rust_backup.Core.Anyhow.{Call, give, bail, resume, ◌>>=◌, ◌>>◌}
use rust_backup.Core.Config.{
  Role, source, destination, TransportConfig, TargetSpec, SessionConfig, from_path,
}
use rust_backup.Core.Error.{Result, ok, err, display, Outcome, success, failure}
use rust_backup.Core.Module.{OpenSource, OpenDestination, BackupModule, ModuleRegistry, get}
use rust_backup.Core.Plan.{BackupPlan}
use rust_backup.Core.Progress.{default_progress}
use rust_backup.Core.Session.{DataChannel, Formats, run_source, run_destination, Restore}
use rust_backup.Core.Wire.{Stream}
use rust_backup.Cli.{TargetArgs, Params, params, transport}

-- `map_err(|e| anyhow!("{e}"))`
abbrev pub spelled {ℓ} : {A : Type ℓ} → Result A → Outcome A
spelled (ok a) = success a
spelled (err e) = failure (display e)

-- The derived `Debug` of a role.
abbrev pub role_name : Role → String
role_name source = "Source"
role_name destination = "Destination"

-- What the channel and standard input give. `In` is the state of standard input.
pub record Host (C In : Type 0) : Type 0 where
  pub connect_source : TransportConfig → Result C
  pub connect_destination : TransportConfig → Result C
  pub read_line : In → Outcome String × In

module _ (S : Stream) {V : Type 0} (fmt : Formats V) {C In : Type 0} (channel : DataChannel S C)
    (host : Host C In) where
  abbrev pub says_yes : Outcome String → Bool
  says_yes (failure e) = false
  says_yes (success line) =
      let answer = lowercase (trim (codes line)) in
      same_codes answer (codes "y") || same_codes answer (codes "yes")

  -- The plan is shown first, which leaves no trace here.
  unfoldable pub prompt_yes : BackupPlan V → In → Bool × In
  prompt_yes plan q = let (line, q') = host.read_line q in (says_yes line, q')

  -- The `accept` closure of `execute`.
  abbrev pub accept : Bool → BackupPlan V → In → Bool × In
  accept true plan q = (true, q)
  accept false plan q = prompt_yes plan q

  abbrev pub finished {ℓ} : {A : Type ℓ} → Outcome A → Outcome (Unit {0})
  finished (success a) = success tt
  finished (failure e) = failure e

  abbrev pub backup : (o : OpenSource V) → Result C → Outcome (Unit {0})
  backup o (err e) = failure (display e)
  backup o (ok k) =
      finished
        (spelled (run_source S fmt o.Backend o.methods channel default_progress o.state k).result)

  abbrev pub as_source : TransportConfig → Result (OpenSource V) → Outcome (Unit {0})
  as_source t (err e) = failure (display e)
  as_source t (ok o) = backup o (host.connect_source t)

  abbrev pub restored :
      (o : OpenDestination V) (auto_accept : Bool)
      → C
      → In
      → Restore S fmt o.Backend o.methods (accept auto_accept) C
  restored o auto_accept k q =
      run_destination S fmt o.Backend o.methods (accept auto_accept) channel default_progress
        o.state k q

  abbrev pub restoring : (o : OpenDestination V) → Bool → Result C → Call In (Unit {0})
  restoring o auto_accept (err e) q = (failure (display e), q)
  restoring o auto_accept (ok k) q =
      let r = restored o auto_accept k q in (finished (spelled r.run.result), r.policy)

  abbrev pub as_destination :
      TransportConfig → Bool → Result (OpenDestination V) → Call In (Unit {0})
  as_destination t auto_accept (err e) q = (failure (display e), q)
  as_destination t auto_accept (ok o) q = restoring o auto_accept (host.connect_destination t) q

  unfoldable pub execute : BackupModule V → Role → TransportConfig → V → Bool → Call In (Unit {0})
  execute m source t params auto_accept q = (as_source t (m.open_source params), q)
  execute m destination t params auto_accept q =
      as_destination t auto_accept (m.open_destination params) q

  module _ (reg : ModuleRegistry V) where
    abbrev pub unknown : String → String
    unknown name = "unknown module '" <> name <> "'"

    abbrev pub with_params : BackupModule V → TargetArgs → Outcome V → Call In (Unit {0})
    with_params m a (failure e) q = (failure e, q)
    with_params m a (success v) q = execute m a.role (transport a) v a.assume_yes q

    abbrev pub with_module :
        (Params → V) → String → TargetArgs → Option (BackupModule V) → Call In (Unit {0})
    with_module object name a none q = (failure (unknown name), q)
    with_module object name a (some m) q =
        with_params m a (elim (params a) [ success p ↦ success (object p) | failure e ↦ failure e ])
          q

    -- `object` is `Value::Object`.
    unfoldable pub run_target : (Params → V) → String → TargetArgs → Call In (Unit {0})
    run_target object name a q = with_module object name a (get reg name) q

    abbrev pub context : ℕ → TargetSpec V → String
    context i t =
        "target " <> decimal i <> " (" <> t.module_name <> "/" <> role_name t.role <> "): "

    abbrev pub in_context : ℕ → TargetSpec V → Outcome (Unit {0}) × In → Outcome (Unit {0}) × In
    in_context i t (success _, q) = (success tt, q)
    in_context i t (failure e, q) = (failure (context i t <> e), q)

    abbrev pub known_target : ℕ → TargetSpec V → Option (BackupModule V) → Call In (Unit {0})
    known_target i t none q = (failure (unknown t.module_name), q)
    known_target i t (some m) q =
        in_context i t (execute m t.role t.transport t.params t.auto_accept q)

    -- One turn of the loop over the targets.
    unfoldable pub one_target : ℕ → TargetSpec V → Call In (Unit {0})
    one_target i t q = known_target i t (get reg t.module_name) q

    unfoldable pub run_targets : ℕ → List (TargetSpec V) → Call In (Unit {0})
    run_targets i [] q = (success tt, q)
    run_targets i (t ∷ ts) q = resume (λ _. run_targets (i + 1) ts) (one_target i t q)

    abbrev pub with_config : Result (SessionConfig V) → Call In (Unit {0})
    with_config (err e) q = (failure (display e), q)
    with_config (ok cfg) q = run_targets 0 cfg.targets q

    unfoldable pub run_session :
        (String → Outcome (SessionConfig V))
        → (String → Outcome String)
        → String
        → Call In (Unit {0})
    run_session from_str read_to_string path q =
        with_config (from_path from_str read_to_string path) q
