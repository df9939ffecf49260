-- ===== src/Cli/Run/Sessions.antt =====
-- `run_session` and `execute` of crates/rust-backup/src/main.rs: the order of the targets, the target that
-- ends a session, and who is asked.
use rust_backup.Prelude.{
  ℕ, decimal, ◌+◌, ◌≡◌, refl, ap, ◌∙◌, String, ◌<>◌, Bool, true, false, Option, none, some, List,
  [], ◌∷◌, ◌++◌, ◌⊎◌, inl, inr, All,
}
use rust_backup.Core.Anyhow.{resume}
use rust_backup.Core.Config.{
  Role, source, destination, TransportConfig, TargetSpec, SessionConfig, from_path,
}
use rust_backup.Core.Error.{Result, ok, err, Outcome, success, failure}
use rust_backup.Core.Module.{OpenDestination, BackupModule, ModuleRegistry, get}
use rust_backup.Core.Progress.{default_progress}
use rust_backup.Core.Session.{DataChannel, Formats}
use rust_backup.Core.Session.Unattended.{run_destination_still}
use rust_backup.Core.Wire.{Stream}
use rust_backup.Cli.Run.{
  Host, accept, restoring, as_destination, execute, in_context, role_name, known_target, one_target,
  run_targets, with_config, run_session,
}

-- A target that asks nobody: a source, or a destination that accepts by itself.
abbrev pub AsksNobody : Role → Bool → Type 0
AsksNobody role auto_accept = (role ≡ source) ⊎ (auto_accept ≡ true)

module _ (S : Stream) {V : Type 0} (fmt : Formats V) {C In : Type 0} (channel : DataChannel S C)
    (host : Host C In) where
  restoring_still :
      (o : OpenDestination V) (r : Result C) (q : In)
      → (restoring S fmt channel host o true r q).1 ≡ q
  restoring_still o (err e) q = refl
  restoring_still o (ok k) q =
      run_destination_still S fmt o.Backend o.methods (accept S fmt channel host true)
        (λ plan q. refl) channel default_progress o.state k q

  as_destination_still :
      (t : TransportConfig) (o : Result (OpenDestination V)) (q : In)
      → (as_destination S fmt channel host t true o q).1 ≡ q
  as_destination_still t (err e) q = refl
  as_destination_still t (ok o) q = restoring_still o (host.connect_destination t) q

  execute_still :
      (m : BackupModule V) (role : Role) (t : TransportConfig) (params : V) (auto_accept : Bool)
      (q : In)
      → AsksNobody role auto_accept
      → (execute S fmt channel host m role t params auto_accept q).1 ≡ q
  unfolding execute
  execute_still m source t params auto_accept q h = refl
  execute_still m destination t params true q h =
      as_destination_still t (m.open_destination params) q
  execute_still m destination t params false q (inl h) = absurd (cc)
  execute_still m destination t params false q (inr h) = absurd (cc)

  module _ (reg : ModuleRegistry V) where
    known_target_still :
        (i : ℕ) (t : TargetSpec V) (m : Option (BackupModule V)) (q : In)
        → AsksNobody t.role t.auto_accept
        → (known_target S fmt channel host reg i t m q).1 ≡ q
    known_target_still i t none q h = refl
    known_target_still i t (some m) q h =
        keep (execute S fmt channel host m t.role t.transport t.params t.auto_accept q)
        ∙ execute_still m t.role t.transport t.params t.auto_accept q h
      where
        keep : (r : Outcome (Unit {0}) × In) → (in_context S fmt channel host reg i t r).1 ≡ r.1
        keep (success _, q) = refl
        keep (failure e, q) = refl

    one_target_still :
        (i : ℕ) (t : TargetSpec V) (q : In)
        → AsksNobody t.role t.auto_accept
        → (one_target S fmt channel host reg i t q).1 ≡ q
    unfolding one_target
    one_target_still i t q h = known_target_still i t (get reg t.module_name) q h

    abbrev pub IsUnattended : List (TargetSpec V) → Type 0
    IsUnattended ts = All (λ t. AsksNobody t.role t.auto_accept) ts

    run_targets_still :
        (i : ℕ) (ts : List (TargetSpec V)) (q : In)
        → IsUnattended ts
        → (run_targets S fmt channel host reg i ts q).1 ≡ q
    unfolding run_targets
    run_targets_still i [] q h = refl
    run_targets_still i (t ∷ ts) q (h, hs) =
        go (one_target S fmt channel host reg i t q) (one_target_still i t q h)
          (λ q. run_targets_still (i + 1) ts q hs)
      where
        go :
            (r : Outcome (Unit {0}) × In)
            → r.1 ≡ q
            → ((q : In) → (run_targets S fmt channel host reg (i + 1) ts q).1 ≡ q)
            → (resume (λ _. run_targets S fmt channel host reg (i + 1) ts) r).1 ≡ q
        go (success _, q1) e rest = rest q1 ∙ e
        go (failure _, q1) e rest = e

    -- The targets from the one with number `i` on pass one after the other, and the one behind them has
    -- number `j`.
    pub data Passed : ℕ → List (TargetSpec V) → In → ℕ → In → Type 0 where
      none_left : {i : ℕ} {q : In} → Passed i [] q i q
      passes :
          {i j : ℕ} {t : TargetSpec V} {ts : List (TargetSpec V)} {q q1 q2 : In}
          → one_target S fmt channel host reg i t q ≡ (success tt, q1)
          → Passed (i + 1) ts q1 j q2
          → Passed i (t ∷ ts) q j q2

    run_targets-Passed :
        {i j : ℕ} {ts : List (TargetSpec V)} {q q1 : In} (rest : List (TargetSpec V))
        → Passed i ts q j q1
        → run_targets S fmt channel host reg i (ts ++ rest) q
          ≡ run_targets S fmt channel host reg j rest q1
    unfolding run_targets
    run_targets-Passed rest none_left = refl
    run_targets-Passed {i} {ts = t ∷ ts} rest (passes e p) =
        ap (resume (λ _. run_targets S fmt channel host reg (i + 1) (ts ++ rest))) e
        ∙ run_targets-Passed rest p

    session_targets :
        (from_str : String → Outcome (SessionConfig V)) (read_to_string : String → Outcome String)
        (path : String) (cfg : SessionConfig V) (q : In)
        → from_path from_str read_to_string path ≡ ok cfg
        → run_session S fmt channel host reg from_str read_to_string path q
          ≡ run_targets S fmt channel host reg 0 cfg.targets q
    unfolding run_session
    session_targets from_str read_to_string path cfg q e =
        ap (λ r. with_config S fmt channel host reg r q) e

    -- A target that fails, with the text of its failure and what it leaves of standard input: no module
    -- is registered under the name that it gives, or its module fails, and then the text says which
    -- target it was.
    pub data Fails (i : ℕ) (t : TargetSpec V) (q : In) : String → In → Type 1 where
      unregistered :
          get reg t.module_name ≡ none → Fails i t q ("unknown module '" <> t.module_name <> "'") q
      failed :
          (m : BackupModule V) (e : String) (q1 : In)
          → get reg t.module_name ≡ some m
          → execute S fmt channel host m t.role t.transport t.params t.auto_accept q
            ≡ (failure e, q1)
          → Fails i t q
              (("target " <> decimal i <> " (" <> t.module_name <> "/" <> role_name t.role <> "): ")
                <> e)
              q1

    failed_target :
        (i : ℕ) (t : TargetSpec V) (e : String) (q q1 : In)
        → Fails i t q e q1
        → one_target S fmt channel host reg i t q ≡ (failure e, q1)
    unfolding one_target
    failed_target i t _ q _ (unregistered missing) =
        ap (λ m. known_target S fmt channel host reg i t m q) missing
    failed_target i t _ q _ (failed m e q1 found ran) =
        ap (λ m. known_target S fmt channel host reg i t m q) found
        ∙ ap (in_context S fmt channel host reg i t) ran

    -- A session whose file can be read ends at its first target that fails, behind targets that pass
    -- one after the other: with the text for an unregistered module if no module has the name that the
    -- target gives, and else with the module's error behind the number, module and role of the target.
    -- Standard input is left as that target left it; the targets behind it are not run.
    pub session_stops :
        (from_str : String → Outcome (SessionConfig V)) (read_to_string : String → Outcome String)
        (path : String) (cfg : SessionConfig V) (before after : List (TargetSpec V))
        (t : TargetSpec V) (e : String) (j : ℕ) (q q1 q2 : In)
        → from_path from_str read_to_string path ≡ ok cfg
        → cfg.targets ≡ before ++ t ∷ after
        → Passed 0 before q j q1
        → Fails j t q1 e q2
        → run_session S fmt channel host reg from_str read_to_string path q ≡ (failure e, q2)
    unfolding run_targets
    session_stops from_str read_to_string path cfg before after t e j q q1 q2 file order passed
          fails =
        session_targets from_str read_to_string path cfg q file
        ∙ ap (λ ts. run_targets S fmt channel host reg 0 ts q) order
        ∙ run_targets-Passed (t ∷ after) passed
        ∙ ap (resume (λ _. run_targets S fmt channel host reg (j + 1) after))
            (failed_target j t e q1 q2 fails)

    -- A session whose targets are all sources or destinations with `auto_accept` leaves standard
    -- input as it found it, whatever the modules, the channels and the peers do and however it ends.
    pub session_unattended :
        (from_str : String → Outcome (SessionConfig V)) (read_to_string : String → Outcome String)
        (path : String) (cfg : SessionConfig V) (q : In)
        → from_path from_str read_to_string path ≡ ok cfg
        → IsUnattended cfg.targets
        → (run_session S fmt channel host reg from_str read_to_string path q).1 ≡ q
    session_unattended from_str read_to_string path cfg q file h =
        ap (λ r. r.1) (session_targets from_str read_to_string path cfg q file)
        ∙ run_targets_still 0 cfg.targets q h
