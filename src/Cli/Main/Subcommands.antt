-- ===== src/Cli/Main/Subcommands.antt =====
-- What the subcommands of crates/rust-backup/src/main.rs come to, with the modules that it registers.
use rust_backup.Prelude.{◌≡◌, refl, ap, sym, ◌∙◌, String, Option, none, some}
use rust_backup.Core.Config.{source}
use rust_backup.Core.Error.{ok, success, failure, analyze, phase, display}
use rust_backup.Core.Module.{OpenSource, BackupModule, get}
use rust_backup.Core.Progress.{default_progress}
use rust_backup.Core.Session.{DataChannel, Formats}
use rust_backup.Core.Wire.{Stream}
use rust_backup.Cli.{TargetArgs, Params, params, transport}
use rust_backup.Cli.Main.{
  Cmd, server, run, postgres, mongodb, filesystem, s3, Outside, target_named, main,
}
use rust_backup.Cli.Run.{
  Host, spelled, finished, backup, as_source, execute, with_params, with_module, run_target,
}
use rust_backup.Modules.{build_registry}
use rust_backup.Modules.Stubs.{stub_source_fails}

-- The module and the arguments of a subcommand that runs one target.
abbrev pub target_of : Cmd → Option (String × TargetArgs)
target_of (server a) = none
target_of (run config) = none
target_of (postgres a) = some ("postgres", a)
target_of (mongodb a) = some ("mongodb", a)
target_of (filesystem a) = some ("filesystem", a)
target_of (s3 a) = some ("s3", a)

module _ (S : Stream) {V : Type 0} (fmt : Formats V) {C In : Type 0} (channel : DataChannel S C)
    (host : Host C In) (outside : Outside V) where
  main_target :
      (cmd : Cmd) (name : String) (a : TargetArgs) (q : In)
      → target_of cmd ≡ some (name, a)
      → main S fmt channel host outside cmd q ≡ target_named S fmt channel host outside name a q
  unfolding main
  main_target (server a') name a q h = absurd (cc)
  main_target (run config) name a q h = absurd (cc)
  main_target (postgres a') name a q h =
      let n : "postgres" ≡ name = cc in let e : a' ≡ a = cc in rw (sym n, sym e) refl
  main_target (mongodb a') name a q h =
      let n : "mongodb" ≡ name = cc in let e : a' ≡ a = cc in rw (sym n, sym e) refl
  main_target (filesystem a') name a q h =
      let n : "filesystem" ≡ name = cc in let e : a' ≡ a = cc in rw (sym n, sym e) refl
  main_target (s3 a') name a q h =
      let n : "s3" ≡ name = cc in let e : a' ≡ a = cc in rw (sym n, sym e) refl

  -- A subcommand of a target on the source side whose parameters are made and read, and whose channel is
  -- connected, fails with an analysis error before anything goes over the channel, whichever of the four
  -- modules it names; standard input is left as it was.
  pub main-source_fails :
      (cmd : Cmd) (name : String) (a : TargetArgs) (p : Params) (m : BackupModule V)
      (o : OpenSource V) (k : C) (q : In)
      → target_of cmd ≡ some (name, a)
      → a.role ≡ source
      → params a ≡ success p
      → get (build_registry outside.readers) name ≡ some m
      → m.open_source (outside.object p) ≡ ok o
      → host.connect_source (transport a) ≡ ok k
      → (message : String) × (main S fmt channel host outside cmd q
          ≡ (failure (display (phase analyze message)), q))
  unfolding run_target execute
  main-source_fails cmd name a p m o k q h side given found opened connected =
      let reg = build_registry outside.readers in
      let (message, ran) =
        stub_source_fails outside.readers name m (outside.object p) o S fmt channel default_progress
          k found opened in
      (
        message,
        main_target cmd name a q h
            ∙ ap (λ x. with_module S fmt channel host reg outside.object name a x q) found
            ∙ ap
                (λ x.
                  with_params S fmt channel host reg m a
                    (elim x [ success p ↦ success (outside.object p) | failure e ↦ failure e ]) q)
                given
            ∙ ap
                (λ r.
                  execute S fmt channel host m r (transport a) (outside.object p) a.assume_yes q)
                side
            ∙ ap (λ x. (as_source S fmt channel host (transport a) x, q)) opened
            ∙ ap (λ x. (backup S fmt channel host o x, q)) connected
            ∙ ap (λ r. (finished S fmt channel host (spelled r.result), q)) ran,
      )
