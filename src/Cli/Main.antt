-- ===== src/Cli/Main.antt =====
-- `Cmd`, `ServerArgs` and `main` of crates/rust-backup/src/main.rs: what each subcommand runs. The server
-- and the parsers are parameters.
pub mod Subcommands
use rust_backup.Prelude.{ℕ, String, ◌<>◌, Bool, Option}
use rust_backup.Core.Anyhow.{Call}
use rust_backup.Core.Config.{ServerConfig, SessionConfig}
use rust_backup.Core.Error.{Outcome, success, failure}
use rust_backup.Core.Session.{DataChannel, Formats}
use rust_backup.Core.Wire.{Stream}
use rust_backup.Cli.{TargetArgs, Params}
use rust_backup.Cli.Run.{Host, run_target, run_session}
use rust_backup.Modules.{Readers, build_registry}

pub record ServerArgs : Type 0 where
  pub bind_addr : String
  pub control_port : ℕ
  pub secret : Option String
  pub max_conns : ℕ
  pub udp : Bool

pub data Cmd : Type 0 where
  server : ServerArgs → Cmd
  run : (config : String) → Cmd
  postgres mongodb filesystem s3 : TargetArgs → Cmd

abbrev pub server_config : ServerArgs → ServerConfig
server_config a = record {
  bind_addr = a.bind_addr;
  control_port = a.control_port;
  secret = a.secret;
  max_conns = a.max_conns;
  udp = a.udp;
}

abbrev pub in_server : Outcome (Unit {0}) → Outcome (Unit {0})
in_server (success _) = success tt
in_server (failure e) = failure ("coordination server: " <> e)

-- What stands outside the program: the file system, the YAML and JSON parsers, and the server's sockets.
pub record Outside (V : Type 0) : Type 0 where
  pub read_to_string : String → Outcome String
  pub from_str : String → Outcome (SessionConfig V)
  pub object : Params → V
  pub readers : Readers V
  pub run_server : ServerConfig → Outcome (Unit {0})

module _ (S : Stream) {V : Type 0} (fmt : Formats V) {C In : Type 0} (channel : DataChannel S C)
    (host : Host C In) (outside : Outside V) where
  abbrev pub target_named : String → TargetArgs → Call In (Unit {0})
  target_named = run_target S fmt channel host (build_registry outside.readers) outside.object

  unfoldable pub main : Cmd → Call In (Unit {0})
  main (server a) q = (in_server (outside.run_server (server_config a)), q)
  main (run config) q =
      run_session S fmt channel host (build_registry outside.readers) outside.from_str
        outside.read_to_string config q
  main (postgres a) q = target_named "postgres" a q
  main (mongodb a) q = target_named "mongodb" a q
  main (filesystem a) q = target_named "filesystem" a q
  main (s3 a) q = target_named "s3" a q
