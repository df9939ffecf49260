-- ===== src/Cli/Tests.antt =====
-- The theorems about the command line at concrete data.
use rust_backup.Prelude.{
  ℕ, ◌≡◌, inl, inr, refl, String, true, false, Option, none, some, List, [], ◌∷◌, negsuc,
  split_once, parse_i64,
}
use rust_backup.Core.Channel.{
  send_chunk, finish_item, finish, on_stream, count, send_plan, recv_ack,
}
use rust_backup.Core.Config.{
  Role, source, destination, TargetSpec, SessionConfig, default_transport, from_yaml, from_path,
}
use rust_backup.Core.Error.{ok, err, success, failure, display, phase, analyze, connect}
use rust_backup.Core.Module.{BackupModule, ModuleRegistry}
use rust_backup.Core.Pipe.{Pipe, pipe, read_pipe, read_some, write_pipe, read_exact_pipe}
use rust_backup.Core.Progress.{add_bytes, item_done, bytes}
use rust_backup.Core.Samples
use rust_backup.Core.Session.{run_source, prepare, serve, stream_payload, conclude, upload}
use rust_backup.Core.Session.Effects.{sends}
use rust_backup.Core.Wire.{coded, refused, write_all_idle, read_exact_idle, send_frame, recv_frame}
use rust_backup.Core.Wire.Frames.{framed}
use rust_backup.Cli.Main.{Outside, filesystem, main}
use rust_backup.Cli.Main.Subcommands.{main-source_fails}
use rust_backup.Modules.{build_registry}
use rust_backup.Modules.Filesystem.{FilesystemParams, source as files_source}
use rust_backup.Cli.Run.{Host, one_target, execute, run_session}
use rust_backup.Cli.Run.Sessions.{passes, none_left, failed, session_stops, session_unattended}
use rust_backup.Cli.{
  overrides, Scalar, TargetArgs, number_value, get, typed_params, parse_scalar, params, insert,
}
use rust_backup.Cli.Params.{first_malformed, get_in, ValueOf, params_value}

abbrev args : List String → TargetArgs
args param = record {
  role = source;
  to = "backup.example:7835";
  channel = "nightly";
  secret = none;
  carriers = 1;
  no_udp = false;
  insecure = false;
  assume_yes = false;
  host = some "db";
  port = some 5432;
  user = none;
  password = none;
  database = none;
  sslmode = none;
  uri = none;
  auth_db = none;
  root = none;
  bucket = none;
  endpoint = none;
  region = none;
  prefix = none;
  access_key = none;
  secret_key = none;
  admin = false;
  path_style = false;
  follow_symlinks = false;
  no_preserve_ownership = false;
  preserve_xattr = false;
  param = param;
  config = none;
}

-- The second `-P` wins over the first and over `--port`.
abbrev given : List String
given = "port=1" ∷ "port=-7" ∷ []

params_value_example :
    (v : Option Scalar) × (get_in "port" (params (args given)) ≡ success v)
    × ValueOf (args given) "port" v
unfolding first_malformed split_once
params_value_example = params_value (args given) "port" refl

params_run : get_in "port" (params (args given)) ≡ success (some (number_value (negsuc 6)))
unfolding get typed_params insert parse_scalar parse_i64 split_once params overrides
params_run = refl

-- One module, whose source always serves the same plan, and whose channel has no way to a destination.
abbrev files : BackupModule (Unit {0})
files = record {
  name = "filesystem";
  version_support = "POSIX local FS";
  open_source = λ v. ok (record { Backend = ℕ; state = 0; methods = Samples.steady });
  open_destination =
      λ v. ok (record { Backend = List ℕ; state = []; methods = Samples.collector Samples.passed });
}

abbrev modules : ModuleRegistry (Unit {0})
modules = ("filesystem", files) ∷ []

-- Standard input is the lines to come.
abbrev host : Host ℕ (List String)
host = record {
  connect_source = λ t. ok 0;
  connect_destination = λ t. err (phase connect "transport: refused");
  read_line = λ q. (success "yes", []);
}

abbrev target : Role → TargetSpec (Unit {0})
target role = record {
  module_name = "filesystem";
  role = role;
  transport = default_transport;
  params = tt;
  auto_accept = true;
}

abbrev nightly : SessionConfig (Unit {0})
nightly = record {
  server = none;
  targets = target source ∷ target destination ∷ target source ∷ [];
}

abbrev answered : Pipe
answered = record { inbox = framed (11 ∷ []); outbox = [] }

source_passes :
    (i : ℕ) (q : List String)
    → one_target
        (pipe 1)
        Samples.formats
        (Samples.prepared 1 answered)
        host
        modules
        i
        (target source)
        q
      ≡ (success tt, q)
unfolding one_target execute run_source prepare serve stream_payload conclude upload sends send_plan
    recv_ack send_frame recv_frame write_all_idle read_exact_idle send_chunk finish_item finish
    on_stream count add_bytes item_done bytes read_pipe read_some write_pipe read_exact_pipe
source_passes i q = refl

session_stops_example :
    run_session
      (pipe 1)
      Samples.formats
      (Samples.prepared 1 answered)
      host
      modules
      (λ text. success nightly)
      (λ path. success "targets: []")
      "session.yaml"
      ("yes" ∷ [])
    ≡ (failure "target 1 (filesystem/Destination): [Connect] transport: refused", "yes" ∷ [])
unfolding from_path from_yaml execute rust_backup.Prelude.decimal
session_stops_example =
    session_stops (pipe 1) Samples.formats (Samples.prepared 1 answered) host modules
      (λ text. success nightly) (λ path. success "targets: []") "session.yaml" nightly
      (target source ∷ []) (target source ∷ []) (target destination)
      "target 1 (filesystem/Destination): [Connect] transport: refused" 1 ("yes" ∷ []) ("yes" ∷ [])
      ("yes" ∷ []) refl refl (passes (source_passes 0 ("yes" ∷ [])) none_left)
      (failed files "[Connect] transport: refused" ("yes" ∷ []) refl refl)

session_unattended_example :
    (run_session
      (pipe 1)
      Samples.formats
      (Samples.prepared 1 answered)
      host
      modules
      (λ text. success nightly)
      (λ path. success "targets: []")
      "session.yaml"
      ("yes" ∷ [])).1
    ≡ "yes" ∷ []
unfolding from_path from_yaml
session_unattended_example =
    session_unattended (pipe 1) Samples.formats (Samples.prepared 1 answered) host modules
      (λ text. success nightly) (λ path. success "targets: []") "session.yaml" nightly ("yes" ∷ [])
      refl (inl refl, (inr refl, (inl refl, tt)))

abbrev root_only : FilesystemParams
root_only = record {
  root = "/srv";
  follow_symlinks = false;
  preserve_ownership = true;
  preserve_xattr = false;
}

-- The world of a run of `rust-backup filesystem` on the source side.
abbrev outside : Outside (Unit {0})
outside = record {
  read_to_string = λ path. failure "No such file or directory";
  from_str = λ text. failure "missing field `targets`";
  object = λ p. tt;
  readers = record {
    postgres = λ v. refused "missing field `host`";
    mongodb = λ v. refused "invalid type";
    filesystem = λ v. coded root_only;
    s3 = λ v. refused "missing field `bucket`";
  };
  run_server = λ cfg. failure "bind 0.0.0.0:7835";
}

main-source_fails_example :
    (message : String) × (main
        (pipe 1)
        Samples.formats
        (Samples.prepared 1 answered)
        host
        outside
        (filesystem (args given))
        []
      ≡ (failure (display (phase analyze message)), []))
unfolding params overrides typed_params insert parse_scalar parse_i64 split_once build_registry
main-source_fails_example =
    main-source_fails (pipe 1) Samples.formats (Samples.prepared 1 answered) host outside
      (filesystem (args given)) "filesystem" (args given) _ _
      (record { Backend = FilesystemParams; state = root_only; methods = files_source }) 0 [] refl
      refl refl refl refl refl
