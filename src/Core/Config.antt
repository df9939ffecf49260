-- ===== src/Core/Config.antt =====
-- crates/rb-core/src/config.rs: the settings of a session. `V` is the type of JSON values. What serde_yaml
-- makes of a text and what the file system gives for a path are parameters.
use rust_backup.Prelude.{ℕ, String, ◌<>◌, Bool, true, false, Option, none, List}
use rust_backup.Core.Error.{Result, ok, err, config_error, Outcome, success, failure}

pub data Role : Type 0 where
  source destination : Role

pub record TransportConfig : Type 0 where
  pub to : String
  pub channel : String
  pub secret : Option String
  pub carriers : ℕ
  pub udp : Bool
  pub insecure : Bool

abbrev pub default_carriers : ℕ
default_carriers = 1

abbrev pub default_udp : Bool
default_udp = true

-- `TransportConfig::default`
abbrev pub default_transport : TransportConfig
default_transport = record {
  to = "";
  channel = "";
  secret = none;
  carriers = default_carriers;
  udp = default_udp;
  insecure = false;
}

pub record TargetSpec (V : Type 0) : Type 0 where
  pub module_name : String
  pub role : Role
  pub transport : TransportConfig
  pub params : V
  pub auto_accept : Bool

pub record ServerConfig : Type 0 where
  pub bind_addr : String
  pub control_port : ℕ
  pub secret : Option String
  pub max_conns : ℕ
  pub udp : Bool

abbrev pub default_bind : String
default_bind = "0.0.0.0"

abbrev pub default_control_port : ℕ
default_control_port = 7835

abbrev pub default_max_conns : ℕ
default_max_conns = 256

-- `ServerConfig::default`
abbrev pub default_server : ServerConfig
default_server = record {
  bind_addr = default_bind;
  control_port = default_control_port;
  secret = none;
  max_conns = default_max_conns;
  udp = default_udp;
}

pub record SessionConfig (V : Type 0) : Type 0 where
  pub server : Option ServerConfig
  pub targets : List (TargetSpec V)

module _ {V : Type 0} (from_str : String → Outcome (SessionConfig V)) where
  abbrev parsed : Outcome (SessionConfig V) → Result (SessionConfig V)
  parsed (success cfg) = ok cfg
  parsed (failure e) = err (config_error ("YAML parse: " <> e))

  -- `SessionConfig::from_yaml`
  unfoldable pub from_yaml : String → Result (SessionConfig V)
  from_yaml text = parsed (from_str text)

  abbrev read_file : String → Outcome String → Result (SessionConfig V)
  read_file path (success text) = from_yaml text
  read_file path (failure e) = err (config_error ("read " <> path <> ": " <> e))

  -- `SessionConfig::from_path`
  unfoldable pub from_path : (String → Outcome String) → String → Result (SessionConfig V)
  from_path read_to_string path = read_file path (read_to_string path)
