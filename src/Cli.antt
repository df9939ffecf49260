-- ===== src/Cli.antt =====
-- crates/rust-backup/src/main.rs, `TargetArgs`: the transport settings and the module parameters that
-- the command line gives. A `serde_json::Map` is its entries, at most one for a key; of the values, only
-- the three kinds that the command line makes.
pub mod Params
pub mod Run
pub mod Tracing
pub mod Main
mod Tests
use text.Mathlib.Text.{◌==◌ as str_eq}
use rust_backup.Core.Config.{Role, TransportConfig}
use rust_backup.Core.Error.{Outcome, success, failure}
use rust_backup.Prelude.{
  ℕ, ℤ, pos, String, ◌<>◌, Bool, true, false, not, Option, none, some, List, [], ◌∷◌, if◌then◌else◌,
  split_once, parse_i64,
}

-- `Value::Bool`, `Value::Number` and `Value::String`.
pub data Scalar : Type 0 where
  bool_value : Bool → Scalar
  number_value : ℤ → Scalar
  string_value : String → Scalar

abbrev pub Params : Type 0
Params = List (String × Scalar)

pub record TargetArgs : Type 0 where
  pub role : Role
  pub to : String
  pub channel : String
  pub secret : Option String
  pub carriers : ℕ
  pub no_udp : Bool
  pub insecure : Bool
  pub assume_yes : Bool
  pub host : Option String
  pub port : Option ℕ
  pub user : Option String
  pub password : Option String
  pub database : Option String
  pub sslmode : Option String
  pub uri : Option String
  pub auth_db : Option String
  pub root : Option String
  pub bucket : Option String
  pub endpoint : Option String
  pub region : Option String
  pub prefix : Option String
  pub access_key : Option String
  pub secret_key : Option String
  pub admin : Bool
  pub path_style : Bool
  pub follow_symlinks : Bool
  pub no_preserve_ownership : Bool
  pub preserve_xattr : Bool
  pub param : List String
  pub config : Option String

-- `TargetArgs::transport`
unfoldable pub transport : TargetArgs → TransportConfig
transport a = record {
  to = a.to;
  channel = a.channel;
  secret = a.secret;
  carriers = a.carriers;
  udp = not a.no_udp;
  insecure = a.insecure;
}

-- `Map::insert`
unfoldable pub insert : String → Scalar → Params → Params
insert k v [] = (k, v) ∷ []
insert k v ((k', v') ∷ m) =
    let rest = insert k v m in if str_eq k' k then (k, v) ∷ m else (k', v') ∷ rest

-- `Map::get`
unfoldable pub get : Params → String → Option Scalar
get [] k = none
get ((k', v) ∷ m) k = let rest = get m k in if str_eq k' k then some v else rest

abbrev put_str : String → Option String → Params → Params
put_str k none m = m
put_str k (some s) m = insert k (string_value s) m

abbrev put_port : Option ℕ → Params → Params
put_port none m = m
put_port (some p) m = insert "port" (number_value (pos p)) m

abbrev put_flag : Bool → String → Bool → Params → Params
put_flag false k v m = m
put_flag true k v m = insert k (bool_value v) m

unfoldable pub parse_scalar : String → Scalar
parse_scalar v =
    if str_eq v "true"
    then bool_value true
    else if str_eq v "false"
    then bool_value false
    else elim (parse_i64 v) [ some n ↦ number_value n | none ↦ string_value v ]

-- The parameters that the typed flags give.
unfoldable pub typed_params : TargetArgs → Params
typed_params a =
    let m1 = put_str "host" a.host [] in
    let m2 = put_str "user" a.user m1 in
    let m3 = put_str "password" a.password m2 in
    let m4 = put_str "database" a.database m3 in
    let m5 = put_str "sslmode" a.sslmode m4 in
    let m6 = put_str "uri" a.uri m5 in
    let m7 = put_str "auth_db" a.auth_db m6 in
    let m8 = put_str "root" a.root m7 in
    let m9 = put_str "bucket" a.bucket m8 in
    let m10 = put_str "endpoint" a.endpoint m9 in
    let m11 = put_str "region" a.region m10 in
    let m12 = put_str "prefix" a.prefix m11 in
    let m13 = put_str "access_key" a.access_key m12 in
    let m14 = put_str "secret_key" a.secret_key m13 in
    let m15 = put_port a.port m14 in
    let m16 = put_flag a.admin "admin" true m15 in
    let m17 = put_flag a.path_style "path_style" true m16 in
    let m18 = put_flag a.follow_symlinks "follow_symlinks" true m17 in
    let m19 = put_flag a.no_preserve_ownership "preserve_ownership" false m18 in
    let m20 = put_flag a.preserve_xattr "preserve_xattr" true m19 in m20

abbrev pub expects : String → String
expects kv = "-P expects key=value, got '" <> kv <> "'"

-- The loop over `-P`, with the rest of the loop and what `split_once` gave.
override : (Params → Outcome Params) → String → Option (String × String) → Params → Outcome Params
override more kv none m = failure (expects kv)
override more kv (some (k, v)) m = more (insert k (parse_scalar v) m)

unfoldable pub overrides : List String → Params → Outcome Params
unfolding override
overrides [] m = success m
overrides (kv ∷ kvs) m = override (overrides kvs) kv (split_once 61 kv) m

-- `TargetArgs::params`
unfoldable pub params : TargetArgs → Outcome Params
params a = overrides a.param (typed_params a)
