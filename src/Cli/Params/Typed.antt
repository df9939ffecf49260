-- ===== src/Cli/Params/Typed.antt =====
-- The typed flags of `TargetArgs` in crates/rust-backup/src/main.rs, as a table of keys and values.
use mathlib.Core.Option
use text.Mathlib.Text.{◌==◌ as str_eq}
use text.Mathlib.TextEquality.{eq_iff}
use rust_backup.Prelude.{
  ℕ, pos, ◌≡◌, refl, sym, ap, ◌∙◌, String, Bool, true, false, Option, none, some, List, [], ◌∷◌,
  if◌then◌else◌, Bool-cases, inl, inr, arith,
}
use rust_backup.Core.Module.Names.{contains, Distinct}
use rust_backup.Cli.{
  Scalar, bool_value, number_value, string_value, Params, TargetArgs, insert, get, put_str,
  put_port, put_flag, typed_params,
}
use rust_backup.Cli.Params.Inserting.{get-insert}

abbrev string_of : Option String → Option Scalar
string_of = Option.map string_value

abbrev number_of : Option ℕ → Option Scalar
number_of = Option.map (λ n. number_value (pos n))

-- A flag that stands for a value when it is given.
abbrev flag : Bool → Bool → Option Scalar
flag v false = none
flag v true = some (bool_value v)

abbrev Row : Type 0
Row = String × Option Scalar

-- Each key with what its typed flag gives.
abbrev pub typed_flags : TargetArgs → List Row
typed_flags a =
    ("host", string_of a.host)
    ∷ ("user", string_of a.user)
    ∷ ("password", string_of a.password)
    ∷ ("database", string_of a.database)
    ∷ ("sslmode", string_of a.sslmode)
    ∷ ("uri", string_of a.uri)
    ∷ ("auth_db", string_of a.auth_db)
    ∷ ("root", string_of a.root)
    ∷ ("bucket", string_of a.bucket)
    ∷ ("endpoint", string_of a.endpoint)
    ∷ ("region", string_of a.region)
    ∷ ("prefix", string_of a.prefix)
    ∷ ("access_key", string_of a.access_key)
    ∷ ("secret_key", string_of a.secret_key)
    ∷ ("port", number_of a.port)
    ∷ ("admin", flag true a.admin)
    ∷ ("path_style", flag true a.path_style)
    ∷ ("follow_symlinks", flag true a.follow_symlinks)
    ∷ ("preserve_ownership", flag false a.no_preserve_ownership)
    ∷ ("preserve_xattr", flag true a.preserve_xattr)
    ∷ []

-- What a table has under a key.
unfoldable pub found : List Row → String → Option Scalar
found [] k = none
found ((k', o) ∷ rows) k = let rest = found rows k in if str_eq k' k then o else rest

abbrev keys : List Row → List String
keys [] = []
keys ((k, o) ∷ rows) = k ∷ keys rows

abbrev put : String → Option Scalar → Params → Params
put k none m = m
put k (some v) m = insert k v m

abbrev put_all : List Row → Params → Params
put_all [] m = m
put_all ((k, o) ∷ rows) m = put_all rows (put k o m)

-- The value of a key behind one row.
abbrev over : String → Option Scalar → String → Option Scalar → Option Scalar
over k' none k v = v
over k' (some x) k v = if str_eq k' k then some x else v

abbrev folded : List Row → String → Option Scalar → Option Scalar
folded [] k v = v
folded ((k', o) ∷ rows) k v = folded rows k (over k' o k v)

get-put :
    (k' : String) (o : Option Scalar) (m : Params) (k : String)
    → get (put k' o m) k ≡ over k' o k (get m k)
get-put k' none m k = refl
get-put k' (some v) m k = get-insert k' v m k

get-put_all :
    (rows : List Row) (m : Params) (k : String) → get (put_all rows m) k ≡ folded rows k (get m k)
get-put_all [] m k = refl
get-put_all ((k', o) ∷ rows) m k =
    get-put_all rows (put k' o m) k ∙ ap (folded rows k) (get-put k' o m k)

over_other :
    (k' : String) (o : Option Scalar) (k : String) (v : Option Scalar)
    → str_eq k' k ≡ false
    → over k' o k v ≡ v
over_other k' none k v e = refl
over_other k' (some x) k v e = rw e refl

over_own :
    (k' : String) (o : Option Scalar) (k : String) → str_eq k' k ≡ true → over k' o k none ≡ o
over_own k' none k e = refl
over_own k' (some x) k e = rw e refl

folded_absent :
    (rows : List Row) (k : String) (v : Option Scalar)
    → contains k (keys rows) ≡ false
    → folded rows k v ≡ v
folded_absent [] k v h = refl
folded_absent ((k', o) ∷ rows) k v h =
    ap (folded rows k) (over_other k' o k v (ground arith)) ∙ folded_absent rows k v (ground arith)

folded-found :
    (rows : List Row) (k : String) → Distinct (keys rows) → folded rows k none ≡ found rows k
unfolding found
folded-found [] k d = refl
folded-found ((k', o) ∷ rows) k (new, d) = elim (Bool-cases (str_eq k' k)) [
  | inl e ↦
      let absent : contains k (keys rows) ≡ false =
        ap (λ x. contains x (keys rows)) (sym ((eq_iff k' k).0 e)) ∙ new in
      folded_absent rows k (over k' o k none) absent ∙ over_own k' o k e ∙ rw e refl
  | inr e ↦ ap (folded rows k) (over_other k' o k none e) ∙ folded-found rows k d ∙ rw e refl
]

str_step :
    (k : String) (o : Option String) {m n : Params} → m ≡ n → put_str k o m ≡ put k (string_of o) n
str_step k none e = e
str_step k (some s) e = ap (insert k (string_value s)) e

port_step : (o : Option ℕ) {m n : Params} → m ≡ n → put_port o m ≡ put "port" (number_of o) n
port_step none e = e
port_step (some p) e = ap (insert "port" (number_value (pos p))) e

flag_step :
    (b : Bool) (k : String) (v : Bool) {m n : Params}
    → m ≡ n
    → put_flag b k v m ≡ put k (flag v b) n
flag_step false k v e = e
flag_step true k v e = ap (insert k (bool_value v)) e

typed_params-rows : (a : TargetArgs) → typed_params a ≡ put_all (typed_flags a) []
unfolding typed_params
typed_params-rows a = flag_step a.preserve_xattr "preserve_xattr" true (
    flag_step a.no_preserve_ownership "preserve_ownership" false (
      flag_step a.follow_symlinks "follow_symlinks" true (
        flag_step a.path_style "path_style" true (
          flag_step a.admin "admin" true (
            port_step a.port (
              str_step "secret_key" a.secret_key (
                str_step "access_key" a.access_key (
                  str_step "prefix" a.prefix (
                    str_step "region" a.region (
                      str_step "endpoint" a.endpoint (
                        str_step "bucket" a.bucket (
                          str_step "root" a.root (
                            str_step "auth_db" a.auth_db (
                              str_step "uri" a.uri (
                                str_step "sslmode" a.sslmode (
                                  str_step "database" a.database (
                                    str_step "password" a.password (
                                      str_step "user" a.user
                                        (str_step "host" a.host refl)))))))))))))))))))

-- No key stands twice.
keys_once : (a : TargetArgs) → Distinct (keys (typed_flags a))
keys_once a = (
  refl,
  (
    refl,
    (
      refl,
      (
        refl,
        (
          refl,
          (
            refl,
            (
              refl,
              (
                refl,
                (
                  refl,
                  (
                    refl,
                    (
                      refl,
                      (refl, (refl, (refl, (refl, (refl, (refl, (refl, (refl, (refl, tt))))))))),
                    ),
                  ),
                ),
              ),
            ),
          ),
        ),
      ),
    ),
  ),
)

-- Under each key the typed parameters have what the table has there.
pub typed_params-found :
    (a : TargetArgs) (k : String) → get (typed_params a) k ≡ found (typed_flags a) k
unfolding get
typed_params-found a k =
    ap (λ m. get m k) (typed_params-rows a)
    ∙ get-put_all (typed_flags a) [] k
    ∙ folded-found (typed_flags a) k (keys_once a)
