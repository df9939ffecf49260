-- ===== src/Core/Error.antt =====
-- crates/rb-core/src/error.rs: the phases, the error type and its two builders, and the crate's
-- `Result`. A wrapped lower-level error (`anyhow::Error`) is kept as its text.
use rust_backup.Prelude.{String, ◌<>◌, ◌≡◌, refl, Option, none, some}

pub data Phase : Type 0 where
  connect analyze validate transfer apply verify teardown : Phase

pub data BackupError : Type 0 where
  phase_error : Phase → String → Option String → BackupError
  source_mutated : String → BackupError
  plan_rejected : String → BackupError
  preflight_failed : String → BackupError
  integrity : String → BackupError
  config_error : String → BackupError
  other : String → BackupError

-- The derived `Debug` of a phase.
abbrev pub phase_name : Phase → String
phase_name connect = "Connect"
phase_name analyze = "Analyze"
phase_name validate = "Validate"
phase_name transfer = "Transfer"
phase_name apply = "Apply"
phase_name verify = "Verify"
phase_name teardown = "Teardown"

-- The `Display` of an error, from its `#[error]` attributes.
abbrev pub display : BackupError → String
display (phase_error p message cause) = "[" <> phase_name p <> "] " <> message
display (source_mutated s) = "SOURCE-IMMUTABILITY VIOLATION: " <> s
display (plan_rejected s) = "plan rejected: " <> s
display (preflight_failed s) = "preflight failed: " <> s
display (integrity s) = "integrity check failed: " <> s
display (config_error s) = "configuration error: " <> s
display (other s) = s

-- `BackupError::phase`
abbrev pub phase : Phase → String → BackupError
phase p message = phase_error p message none

-- `BackupError::phase_src`
abbrev pub phase_src : Phase → String → String → BackupError
phase_src p message cause = phase_error p message (some cause)

pub data Result {ℓ} (A : Type ℓ) : Type ℓ where
  ok : A → Result A
  err : BackupError → Result A

-- A failed call.
abbrev pub Fails {ℓ} : {A : Type ℓ} → Result A → Type ℓ
Fails r = (e : BackupError) × (r ≡ err e)

-- `anyhow::Result`, with the text of the error.
pub data Outcome {ℓ} (A : Type ℓ) : Type ℓ where
  success : A → Outcome A
  failure : String → Outcome A

-- A call that may fail and that moves the world it runs in from one state to the next.
abbrev pub Action {ℓ} : Type 0 → Type ℓ → Type ℓ
Action S A = S → Result A × S

abbrev pub pure {ℓ} : {S : Type 0} {A : Type ℓ} → A → Action S A
pure a s = (ok a, s)

abbrev pub fail {ℓ} : {S : Type 0} {A : Type ℓ} → BackupError → Action S A
fail e s = (err e, s)

-- What follows a call: the continuation on a value, and the error itself otherwise, as `?` does.
abbrev pub continue {ℓ κ} :
    {S : Type 0} {A : Type ℓ} {B : Type κ} → (A → Action S B) → Result A × S → Result B × S
continue f (ok a, s) = f a s
continue f (err e, s) = (err e, s)

infixl 5 ◌>>=◌ ◌>>◌
abbrev pub ◌>>=◌ {ℓ κ} :
    {S : Type 0} {A : Type ℓ} {B : Type κ} → Action S A → (A → Action S B) → Action S B
◌>>=◌ m f s = continue f (m s)

abbrev pub ◌>>◌ {ℓ} : {S : Type 0} {B : Type ℓ} → Action S (Unit {0}) → Action S B → Action S B
m >> k = m >>= λ _. k

-- A successful chain: its first part succeeded, and the rest ran from there.
pub >>=-eq-ok {ℓ κ} :
    {S : Type 0} {A : Type ℓ} {B : Type κ} (m : Action S A) (f : A → Action S B) (s : S) {b : B}
    {s' : S}
    → (m >>= f) s ≡ (ok b, s')
    → (a : A) × (t : S) × (m s ≡ (ok a, t)) × (f a t ≡ (ok b, s'))
>>=-eq-ok {S} {A} {B} m f s {b} {s'} h = split (m s) refl h
  where
    split :
        (r : Result A × S)
        → m s ≡ r
        → continue f r ≡ (ok b, s')
        → (a : A) × (t : S) × (m s ≡ (ok a, t)) × (f a t ≡ (ok b, s'))
    split (ok a, t) e h = (a, t, e, h)
    split (err x, t) e h = absurd (cc)
