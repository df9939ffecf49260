-- ===== src/Core/Anyhow.antt =====
-- Calls that fail with an `anyhow::Error`, kept as its text, and that move a state on.
use rust_backup.Prelude.{String}
use rust_backup.Core.Error.{Outcome, success, failure}

abbrev pub Call {ℓ} : Type 0 → Type ℓ → Type ℓ
Call S A = S → Outcome A × S

abbrev pub give {ℓ} : {S : Type 0} {A : Type ℓ} → A → Call S A
give a s = (success a, s)

-- `anyhow::bail!`
abbrev pub bail {ℓ} : {S : Type 0} {A : Type ℓ} → String → Call S A
bail e s = (failure e, s)

-- What follows a call, as `?` has it.
abbrev pub resume {ℓ κ} :
    {S : Type 0} {A : Type ℓ} {B : Type κ} → (A → Call S B) → Outcome A × S → Outcome B × S
resume f (success a, s) = f a s
resume f (failure e, s) = (failure e, s)

infixl 5 ◌>>=◌ ◌>>◌
abbrev pub ◌>>=◌ {ℓ κ} :
    {S : Type 0} {A : Type ℓ} {B : Type κ} → Call S A → (A → Call S B) → Call S B
◌>>=◌ m f s = resume f (m s)

abbrev pub ◌>>◌ {ℓ} : {S : Type 0} {B : Type ℓ} → Call S (Unit {0}) → Call S B → Call S B
m >> k = m >>= λ _. k
