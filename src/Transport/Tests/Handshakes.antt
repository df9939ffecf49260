-- ===== src/Transport/Tests/Handshakes.antt =====
-- The tags and the first messages of crates/rb-transport at concrete data.
use rust_backup.Prelude.{ℕ, ◌≡◌, refl, false, true, none, some, [], ◌∷◌}
use rust_backup.Core.Error.{success, failure}
use rust_backup.Transport.Proto.{register}
use rust_backup.Transport.Samples as Memory
use rust_backup.Transport.Auth.{Authenticator}
use rust_backup.Transport.Admission.{serve_conn}
use rust_backup.Transport.Admission.Registering.{registration_completes, unwritable_challenge}

abbrev key : ℕ → Authenticator Memory.crypto
key n = record { key = n ∷ [] }

registration_completes_example :
    (serve_conn Memory.memory Memory.crypto
      (Memory.client "110")
      Memory.server
      none
      tt
      (λ channel. false)
      (Memory.hears 1 (0 ∷ []))).0
    ≡ success true
registration_completes_example =
    (registration_completes Memory.memory Memory.memory-IsOpen Memory.crypto (Memory.client "110")
      Memory.server (λ msg. "") "nightly" tt (λ channel. false) (1 ∷ []) (6 ∷ [])
      (Memory.hears 1 (0 ∷ [])) (Memory.hears 6 (0 ∷ []))
      (record { written = refl; read_back = refl; clean = (refl, tt) })
      (record { written = refl; read_back = refl; clean = (refl, tt) }) refl refl refl
      (Memory.hears-Holds 1 (0 ∷ [])) (Memory.hears-Holds 6 (0 ∷ []))).0

unwritable_challenge_example :
    (serve_conn Memory.memory Memory.crypto
      (Memory.client "110")
      Memory.tagged_server
      (some (key 2))
      tt
      (λ channel. false)
      (Memory.hears 1 (0 ∷ []))).0
    ≡ failure "cannot serialize tagged newtype variant"
unwritable_challenge_example =
    (unwritable_challenge Memory.memory Memory.memory-IsOpen Memory.crypto (Memory.client "110")
      Memory.tagged_server (key 2) tt (λ channel. false) (register "nightly")
      "cannot serialize tagged newtype variant" (1 ∷ []) [] (Memory.hears 1 (0 ∷ [])) refl
      (record { written = refl; read_back = refl; clean = (refl, tt) })
      (Memory.hears-Holds 1 (0 ∷ []))).0
