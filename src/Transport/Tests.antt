-- ===== src/Transport/Tests.antt =====
-- The theorems about crates/rb-transport at concrete data.
mod Backups
mod Connections
mod Early
mod Guards
mod Handlers
mod Handshakes
mod Relays
mod Texts
use rust_backup.Prelude.{ℕ, ◌≡◌, refl, String, some, [], ◌∷◌, arith}
use rust_backup.Core.Error.{success, failure}
use rust_backup.Core.Samples
use rust_backup.Core.Wire.{item_end}
use rust_backup.Transport.Proto.{got}
use rust_backup.Transport.Proto.Cuts.{nothing, more, recv_many, recv_many_cuts}
use rust_backup.Transport.Server.{registered, leave, Reachable}
use rust_backup.Transport.Server.Ownership.{registry_owner}
use rust_backup.Transport.Server.Race.{both_entered, two_providers}

abbrev nightly : ℕ → String
nightly t = "nightly"

registry_owner_example : ((both_entered nightly 1 2).stage 2 ≡ registered) × (nightly 2 ≡ "nightly")
registry_owner_example =
    registry_owner nightly (both_entered nightly 1 2) "nightly" 2
      (two_providers nightly 1 2 (ground arith) refl).0
      (two_providers nightly 1 2 (ground arith) refl).3

two_providers_example : Reachable nightly (leave nightly 1 (both_entered nightly 1 2))
two_providers_example = (two_providers nightly 1 2 (ground arith) refl).4

-- Two messages, cut inside the first and behind the zero byte of the second.
recv_many_cuts_example :
    recv_many Samples.frames 2
      (record { reads = got (2 ∷ 0 ∷ 9 ∷ []) ∷ got (0 ∷ []) ∷ []; read_buf = [] })
    ≡ success (some (item_end 7 3 "digest")) ∷ failure "expected value" ∷ []
unfolding recv_many
recv_many_cuts_example =
    recv_many_cuts Samples.frames ((2 ∷ []) ∷ (9 ∷ []) ∷ []) []
      (record { reads = got (2 ∷ 0 ∷ 9 ∷ []) ∷ got (0 ∷ []) ∷ []; read_buf = [] })
      (2 ∷ 0 ∷ 9 ∷ 0 ∷ []) ((refl, tt), ((refl, tt), tt)) (more 2 (0 ∷ 9 ∷ []) (more 0 [] nothing))
      refl
