-- ===== src/Transport/Client/Introducing.antt =====
-- What a client of crates/rb-transport/src/client.rs says on its control stream when the server accepts.
use rust_backup.Prelude.{◌≡◌, ap, ◌∙◌, String, Option, none, [], ◌∷◌, ◌++◌}
use rust_backup.Core.Error.{ok, continue, ◌>>=◌}
use rust_backup.Core.Wire.{Bytes, Codec, coded}
use rust_backup.Transport.Proto.{ClientMsg, ServerMsg, accepted, Output, Delimited, recv_msg}
use rust_backup.Transport.Proto.Steps.{Holds, IsOpen, Carries, send_msg-Spoke, recv_msg-Spoke}
use rust_backup.Transport.Auth.{Crypto}
use rust_backup.Transport.Client.{labelled, at, conclude, introduce}

module _ (out : Output) (O : IsOpen out) {Uuid : Type 0} (crypto : Crypto Uuid)
    (client : Codec ClientMsg) (server : Codec (ServerMsg Uuid)) where
  -- A client without a secret, to which the acceptance comes.
  pub introduce_accepted :
      (debug : Option (ServerMsg Uuid) → String) (label : String) (msg : ClientMsg)
      (first okay rest : Bytes) (d : Delimited out)
      → client.to_vec msg ≡ coded first
      → Carries server accepted okay
      → Holds d.incoming (okay ++ (0 ∷ rest))
      → (last : Delimited out) × (introduce out crypto client server debug label msg none d
          ≡ (ok tt, last))
        × (O.sent last.inner ≡ O.sent d.inner ++ (first ++ (0 ∷ [])))
  unfolding introduce
  introduce_accepted debug label msg first okay rest d f o h =
      let one = send_msg-Spoke out O client msg first (okay ++ (0 ∷ rest)) d f h in
      let two = recv_msg-Spoke out O server accepted okay rest one.last o one.holds in
      let finish = conclude out crypto client server debug in
      let hear = at "recv: " (recv_msg out server) >>= finish in
      (
        two.last,
        ap (λ r. continue (λ _. hear) (labelled label r)) one.result
            ∙ ap (λ r. continue finish (labelled "recv: " r)) two.result,
        two.says ∙ one.says,
      )
