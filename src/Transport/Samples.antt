-- ===== src/Transport/Samples.antt =====
-- Concrete data for the tests of crates/rb-transport: a stream in memory, keyed codes that are the key, a
-- codec with one-byte bodies, and a driver that opens substreams in memory.
use Prim.Native.Char.{code}
use mathlib.Core.Option
use rust_backup.Prelude.{
  ℕ, zero, suc, ◌≡◌, refl, ap, String, true, Option, none, some, [], ◌∷◌, ◌++◌, ◌==◌, if◌then◌else◌,
}
use rust_backup.Core.Error.{success}
use rust_backup.Core.Wire.{Bytes, Codec, Coded, coded, refused}
use rust_backup.Transport.Auth.{Crypto}
use rust_backup.Transport.Pool.{Carrier}
use rust_backup.Transport.Proto.{
  ClientMsg, register, connect, authenticate, heartbeat, ServerMsg, challenge, accepted,
  heartbeat_echo, error, got, Output, Delimited,
}
use rust_backup.Transport.Proto.Steps.{Holds, IsOpen}
use rust_backup.Transport.Proto.Cuts.{nothing, more}
use rust_backup.Transport.Relay.{Driver}

abbrev pub memory : Output
memory = record { State = Bytes; write_all = λ b s. (none, s ++ b); flush = λ s. (none, s) }

abbrev pub memory-IsOpen : IsOpen memory
memory-IsOpen = record {
  sent = λ s. s;
  writes = λ b s. (s ++ b, refl, refl);
  flushes = λ s. (s, refl, refl);
}

-- A byte in unary.
unfoldable pub put : ℕ → String → String
put zero s = String.◌∷◌ "0" s
put (suc n) s = String.◌∷◌ "1" (put n s)

unfoldable pub encode : Bytes → String
encode [] = String.[]
encode (b ∷ bs) = put b (encode bs)

abbrev pub bump : Option Bytes → Option Bytes
bump none = none
bump (some []) = none
bump (some (b ∷ bs)) = some (suc b ∷ bs)

unfoldable pub decode : String → Option Bytes
decode String.[] = some []
decode (String.◌∷◌ c s) =
    let rest = decode s in if code c == 48 then Option.map (λ bs. 0 ∷ bs) rest else bump rest

decode-put :
    (n : ℕ) (s : String) (bs : Bytes) → decode s ≡ some bs → decode (put n s) ≡ some (n ∷ bs)
unfolding decode put
decode-put zero s bs h = ap (Option.map (λ bs. 0 ∷ bs)) h
decode-put (suc n) s bs h = ap bump (decode-put n s bs h)

pub decode-encode : (bs : Bytes) → decode (encode bs) ≡ some bs
unfolding decode encode
decode-encode [] = refl
decode-encode (b ∷ bs) = decode-put b (encode bs) bs (decode-encode bs)

-- A code is the key itself.
abbrev pub crypto : Crypto (Unit {0})
crypto = record {
  sha256 = λ secret. 2 ∷ [];
  hmac = λ key message. key;
  as_bytes = λ c. [];
  encode = encode;
  decode = decode;
}

abbrev pub encode_client : ClientMsg → Bytes
encode_client (register channel) = 1 ∷ []
encode_client (connect channel) = 2 ∷ []
encode_client (authenticate tag) = 3 ∷ []
encode_client heartbeat = 4 ∷ []

abbrev pub decode_client : String → Bytes → Coded ClientMsg
decode_client tag [] = refused "EOF while parsing a value"
decode_client tag (b ∷ bs) =
    if b == 1
    then coded (register "nightly")
    else if b == 2
    then coded (connect "nightly")
    else if b == 3
    then coded (authenticate tag)
    else coded heartbeat

-- A codec by which the third message carries `tag`.
abbrev pub client : String → Codec ClientMsg
client tag = record { to_vec = λ msg. coded (encode_client msg); from_slice = decode_client tag }

abbrev pub encode_server : ServerMsg (Unit {0}) → Bytes
encode_server (challenge c) = 5 ∷ []
encode_server accepted = 6 ∷ []
encode_server heartbeat_echo = 7 ∷ []
encode_server (error e) = 8 ∷ []

abbrev pub decode_server : Bytes → Coded (ServerMsg (Unit {0}))
decode_server [] = refused "EOF while parsing a value"
decode_server (b ∷ bs) =
    if b == 5 then coded (challenge tt) else if b == 6 then coded accepted else coded heartbeat_echo

abbrev pub server : Codec (ServerMsg (Unit {0}))
server = record { to_vec = λ msg. coded (encode_server msg); from_slice = decode_server }

-- The same, by serde's rule for an internally tagged enum, which cannot write a variant of a string.
abbrev pub tagged : ServerMsg (Unit {0}) → Coded Bytes
tagged (challenge c) = refused "cannot serialize tagged newtype variant"
tagged (error e) = refused "cannot serialize tagged newtype variant"
tagged msg = coded (encode_server msg)

abbrev pub tagged_server : Codec (ServerMsg (Unit {0}))
tagged_server = record { to_vec = tagged; from_slice = decode_server }

-- A connection to which the peer has one read of bytes to say.
abbrev pub hears : ℕ → Bytes → Delimited memory
hears b bs = record { inner = []; incoming = record { reads = got (b ∷ bs) ∷ []; read_buf = [] } }

pub hears-Holds : (b : ℕ) (bs : Bytes) → Holds (hears b bs).incoming (b ∷ (bs ++ []))
hears-Holds b bs = record { later = b ∷ (bs ++ []); delivers = more b bs nothing; all = refl }

abbrev pub live : ℕ → Carrier ℕ
live o = record { opener = o; alive = true }

-- Openers are numbers; a substream is what was written to it.
abbrev pub yamux : Driver ℕ
yamux = record {
  State = ℕ;
  Provider = Bytes;
  open_next = λ o w. (success [], suc w);
  write_all = λ b p. (none, p ++ b);
  early_eof = "early eof";
}
