-- ===== src/Transport/Proto/Cuts.antt =====
-- The receiving loop of crates/rb-transport/src/proto.rs against the bytes that a healthy stream
-- delivers, cut into reads.
use rust_backup.Prelude.{
  ℕ, ◌≡◌, refl, sym, ap, ◌∙◌, false, Option, none, some, List, [], ◌∷◌, ◌++◌, append-nil,
  append_assoc, ◌==◌, ==_iff, Bool-cases, Option-cases, inl, inr, All, length, map, zero, suc,
}
use rust_backup.Core.Error.{Outcome}
use rust_backup.Core.Wire.{Bytes, Codec}
use rust_backup.Transport.Proto.{Read, got, Incoming, split_null, decoded, recv}

-- A text without a zero byte, as every JSON text is.
abbrev pub IsClean : Bytes → Type 0
IsClean = All (λ b. (b == 0) ≡ false)

split_null-clean :
    (json rest : Bytes) → IsClean json → split_null (json ++ (0 ∷ rest)) ≡ some (json, rest)
unfolding split_null
split_null-clean [] rest clean = refl
split_null-clean (b ∷ json) rest (no_null, clean) =
    rw (no_null, split_null-clean json rest clean) refl

-- The parts that a buffer is cut into.
split_null-parts :
    (buf json rest : Bytes)
    → split_null buf ≡ some (json, rest)
    → (buf ≡ json ++ (0 ∷ rest)) × IsClean json
unfolding split_null
split_null-parts [] json rest h = absurd (cc)
split_null-parts (b ∷ buf) json rest h = elim (Bool-cases (b == 0)) [
  | inl e ↦
      let here : split_null (b ∷ buf) ≡ some ([], buf) = rw e refl in
      let first : [] ≡ json = cc in
      let behind : buf ≡ rest = cc in
      rw (sym first, sym behind) (ap (λ x. x ∷ buf) ((==_iff b 0).0 e), tt)
  | inr e ↦ elim (Option-cases (split_null buf)) [
    | inl f ↦ let none_here : split_null (b ∷ buf) ≡ none = rw (e, f) refl in absurd (cc)
    | inr ((j, r), f) ↦
        let there : split_null (b ∷ buf) ≡ some (b ∷ j, r) = rw (e, f) refl in
        let (parts, clean) = split_null-parts buf j r f in
        let first : b ∷ j ≡ json = cc in
        let behind : r ≡ rest = cc in rw (sym first, sym behind) (ap (◌∷◌ b) parts, (e, clean))
  ]
]

-- The bytes of the reads to come, when none of them fails and none is the end of the stream.
pub data Delivers : List Read → Bytes → Type 0 where
  nothing : Delivers [] []
  more :
      (b : ℕ) (bs : Bytes) {reads : List Read} {bytes : Bytes}
      → Delivers reads bytes
      → Delivers (got (b ∷ bs) ∷ reads) ((b ∷ bs) ++ bytes)

module _ {T : Type 0} (codec : Codec T) where
  -- What a turn makes of the frame that the buffer and the reads begin with.
  pub record Received (json rest : Bytes) (r : Outcome (Option T) × Incoming) : Type 0 where
    pub result : r.0 ≡ decoded codec (codec.from_slice json)
    pub later : Bytes
    pub delivers : Delivers (r.1.reads) later
    pub kept : r.1.read_buf ++ later ≡ rest

  -- A frame that is already in the buffer is the one that the bytes begin with.
  in_buffer :
      (buf bytes json rest j r : Bytes)
      → IsClean json
      → buf ++ bytes ≡ json ++ (0 ∷ rest)
      → split_null buf ≡ some (j, r)
      → (j ≡ json) × (r ++ bytes ≡ rest)
  in_buffer buf bytes json rest j r clean p f =
      let (parts, clean_j) = split_null-parts buf j r f in
      let one = ap split_null p ∙ split_null-clean json rest clean in
      let apart = ap (λ x. x ++ bytes) parts ∙ append_assoc j (0 ∷ r) bytes in
      let two = ap split_null apart ∙ split_null-clean j (r ++ bytes) clean_j in (cc, cc)

  -- A frame that is not is still to be read.
  not_in_buffer :
      (buf json rest : Bytes) → IsClean json → buf ≡ json ++ (0 ∷ rest) → split_null buf ≡ none → ⊥
  not_in_buffer buf json rest clean p f =
      let one = ap split_null p ∙ split_null-clean json rest clean in absurd (cc)

  received :
      {reads : List Read} {bytes : Bytes} (buf json rest j r : Bytes)
      → Delivers reads bytes
      → IsClean json
      → buf ++ bytes ≡ json ++ (0 ∷ rest)
      → split_null buf ≡ some (j, r)
      → Received json rest
          (decoded codec (codec.from_slice j), record { reads = reads; read_buf = r })
  received buf json rest j r d clean p f =
      let (same, left) = in_buffer buf _ json rest j r clean p f in
      record {
        result = ap (λ x. decoded codec (codec.from_slice x)) same;
        later = _;
        delivers = d;
        kept = left;
      }

  pub recv-Received :
      {reads : List Read} {bytes : Bytes} (buf json rest : Bytes)
      → Delivers reads bytes
      → IsClean json
      → buf ++ bytes ≡ json ++ (0 ∷ rest)
      → Received json rest (recv codec reads buf)
  unfolding recv
  recv-Received buf json rest nothing clean p = elim (Option-cases (split_null buf)) [
    | inl f ↦ absurd (not_in_buffer buf json rest clean (sym (append-nil buf) ∙ p) f)
    | inr ((j, r), f) ↦ rw f (received buf json rest j r nothing clean p f)
  ]
  recv-Received buf json rest (more b bs d) clean p = elim (Option-cases (split_null buf)) [
    | inl f ↦
        rw f (recv-Received (buf ++ (b ∷ bs)) json rest d clean (append_assoc buf (b ∷ bs) _ ∙ p))
    | inr ((j, r), f) ↦ rw f (received buf json rest j r (more b bs d) clean p f)
  ]

  -- As many calls as there are frames to come.
  unfoldable pub recv_many : ℕ → Incoming → List (Outcome (Option T))
  recv_many zero s = []
  recv_many (suc n) s = let (r, s') = recv codec s.reads s.read_buf in r ∷ recv_many n s'

  -- Frames as they stand on the wire.
  abbrev pub framed_all : List Bytes → Bytes
  framed_all [] = []
  framed_all (json ∷ jsons) = json ++ (0 ∷ framed_all jsons)

  -- Frames that a healthy stream delivers, cut into reads in any way whatever, some of it in the buffer
  -- already, are received one by one and in order: the calls answer what the JSON codec answers on each
  -- body, also behind a body that it refuses.
  pub recv_many_cuts :
      (jsons : List Bytes) (rest : Bytes) (s : Incoming) (bytes : Bytes)
      → All IsClean jsons
      → Delivers s.reads bytes
      → s.read_buf ++ bytes ≡ framed_all jsons ++ rest
      → recv_many (length jsons) s ≡ map (λ json. decoded codec (codec.from_slice json)) jsons
  unfolding recv_many
  recv_many_cuts [] rest s bytes clean d p = refl
  recv_many_cuts (json ∷ jsons) rest s bytes (c, clean) d p =
      let next =
        recv-Received s.read_buf json (framed_all jsons ++ rest) d c
          (p ∙ append_assoc json (0 ∷ framed_all jsons) rest) in
      let others =
        recv_many_cuts jsons rest (recv codec s.reads s.read_buf).1 next.later clean next.delivers
          next.kept in
      ap (λ x. x ∷ recv_many (length jsons) (recv codec s.reads s.read_buf).1) next.result
      ∙ ap (◌∷◌ (decoded codec (codec.from_slice json))) others
