-- ===== src/Core/Channel/Transfer.antt =====
-- A whole transfer through the sink and the source of crates/rb-core/src/channel.rs: what the calls
-- of one side put on the wire, the calls of the other side give back.
use mathlib.Core.Option
use rust_backup.Prelude.{
  ℕ, zero, suc, ◌≤◌, ◌≡◌, refl, ap, sym, ◌∙◌, String, Option, List, [], ◌∷◌, ◌++◌, append-nil,
  append_assoc, length, All,
}
use rust_backup.Core.Error.{Action, ◌>>=◌, ◌>>◌, pure}
use rust_backup.Core.Progress.{Progress, add_bytes, item_done}
use rust_backup.Core.Wire.{Bytes, Stream, Codec, chunk_size, DataFrame, item_end, stream_end}
use rust_backup.Core.Wire.Tape.{Does, pure-Does, recast-Does, bind-Does}
use rust_backup.Core.Wire.Reliable.{IsReliable}
use rust_backup.Core.Wire.Frames.{framed}
use rust_backup.Core.Channel.{
  ChunkEvent, chunk, item_finished, end, Counted, send_chunk, finish_item, finish, next,
}
use rust_backup.Core.Channel.Chunks.{
  Travels, header, counted, send_chunk-Does, finish_item-Does, finish-Does, next_chunk-Does,
  next_item-Does, next_end-Does,
}

-- The counters after an event has passed.
abbrev pub meter : ChunkEvent → Option Progress → Option Progress
meter (chunk item_id offset bytes) p = Option.map (add_bytes (length bytes)) p
meter (item_finished item_id total blake3) p = Option.map item_done p
meter end p = p

abbrev pub meters : List ChunkEvent → Option Progress → Option Progress
meters [] p = p
meters (e ∷ es) p = meters es (meter e p)

module _ (codec : Codec DataFrame) (blake3_hex : Bytes → String) where
  module _ (S : Stream) where
    -- The call of the sink that an event stands for.
    abbrev pub send_event : ChunkEvent → Action (Counted S) (Unit {0})
    send_event (chunk item_id offset bytes) = send_chunk S codec blake3_hex item_id offset bytes
    send_event (item_finished item_id total blake3) =
        finish_item S codec blake3_hex item_id total blake3
    send_event end = finish S codec blake3_hex

    abbrev pub send_events : List ChunkEvent → Action (Counted S) (Unit {0})
    send_events [] = pure tt
    send_events (e ∷ es) = send_event e >> send_events es

    -- As many calls of `next`.
    abbrev pub next_events : ℕ → Action (Counted S) (List ChunkEvent)
    next_events zero = pure []
    next_events (suc n) = next S codec blake3_hex >>= λ e. next_events n >>= λ es. pure (e ∷ es)

  -- The bodies that serde_json writes.
  module _ (encode : DataFrame → Bytes) where
    abbrev pub frame_of : ChunkEvent → DataFrame
    frame_of (chunk item_id offset bytes) = header blake3_hex item_id offset bytes
    frame_of (item_finished item_id total blake3) = item_end item_id total blake3
    frame_of end = stream_end

    abbrev pub payload : ChunkEvent → Bytes
    payload (chunk item_id offset bytes) = bytes
    payload _ = []

    abbrev pub wire : List ChunkEvent → Bytes
    wire [] = []
    wire (e ∷ es) = framed (encode (frame_of e)) ++ (payload e ++ wire es)

    -- A chunk is within the limit, and the codec serves the frame of the event.
    abbrev pub IsSendable : ChunkEvent → Type 0
    IsSendable e =
        (length (payload e) ≤ chunk_size) × Travels codec (frame_of e) (encode (frame_of e))

    module _ (S : Stream) (R : IsReliable S) where
      pub send_event-Does :
          (e : ChunkEvent) (c : Counted S)
          → IsSendable e
          → Does
              (counted S R)
              (send_event S e c)
              c
              tt
              (R.pending c.stream)
              (framed (encode (frame_of e)) ++ payload e)
              (meter e c.progress)
      send_event-Does (chunk item_id offset bytes) c (h, t) =
          send_chunk-Does S R codec blake3_hex item_id offset bytes
            (encode (header blake3_hex item_id offset bytes)) c h t
      send_event-Does (item_finished item_id total digest) c (h, t) =
          recast-Does (counted S R)
            (finish_item-Does S R codec blake3_hex item_id total digest
              (encode (item_end item_id total digest)) c t)
            refl refl (sym (append-nil (framed (encode (item_end item_id total digest))))) refl
      send_event-Does end c (h, t) =
          recast-Does (counted S R) (finish-Does S R codec blake3_hex (encode stream_end) c t) refl
            refl (sym (append-nil (framed (encode stream_end)))) refl

      -- The calls of the sink all succeed, and write the wire form of the events in order.
      pub send_events-Does :
          (es : List ChunkEvent) (c : Counted S)
          → All IsSendable es
          → Does
              (counted S R)
              (send_events S es c)
              c
              tt
              (R.pending c.stream)
              (wire es)
              (meters es c.progress)
      send_events-Does [] c h = pure-Does (counted S R) tt c
      send_events-Does (e ∷ es) c h =
          let first = send_event-Does e c h.0 in
          let rest = send_events-Does es first.last h.1 in
          recast-Does (counted S R)
            (bind-Does (counted S R) (send_event S e) (λ _. send_events S es) c (wire es) first
              rest)
            refl first.input (append_assoc (framed (encode (frame_of e))) (payload e) (wire es))
            (ap (meters es) first.counted)

      pub next-Does :
          (e : ChunkEvent) (rest : Bytes) (c : Counted S)
          → IsSendable e
          → R.pending c.stream ≡ framed (encode (frame_of e)) ++ (payload e ++ rest)
          → Does (counted S R) (next S codec blake3_hex c) c e rest [] (meter e c.progress)
      next-Does (chunk item_id offset bytes) rest c (h, t) p =
          next_chunk-Does S R codec blake3_hex item_id offset bytes
            (encode (header blake3_hex item_id offset bytes)) rest c h t p
      next-Does (item_finished item_id total digest) rest c (h, t) p =
          next_item-Does S R codec blake3_hex item_id total digest
            (encode (item_end item_id total digest)) rest c t p
      next-Does end rest c (h, t) p =
          next_end-Does S R codec blake3_hex (encode stream_end) rest c t p

      -- The same number of calls of `next` give the events back, and read nothing behind them.
      pub next_events-Does :
          (es : List ChunkEvent) (rest : Bytes) (c : Counted S)
          → All IsSendable es
          → R.pending c.stream ≡ wire es ++ rest
          → Does (counted S R) (next_events S (length es) c) c es rest [] (meters es c.progress)
      next_events-Does [] rest c h p =
          recast-Does (counted S R) (pure-Does (counted S R) [] c) refl p refl refl
      next_events-Does (e ∷ es) rest c h p =
          let first = next-Does e (wire es ++ rest) c h.0 (
            p
            ∙ append_assoc (framed (encode (frame_of e))) (payload e ++ wire es) rest
            ∙ ap (λ x. framed (encode (frame_of e)) ++ x)
                (append_assoc (payload e) (wire es) rest)) in
          let others = next_events-Does es rest first.last h.1 first.input in
          let tail =
            bind-Does (counted S R) (next_events S (length es)) (λ es. pure (e ∷ es)) first.last []
              others (pure-Does (counted S R) (e ∷ es) others.last) in
          recast-Does (counted S R)
            (bind-Does (counted S R) (next S codec blake3_hex)
              (λ e. next_events S (length es) >>= λ es. pure (e ∷ es)) c [] first tail)
            refl others.input refl (others.counted ∙ ap (meters es) first.counted)

    -- What a counted sink sends, any counted source receives: the events of a list that the codec
    -- serves come back complete, in order and unchanged, over any two healthy streams, however they
    -- cut the bytes, and both sides count the same.
    pub transfer_round_trip :
        (S : Stream) (R : IsReliable S) (S' : Stream) (R' : IsReliable S') (es : List ChunkEvent)
        (rest : Bytes) (c : Counted S) (d : Counted S')
        → All IsSendable es
        → R'.pending d.stream ≡ wire es ++ rest
        → Does
            (counted S R)
            (send_events S es c)
            c
            tt
            (R.pending c.stream)
            (wire es)
            (meters es c.progress)
          × Does (counted S' R') (next_events S' (length es) d) d es rest [] (meters es d.progress)
    transfer_round_trip S R S' R' es rest c d h p =
        (send_events-Does S R es c h, next_events-Does S' R' es rest d h p)
