-- ===== src/Transport/EndToEnd.antt =====
-- A whole backup through the server: `PairedChannel` of crates/rb-transport/src/channel.rs on both sides,
-- the relay of server.rs between them, and the run loops of crates/rb-core/src/session.rs on top.
use rust_backup.Prelude.{
  ◌≡◌, refl, ap, sym, ◌∙◌, String, Bool, true, none, some, List, [], ◌∷◌, ◌++◌,
}
use rust_backup.Core.Error.{ok, success}
use rust_backup.Core.Plan.{BackupPlan}
use rust_backup.Core.Progress.{Progress}
use rust_backup.Core.Wire.{Bytes, Stream, DataFrame}
use rust_backup.Core.Wire.Reliable.{IsReliable}
use rust_backup.Core.Wire.Frames.{framed}
use rust_backup.Core.Channel.{ChunkEvent, Counted}
use rust_backup.Core.Session.{Formats, Source, Destination, run_source, run_destination}
use rust_backup.Core.Session.Effects.{apply_all}
use rust_backup.Core.Session.Serving.{transcript, total}
use rust_backup.Core.Session.Partners.{Sends, Takes, Carried}
use rust_backup.Core.Session.EndToEnd.{source_runs, destination_runs}
use rust_backup.Transport.Paired.{
  stream_ready, Mux, source, destination, paired, open_stream, after_open, after_ready,
  accept_stream,
}
use rust_backup.Transport.Paired.Marker.{accept_stream_marker}
use rust_backup.Transport.Pool.{CarrierPool, pick}
use rust_backup.Transport.Relay.{Driver, relay}
use rust_backup.Transport.Relay.Joining.{relay_joins}

module _ {V : Type 0} (fmt : Formats V) (encode : DataFrame → Bytes)
    -- the substream at the source, and its driver
    (S : Stream) (R : IsReliable S) {C : Type 0} (mux : Mux S C)
    -- the substream at the destination, and its driver
    (S' : Stream) (R' : IsReliable S') {C' : Type 0} (mux' : Mux S' C')
    -- the consumer's substream at the server, and the driver of the provider's
    (T : Stream) (RT : IsReliable T) {Opener : Type 0} (D : Driver Opener)
    (written : D.Provider → Bytes) where
  -- What the network does with one substream between the two sides, under the channel `id`. The
  -- destination opens a substream that takes its marker, and reads `answer` there. The server is handed a
  -- substream with what the destination wrote, a marker and `request`, has a carrier whose substream takes
  -- its own marker, and copies what its relay left to be read behind what it wrote. The source is handed the
  -- substream at which this arrives.
  pub record Connected (id : String) (pool : CarrierPool Opener) (k k1 : C) (k' k1' : C')
      (request answer : Bytes) : Type 0 where
    pub opened : S'.State
    pub marked : S'.State
    pub open_next : mux'.open_next k' ≡ (success opened, k1')
    pub write_marker : mux'.write_all (stream_ready ∷ []) opened ≡ (none, marked)
    pub only_marker : R'.sent marked ≡ stream_ready ∷ []
    pub answered : R'.pending marked ≡ answer
    pub consumer : T.State
    pub requested : RT.pending consumer ≡ stream_ready ∷ request
    pub idle : D.State
    pub idle' : D.State
    pub carrier : Opener
    pub provider : D.Provider
    pub provider' : D.Provider
    pub picked : (pick pool).0 ≡ some carrier
    pub open_provider : D.open_next carrier idle ≡ (success provider, idle')
    pub mark_provider : D.write_all (stream_ready ∷ []) provider ≡ (none, provider')
    pub provider_marked : written provider' ≡ stream_ready ∷ []
    pub inbound : S.State
    pub accepted : mux.accept k ≡ (some inbound, k1)
    pub silent : R.sent inbound ≡ []
    pub copied :
        (t : T.State)
        → (relay T D id (some pool) consumer idle).joined ≡ success (t, provider')
        → R.pending inbound ≡ written provider' ++ RT.pending t

  -- The substream that the source's session gets: the relay has put its own marker in the place of the
  -- destination's, and the source has taken it off.
  source_accepts :
      (id : String) (pool : CarrierPool Opener) (k k1 : C) (k' k1' : C') (request answer : Bytes)
      (n : Connected id pool k k1 k' k1' request answer)
      → (s : S.State) × (accept_stream S C mux source k ≡ (ok s, k1))
        × (R.pending s ≡ request)
        × (R.sent s ≡ [])
  source_accepts id pool k k1 k' k1' request answer n =
      let (t, joined, left, _) =
        relay_joins T RT D id pool n.consumer n.idle n.idle' n.carrier n.provider n.provider'
          stream_ready request n.requested n.picked n.open_provider n.mark_provider in
      let arrives : R.pending n.inbound ≡ stream_ready ∷ request =
        n.copied t (ap (λ r. r.joined) joined) ∙ rw (n.provider_marked, left) refl in
      let (s, handed, rest, quiet) =
        accept_stream_marker S R C mux k k1 n.inbound stream_ready request n.accepted arrives in
      (s, handed, rest, quiet ∙ n.silent)

  destination_opens :
      (id : String) (pool : CarrierPool Opener) (k k1 : C) (k' k1' : C') (request answer : Bytes)
      (n : Connected id pool k k1 k' k1' request answer)
      → open_stream S' C' mux' destination k' ≡ (ok n.marked, k1')
  unfolding open_stream
  destination_opens id pool k k1 k' k1' request answer n =
      ap (after_open S' C' mux') n.open_next ∙ ap (after_ready S' C' mux' k1') n.write_marker

  -- A whole backup through the server. If the network connects the two sides as `Connected` says, the
  -- source's backend sends `es` and keeps its fingerprint, the destination's is ready and takes events up
  -- to the end, the policy approves, and the codec carries the frames of the run, then both runs succeed,
  -- the destination has applied exactly the events of the source in their order, the source has written
  -- what the destination had to read, and the destination what the server's relay had to read.
  pub relayed_backup_completes :
      (id : String) (pool : CarrierPool Opener) (k k1 : C) (k' k1' : C') (B : Type 0)
      (src : Source V B) (progress : Progress) (B' : Type 0) (dest : Destination V B') {P : Type 0}
      (accept : BackupPlan V → P → Bool × P) (progress' : Progress) (step : ChunkEvent → B' → B')
      (plan : BackupPlan V) (es : List ChunkEvent) (plan_body ack_body done_body : Bytes)
      (b last : B) (b' first : B') (q q' : P)
      (n : Connected id pool k k1 k' k1'
        (framed ack_body)
        (transcript fmt encode plan_body es done_body))
      → Sends src plan es b last
      → Takes dest step plan es b' first
      → accept plan q ≡ (true, q')
      → Carried fmt encode plan es (total es (some progress)) plan_body ack_body done_body
      → (l : Counted S) × (l' : Counted S') × (run_source S fmt B src
            (paired S C mux source)
            progress
            b
            k
          ≡ record {
            result = ok (record { plan = plan; bytes_sent = total es (some progress) });
            backend = last;
            chan = k1;
            link = some l;
          })
        × (run_destination S' fmt B' dest accept (paired S' C' mux' destination) progress' b' k' q
            ≡ record {
              run = record {
                result = ok plan;
                backend = apply_all step es first;
                chan = k1';
                link = some l';
              };
              policy = q';
            })
        × (R.sent l.stream ≡ R'.pending n.marked)
        × (R'.sent l'.stream ≡ RT.pending n.consumer)
  relayed_backup_completes id pool k k1 k' k1' B src progress B' dest accept progress' step plan es
        plan_body ack_body done_body b last b' first q q' n o i approved c =
      let (s, handed, request, quiet) =
        source_accepts id pool k k1 k' k1' (framed ack_body)
          (transcript fmt encode plan_body es done_body) n in
      let opens =
        destination_opens id pool k k1 k' k1' (framed ack_body)
          (transcript fmt encode plan_body es done_body) n in
      let (l, run, out) =
        source_runs S R fmt B src (paired S C mux source) progress encode o.fp "accepted" plan es
          plan_body ack_body done_body b o.analyzed o.streamed last k k1 s o.before o.analysis
          o.stream_out o.after handed request c.plan_travels c.ack_travels c.events_travel
          c.end_travels c.done_travels in
      let (l', run', out') =
        destination_runs S' R' fmt B' dest accept (paired S' C' mux' destination) progress' encode
          step i.turns (total es (some progress)) plan i.preflight es plan_body ack_body done_body
          b' first k' k1' q q' n.marked opens i.validated i.passed approved i.stream_in i.enough
          c.items n.answered c.plan_travels c.ack_travels c.events_travel c.end_travels
          c.done_travels in
      (
        l,
        l',
        run,
        run',
        out ∙ ap (λ x. x ++ transcript fmt encode plan_body es done_body) quiet ∙ sym n.answered,
        out' ∙ ap (λ x. x ++ framed ack_body) n.only_marker ∙ sym n.requested,
      )
