-- ===== src/Lib.antt =====
-- rust-backup: a streaming backup from a source to a destination over one paired substream.
--
-- The program's parts and the files that model them:
-- * crates/rb-core/src/error.rs, Core/Error.antt: phases, errors, results. A call that may fail and
--   that moves a state is `Action S A = S → Result A × S`; `>>=` is what `.await?` does.
-- * crates/rb-core/src/plan.rs, Core/Plan.antt: the plan and the preflight. The type of JSON values is
--   the parameter `V`.
--   Plan/Render has the texts for the operator, those of progress.rs included, over a parameter of
--   floating-point numbers, and Render/Units the units of sizes.
-- * crates/rb-core/src/progress.rs, Core/Progress.antt: the counters, with their wrap at 64 bits.
-- * crates/rb-core/src/wire.rs, Core/Wire.antt: frames behind a four-byte length. The stream is a
--   record of `read`, `read_exact`, `write` and `flush` on a state of its own, the JSON codec a record
--   of `to_vec` and `from_slice`. Wire/Tape is a small logic of what a call reads, writes and counts;
--   Wire/Reliable says what a healthy stream is (it moves at least one byte a call, in order, and ends
--   only at the end) and what the loops do on it; Wire/Fuel has the loops without their turns, and
--   Fuel/Runs to what end they come;
--   Wire/Frames has the frame format as a function.
-- * crates/rb-core/src/channel.rs, Core/Channel.antt: chunk sink, chunk source, plan and decision.
--   Channel/Chunks treats one event, Channel/Transfer a list of them, Channel/Integrity what is
--   delivered on any stream, Channel/Counting what the counter does.
-- * crates/rb-core/src/session.rs and the traits of module.rs, Core/Session.antt: the two run loops. A
--   backend is a parameter; its `stream_out` is the tree of its calls of the sink (`Upload`) and its
--   `stream_in` the tree of its calls of the source (`Download`), so that a theorem about every backend
--   is one about every tree. Session/Effects, Opening, Serving, Outcomes,
--   Restoring, EndToEnd, Turns, Cut, Torn, Refusal, Consent, Release, Immutability, Counting and Unattended hold
--   the theorems;
--   Session/Partners is what two sides bring along when all goes well.
-- * crates/rb-core/src/module.rs, Core/Module.antt: parameters, the module trait, the registry.
--   Module/Names is about sorted lists of names, Module/Registry about a row of registrations.
-- * crates/rb-postgres, rb-mongodb, rb-filesystem, rb-s3 (src/lib.rs), Modules.antt and Modules/: the
--   parameters and plan payloads of each module, and its stub source and destination; Modules/Stubs is
--   what a session makes of them.
-- * crates/rb-core/src/config.rs, Core/Config.antt: the settings of a session and of the server, and
--   how they are read. Core/Anyhow.antt has the calls that fail with a text.
-- * crates/rust-backup/src/main.rs, Cli.antt, Cli/Params.antt: how the command line becomes the
--   parameters of a module and the transport settings, with the typed flags as a table in
--   Params/Typed and the map in Params/Inserting; Cli/Run.antt: the dispatch of a target, a session
--   of many targets and the question to the operator, with standard input as a state; Run/Sessions has the
--   order of the targets and who is asked. Cli/Main.antt: the subcommands; Main/Subcommands is what they
--   come to with the modules that are registered. Cli/Tracing.antt: the filter of the log.
-- * crates/rb-transport/src/server.rs, Transport/Server.antt: the registry of providers as a step relation
--   on what all connections share; Server/Ownership and Server/Race say what may be found in it.
--   Server/Pools adds the pools behind the registry and the relays that take openers from them;
--   Pools/Isolation and Pools/Service say whose opener a relay gets. Transport/Listener.antt: the loop that
--   accepts connections; Listener/Guarded is who is served.
-- * crates/rb-transport/src/proto.rs, Transport/Proto.antt: control messages behind which a zero byte
--   stands; Proto/Cuts is the receiving loop against the bytes, however they are cut.
--   Proto/Steps is a small logic of whole calls on an open connection.
-- * crates/rb-transport/src/auth.rs, Transport/Auth.antt: the challenge handshake; Auth/Tags is the
--   comparison of tags.
-- * crates/rb-transport/src/server.rs, Transport/Admission.antt: the first messages of a connection, up to
--   the first answer; Admission/Registering has a server and a client together, and
--   Admission/Authenticated a server with any peer. Transport/Relay.antt: the
--   relay of a substream and the permits; Relay/Permits counts them, Relay/Joining is one relay.
--   Transport/Serving.antt: the loop that serves a connection, over a row of events.
--   Transport/Provider.antt and Transport/Consumer.antt are the whole of `serve_provider` and
--   `serve_consumer`, with what the other connections do meanwhile as a parameter; Provider/Lifetime and
--   Provider/Alone say how long a provider is registered, Consumer/Bounded which substreams are relayed.
--   Transport/Handler.antt is the whole of `handle_conn` on top of both; Handler/Untouched is what a peer
--   without the secret can do.
-- * crates/rb-transport/src/shared.rs, Transport/Size.antt: sizes as texts, and the buffer of a relay;
--   Size/Reading says which texts are sizes, with the digits and units of Size/Units. Transport/Tuning.antt: the options of a socket.
-- * crates/rb-transport/src/client.rs, Transport/Client.antt: both connect functions.
-- * crates/rb-transport/src/transport.rs, Transport/Endpoint.antt: the address of the server;
--   Endpoint/Ports and Endpoint/RoundTrip are about its parts. Transport/Connection.antt: the connection
--   to the server, over TLS or not; Connection/Delegation has the calls on it, Connection/Verification the
--   certificates.
-- * crates/rb-transport/src/pool.rs, Transport/Pool.antt: the openers of a provider in turn; Pool/Live is
--   whom a pick gives. Pool/Pending has the guard of the pending carriers.
-- * crates/rb-transport/src/channel.rs, Transport/Paired.antt: the channel of a session, whose substreams
--   begin with a marker; Paired/Marker is what the source makes of it. Transport/EndToEnd puts it together
--   with a relay and the two run loops, and Transport/Unpaired with a relay that finds no provider.
-- * Core/Pipe.antt is a stream in memory that keeps the promises of Wire/Reliable; Core/Samples.antt
--   and Transport/Samples have concrete data, at which the modules named Tests and their children run
--   the theorems.
--
-- Bounds and fuel: `write_loop` has one turn for each byte of the buffer and `read_loop` one for each
-- byte asked, which is enough since a turn that does not end the loop moves a byte at least. `decimal`
-- has twenty turns, the most digits of a 64-bit number, and `scale` four, the units above bytes. The
-- receiving loop of Transport/Proto goes over the results of the reads to come, behind which the stream
-- has ended, and the loop of Transport/Serving over the events to come. Integers are natural numbers; a
-- conversion that cuts is written out.
--
-- Not modelled: the wall clock (a timeout is one of the results of a call), what is logged, and
-- vendored-from-bore with mux.rs, prefixed.rs and reconnect.rs of crates/rb-transport, which are another
-- project's. direct.rs has no code. The sockets, rustls, the roots of webpki, the yamux driver, the byte
-- copy of a relay, the hashes, JSON, YAML and the command-line parser are parameters.
pub mod Prelude
pub mod Core
pub mod Transport
pub mod Modules
pub mod Cli
