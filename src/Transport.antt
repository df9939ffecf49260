-- ===== src/Transport.antt =====
-- crates/rb-transport: the coordination server, and the channel between the two sides.
pub mod Server
pub mod Proto
pub mod Paired
pub mod Endpoint
pub mod Relay
pub mod Listener
pub mod Connection
pub mod EndToEnd
pub mod Unpaired
pub mod Pool
pub mod Admission
pub mod Client
pub mod Auth
pub mod Serving
pub mod Provider
pub mod Consumer
pub mod Handler
pub mod Size
pub mod Tuning
mod Samples
mod Tests
