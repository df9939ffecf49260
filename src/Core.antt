-- ===== src/Core.antt =====
-- crates/rb-core: plan model, errors, progress, configuration, wire framing, chunk channel, session.
pub mod Error
pub mod Anyhow
pub mod Plan
pub mod Progress
pub mod Wire
pub mod Channel
pub mod Session
pub mod Module
pub mod Config
pub mod Pipe
pub mod Samples
mod Tests
