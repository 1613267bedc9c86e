-- ===== src/Aggregator.antt =====
-- The aggregator daemon (aggregator/): it collects the lines of its followers into files.
pub mod Config
pub mod Channels
pub mod Files
pub mod Handlers
pub mod Receive
pub mod Sample
pub mod Loop
mod Tests
