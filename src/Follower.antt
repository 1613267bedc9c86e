-- ===== src/Follower.antt =====
-- The follower daemon (follower/): it tails files and sends their lines to the aggregator.
pub mod Config
pub mod Connection
pub mod Context
pub mod Run
pub mod Rotate
pub mod Controller
pub mod Loop
