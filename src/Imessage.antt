-- ===== src/Imessage.antt =====
-- The inbound half of the iMessage adapter: channels/joshua_channels/adapters/imessage.
pub mod Json
pub mod Normalize
pub mod Forwarder
pub mod Counts
pub mod Places
pub mod Once
pub mod Runs
pub mod Joined
pub mod Merge
pub mod Reconcile
pub mod Ticks
pub mod Loss
pub mod Names
pub mod Forwardable
mod Tests
