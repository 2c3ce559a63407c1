-- ===== src/Signaling/Invariant.antt =====
pub mod Numbering
pub mod Client
pub mod Targets
pub mod Peers
pub mod Events
pub mod Calls
pub mod Connect
