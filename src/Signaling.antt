-- ===== src/Signaling.antt =====
-- internal/signaling: the client of the signaling server (HPB) for one call.
pub mod Messages
pub mod Client
pub mod Targets
pub mod Offers
pub mod Audio
pub mod Events
pub mod Connect
pub mod Monitor
pub mod Calls
pub mod Invariant
pub mod Closing
pub mod Silence
pub mod Delivery
pub mod Waiting
pub mod Handshake
pub mod Connections
pub mod LostPeer
pub mod LateOffer
