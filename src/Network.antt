-- ===== src/Network.antt =====
-- src/extension/network: peer to peer messages over UDP.
pub mod Outcome
pub mod Wire
pub mod State
pub mod Bits
pub mod Fragment
pub mod Targets
pub mod Data
pub mod Acks
pub mod Send
pub mod FreeId
pub mod Arrival
pub mod Sockets
pub mod Controller
pub mod Process
pub mod Quiet
pub mod Peers
pub mod Membership
pub mod Bounds
pub mod Lifecycle
mod Samples
mod Tests
