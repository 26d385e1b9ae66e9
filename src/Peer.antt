-- ===== src/Peer.antt =====
-- The peer connection of the client: RemoteControl_rtc/RemoteControl_rtc/PeerSession.cpp.
pub mod Session
pub mod Life
pub mod Negotiation
pub mod Candidates
pub mod Passes
pub mod Order
pub mod Beginning
pub mod Closing
pub mod Manager
pub mod Authorization
pub mod Ice
pub mod Engine
pub mod Reports
pub mod Setup
pub mod Codecs
pub mod Preference
