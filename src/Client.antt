-- ===== src/Client.antt =====
-- The desktop client, RemoteControl_rtc/RemoteControl_rtc.
pub mod Protocol
pub mod Transport
pub mod Search
pub mod RoundTrip
pub mod Receiving
pub mod Chunks
pub mod Arrival
