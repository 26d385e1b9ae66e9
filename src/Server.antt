-- ===== src/Server.antt =====
-- The signaling server, RemoteControl_rtc/SignalingServer/main.cpp.
pub mod Text
pub mod State
pub mod Route
pub mod Buffers
pub mod News
pub mod Registry
pub mod Safety
pub mod Departure
pub mod Connection
pub mod Loop
pub mod Streams
pub mod Invariant
pub mod Reachable
pub mod Capacity
pub mod Shutdown
pub mod Routing
pub mod Login
