-- ===== src/Exchange.antt =====
-- How the texts of the client (RemoteControl_rtc/RemoteControl_rtc/SignalingProtocol.cpp) and of the
-- server (RemoteControl_rtc/SignalingServer/main.cpp) fit.
pub mod Reading
pub mod Offers
pub mod Spoofing
pub mod Login
