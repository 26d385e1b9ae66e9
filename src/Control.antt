-- ===== src/Control.antt =====
-- Remote control: RemoteControl_rtc/RemoteControl_rtc/RemoteControlChannel.cpp and
-- RemoteControl_rtc/RemoteControl_rtc/InputInjectorWin.cpp.
pub mod Injector
pub mod Packet
pub mod Channel
pub mod Safety
pub mod Clicks
pub mod Button
pub mod Ping
