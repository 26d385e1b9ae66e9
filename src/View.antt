-- ===== src/View.antt =====
-- The window that shows the remote screen, RemoteControl_rtc/RemoteControl_rtc/VideoRenderWnd.cpp.
pub mod Geometry
pub mod Fit
pub mod Pointing
pub mod Window
pub mod Input
pub mod Modes
pub mod Fullscreen
