-- ===== src/Dialog.antt =====
-- The user's window, RemoteControl_rtc/RemoteControl_rtc/RemoteControl_rtcDlg.cpp: what its handlers
-- do to the sessions, the controls and the other parts of the client.
pub mod State
pub mod Sessions
pub mod Control
pub mod Dispatch
pub mod Run
pub mod Keeping
pub mod Inputs
pub mod Denial
pub mod Forbidding
pub mod Permission
pub mod Roster
pub mod Presence
