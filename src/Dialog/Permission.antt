-- ===== src/Dialog/Permission.antt =====
-- What the check box for the control of this side means, across
-- RemoteControl_rtc/RemoteControl_rtc/RemoteControl_rtcDlg.cpp, SessionManager.cpp, PeerSession.cpp and
-- RemoteControlChannel.cpp.
use webrtc_cpp_remote_contro.Base.{◌≡◌, refl, Bool, true, false, Option, Bytes, nat_eq, bytes_key}
use webrtc_cpp_remote_contro.Base.Int.{ℤ}
use webrtc_cpp_remote_contro.Control.Channel.{Channel}
use webrtc_cpp_remote_contro.Peer.Session.{Session}
use webrtc_cpp_remote_contro.Dialog.State.{Dialog}
use webrtc_cpp_remote_contro.Dialog.Control.{on_allow_control_clicked}
use webrtc_cpp_remote_contro.Dialog.Run.{Event, allow_control_clicked}
use webrtc_cpp_remote_contro.Dialog.Forbidding.{Forbids}
use webrtc_cpp_remote_contro.Dialog.Denial.{authorize_all-AllDenied}

-- Every event but the box being checked.
abbrev pub LeavesUnchecked : Event → Type 0
LeavesUnchecked (allow_control_clicked true) = false ≡ true
LeavesUnchecked _ = Unit {0}

module _ (same : Bytes → Bytes → Bool) (strtol : Bytes → Option ℤ) where
  pub uncheck-Forbids : (d : Dialog) → Forbids (on_allow_control_clicked false d)
  unfolding on_allow_control_clicked
  uncheck-Forbids d = record { box = refl; sessions = authorize_all-AllDenied d.sessions }
