-- ===== src/Dialog/State.antt =====
-- The members of CRemoteControlrtcDlg that its handlers use, and the small operations on them;
-- RemoteControl_rtc/RemoteControl_rtc/RemoteControl_rtcDlg.cpp.
use webrtc_cpp_remote_contro.Base.{
  ℕ, Bool, false, List, map, Option, Bytes, if◌then◌else◌, is_empty, bytes_eq, adjust, nat_eq,
  bytes_key,
}
use webrtc_cpp_remote_contro.Control.Channel.{Channel}
use webrtc_cpp_remote_contro.Control.Channel
use webrtc_cpp_remote_contro.Peer.Session.{Session, Effect}
use webrtc_cpp_remote_contro.Peer.Manager.{Sessions, find_session}

-- The check boxes for the media.
pub record MediaOptions : Type 0 where
  pub send_video : Bool
  pub receive_video : Bool
  pub send_audio : Bool
  pub receive_audio : Bool

-- `session_manager_` and `signaling_client_` are there until the window is destroyed. Of the managers
-- only whether they have a track is kept, and of the recorder whether it records. The list box holds
-- `online_users`; texts of buttons, labels and the log are left out.
pub record Dialog : Type 0 where
  pub active_remote_user_id : Bytes
  pub keyboard_control_active : Bool
  pub has_previous_media_stats : Bool
  pub stats_start_after_ms : ℕ
  pub sessions : Sessions
  pub online_users : List Bytes
  pub allow_control : Bool
  pub media_checks : MediaOptions
  pub desktop_track : Bool
  pub audio_track : Bool
  pub recording : Bool
  pub signaling_connected : Bool
  pub connect_enabled : Bool

-- What a handler does to the outside: a line for the server, what a session does, packets of the input
-- and of pings for a user, an empty frame for the view, a connection to the server, the start of the recorder and
-- the full screen.
pub data Call : Type 0 where
  send_line : Bytes → Call
  session_call : Bytes → Effect → Call
  input_call : Bytes → List Channel.Effect → Call
  ping_call : Bytes → List Channel.Effect → Call
  clear_view : Call
  connect_to : Bytes → ℕ → Bytes → Call
  start_recording : Call
  toggle_view : Call

abbrev pub Outcome : Type 0
Outcome = Dialog × List Call

abbrev pub session_calls : Bytes → List Effect → List Call
session_calls user effects = map (λ e. session_call user e) effects

-- The parts of the text widgets are left out.
unfoldable pub set_keyboard_control_active : Bool → Dialog → Dialog
set_keyboard_control_active active d = record d { keyboard_control_active = active }

-- The previous samples are `Dialog.Stats`.
unfoldable pub reset_media_stats : Dialog → Dialog
reset_media_stats d = record d { has_previous_media_stats = false; stats_start_after_ms = 0 }

-- `if (remote_user_id != active_remote_user_id_) { … } active_remote_user_id_ = remote_user_id;`
unfoldable pub turn_to : Bytes → Dialog → Dialog
unfolding set_keyboard_control_active reset_media_stats
turn_to user d =
    if bytes_eq user d.active_remote_user_id
    then d
    else record (reset_media_stats (set_keyboard_control_active false d)) {
      active_remote_user_id = user;
    }

-- `if (session_manager_->SessionCount() == 0)`: the captures stop.
unfoldable pub stop_idle_media : Dialog → Dialog
stop_idle_media d =
    if is_empty d.sessions then record d { desktop_track = false; audio_track = false } else d

unfoldable pub active_session : Dialog → Option Session
active_session d = find_session d.sessions d.active_remote_user_id

-- A session that the handler has a pointer to.
unfoldable pub update_session : Bytes → (Session → Session) → Dialog → Dialog
update_session user f d = record d { sessions = adjust user f d.sessions }
