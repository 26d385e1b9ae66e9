-- ===== src/Dialog/Control.antt =====
-- The control of the other side's mouse and keyboard, and the other buttons of
-- RemoteControl_rtc/RemoteControl_rtc/RemoteControl_rtcDlg.cpp.
use webrtc_cpp_remote_contro.Base.{
  ℕ, ◌/◌, ◌%◌, ◌^◌, Bool, true, false, not, ◌&&◌, ◌||◌, List, [], ◌∷◌, Option, none, some, Bytes,
  ltb, ◌==◌, if◌then◌else◌, is_empty, ◌++◌,
}
use webrtc_cpp_remote_contro.Base.Int.{ℤ, pos, sub_ℕ}
use webrtc_cpp_remote_contro.Control.Channel.{
  Channel, is_open, send_ping, send_key, send_mouse_wheel, send_mouse_move, send_mouse_button,
}
use webrtc_cpp_remote_contro.Control.Channel
use webrtc_cpp_remote_contro.Client.Receiving.{
  ConnectionState, connected, connecting, disconnected, failed,
}
use webrtc_cpp_remote_contro.View.Input.{
  wm_mousemove, wm_mousewheel, wm_keydown, wm_keyup, wm_button, left, right, middle, vk_escape,
  vk_f11,
}
use webrtc_cpp_remote_contro.Peer.Session.{Session, state_eq}
use webrtc_cpp_remote_contro.Peer.Session
use webrtc_cpp_remote_contro.Peer.Life.{request_stats}
use webrtc_cpp_remote_contro.Peer.Manager.{authorize_all}
use webrtc_cpp_remote_contro.Dialog.State.{
  Dialog, Call, input_call, ping_call, connect_to, start_recording, toggle_view, Outcome,
  session_calls, set_keyboard_control_active, active_session, update_session,
}
use webrtc_cpp_remote_contro.Dialog.Sessions.{Answers, with_session, start_selected_session}

-- `LOWORD` and `HIWORD`, and the cast to `short`.
abbrev pub low_word : ℕ → ℕ
low_word n = n % 2 ^ 16

abbrev pub high_word : ℕ → ℕ
high_word n = n / 2 ^ 16 % 2 ^ 16

unfoldable pub to_short : ℕ → ℤ
to_short m = if ltb m (2 ^ 15) then pos m else sub_ℕ m (2 ^ 16)

abbrev pub button_of : ℕ → ℕ
button_of message =
    if message == wm_button right true || message == wm_button right false
    then 1
    else if message == wm_button middle true || message == wm_button middle false
    then 2
    else 0

abbrev pub is_down : ℕ → Bool
is_down message =
    message == wm_button left true
    || message == wm_button right true
    || message == wm_button middle true

-- A point of the window that the message came to, normalized; `none` is no window or no video there.
abbrev pub Normalizer : Type 0
Normalizer = ℤ → ℤ → Option (ℕ × ℕ)

unfoldable pub send_pointer : Channel → ℕ → Option (ℕ × ℕ) → List Channel.Effect
unfolding send_mouse_move send_mouse_button
send_pointer c message none = []
send_pointer c message (some (x, y)) =
    if message == wm_mousemove
    then send_mouse_move c x y
    else send_mouse_button c (button_of message) (is_down message) x y

-- `SendRemoteInput` from the channel on.
unfoldable pub send_to_channel : Normalizer → Channel → ℕ → ℕ → ℕ → List Channel.Effect
unfolding send_key send_mouse_wheel send_pointer to_short
send_to_channel point c message wparam lparam =
    if message == wm_keydown || message == wm_keyup
    then send_key c (low_word wparam) (message == wm_keydown)
    else if message == wm_mousewheel
    then send_mouse_wheel c (high_word wparam)
    else send_pointer c message (point (to_short (low_word lparam)) (to_short (high_word lparam)))

abbrev pub control_channel_of : Option Session → Option Channel
control_channel_of none = none
control_channel_of (some s) = s.control_channel

unfoldable pub send_remote_input : Normalizer → ℕ → ℕ → ℕ → Dialog → List Call
send_remote_input point message wparam lparam d =
    let sent : List Call = elim (control_channel_of (active_session d)) [
      | none ↦ []
      | some c ↦
          input_call d.active_remote_user_id (send_to_channel point c message wparam lparam) ∷ []
    ] in
    if not d.keyboard_control_active || is_empty d.active_remote_user_id then [] else sent

abbrev pub has_open_channel : Option Channel → Bool
has_open_channel none = false
has_open_channel (some c) = is_open c.channel

unfoldable pub on_keyboard_control_clicked : Dialog → Dialog
on_keyboard_control_clicked d =
    if d.keyboard_control_active
    then set_keyboard_control_active false d
    else if is_empty d.active_remote_user_id
    then d
    else if has_open_channel (control_channel_of (active_session d))
    then set_keyboard_control_active true d
    else d

-- With the new state of the check box.
unfoldable pub on_allow_control_clicked : Bool → Dialog → Dialog
on_allow_control_clicked authorized d = record d {
  allow_control = authorized;
  sessions = authorize_all d.sessions authorized;
}

abbrev pub is_there : Option Session → Bool
is_there none = false
is_there (some s) = true

-- `confirmed` is the user's answer to the file dialog, and `starts` that of the recorder.
unfoldable pub on_record_clicked : Bool → Bool → Dialog → Outcome
on_record_clicked confirmed starts d =
    if d.recording
    then (record d { recording = false }, [])
    else if is_empty d.active_remote_user_id || not (is_there (active_session d)) || not confirmed
    then (d, [])
    else (record d { recording = starts }, start_recording ∷ [])

-- The port is what `wcstoul` reads, and `starts` what `Connect` returns.
unfoldable pub on_connect_clicked :
    Answers → Option Bytes → Bytes → ℕ → Bytes → Bool → Dialog → Outcome
on_connect_clicked a selected server port user_id starts d =
    if d.signaling_connected
    then start_selected_session a selected d
    else if is_empty server || is_empty user_id || port == 0 || ltb 65535 port
    then (d, [])
    else (record d { connect_enabled = not starts }, connect_to server port user_id ∷ [])

-- The connect button follows the state that the signaling client reports.
unfoldable pub on_signaling_state : ConnectionState → Dialog → Dialog
on_signaling_state connected d = record d { connect_enabled = true }
on_signaling_state connecting d = record d { connect_enabled = false }
on_signaling_state disconnected d = record d { connect_enabled = true }
on_signaling_state failed d = record d { connect_enabled = true }

-- Whether the message is handled here, and the call that it makes.
unfoldable pub pre_translate_message : ℕ → ℕ → Bool → Bool × List Call
pre_translate_message message key fullscreen =
    if (message == wm_keydown || message == wm_keyup)
      && (key == vk_escape && fullscreen || key == vk_f11)
    then (true, if message == wm_keydown then toggle_view ∷ [] else [])
    else (false, [])

abbrev ping_calls : Bytes → Option Channel → ℕ → List Call
ping_calls user none now = []
ping_calls user (some c) now =
    if is_open c.channel then ping_call user (send_ping c now) ∷ [] else []

abbrev measure : ℕ → Session → Dialog → Outcome
measure now s d =
    let asked = request_stats s true in
    (
      update_session d.active_remote_user_id (λ _. asked.0) d,
      ping_calls d.active_remote_user_id s.control_channel (now % 2 ^ 32)
          ++ session_calls d.active_remote_user_id asked.1,
    )

unfoldable pub sample : ℕ → Session → Dialog → Outcome
sample now s d = if state_eq s.state Session.connected then measure now s d else (d, [])

-- `OnTimer`, with `GetTickCount64`; the ping carries the low 32 bits, which `GetTickCount` returns.
unfoldable pub on_timer : ℕ → Dialog → Outcome
on_timer now d =
    if is_empty d.active_remote_user_id
      || d.stats_start_after_ms == 0
      || ltb now d.stats_start_after_ms
    then (d, [])
    else with_session d.active_remote_user_id (sample now) d
