-- ===== src/Dialog/Sessions.antt =====
-- Starting, ending and following a session: StartSelectedSession, ConfigureLocalMedia,
-- BindSessionCallbacks, OnSessionState and OnBnClickedHangup of
-- RemoteControl_rtc/RemoteControl_rtc/RemoteControl_rtcDlg.cpp.
use webrtc_cpp_remote_contro.Base.{
  ℕ, ◌+◌, Bool, true, false, not, ◌&&◌, ◌||◌, List, [], ◌∷◌, ◌++◌, Option, none, some, Bytes,
  if◌then◌else◌, is_empty, bytes_eq, nat_eq, bytes_key,
}
use webrtc_cpp_remote_contro.Control.Channel.{ChannelState}
use webrtc_cpp_remote_contro.Client.Protocol.{hangup}
use webrtc_cpp_remote_contro.Peer.Session.{
  Session, SessionState, new, connected, disconnected, failed, closed, state_eq, create_offer,
}
use webrtc_cpp_remote_contro.Peer.Life.{create_control_channel, set_remote_control_authorized}
use webrtc_cpp_remote_contro.Peer.Setup.{
  Sender, set_remote_video_target, set_state_changed_callback, set_ice_candidate_callback,
  set_media_event_callback, set_control_event_callback, add_local_video_track,
  add_local_audio_track,
}
use webrtc_cpp_remote_contro.Peer.Manager.{find_session, create_session, remove_session}
use webrtc_cpp_remote_contro.Dialog.State.{
  Dialog, Call, send_line, clear_view, Outcome, session_calls, set_keyboard_control_active,
  reset_media_stats, turn_to, stop_idle_media, active_session, update_session,
}

-- What libwebrtc and Windows answer while a session is set up: to the creation of the connection and
-- of the data channel, to the start of the captures and to the tracks that are added.
pub record Answers : Type 0 where
  pub factory : Option Bool
  pub control_state : Option ChannelState
  pub desktop_starts : Bool
  pub video_sender : Sender
  pub audio_starts : Bool
  pub audio_sender : Bool

-- The two halves of `ConfigureLocalMedia`.
unfoldable pub configure_video : Answers → Session → Dialog → Dialog × Bool
unfolding add_local_video_track
configure_video a s d =
    if not d.media_checks.send_video
    then (d, true)
    else if not d.desktop_track && not a.desktop_starts
    then (d, false)
    else (record d { desktop_track = true }, (add_local_video_track s true a.video_sender).0)

unfoldable pub configure_audio : Answers → Session → Dialog → Dialog × Bool
unfolding add_local_audio_track
configure_audio a s d =
    if not d.media_checks.send_audio
    then (d, true)
    else if not d.audio_track && not a.audio_starts
    then (d, false)
    else (record d { audio_track = true }, add_local_audio_track s true a.audio_sender)

unfoldable pub configure_local_media : Answers → Session → Dialog → Dialog × Bool
configure_local_media a s d =
    let video = configure_video a s d in if not video.1 then video else configure_audio a s video.0

unfoldable pub bind_session_callbacks : Session → Session
unfolding set_state_changed_callback set_ice_candidate_callback set_media_event_callback
    set_control_event_callback
bind_session_callbacks s =
    set_control_event_callback
      (set_media_event_callback
        (set_ice_candidate_callback (set_state_changed_callback s true) true) true)
      true

-- The calls between `ConfigureLocalMedia` and the negotiation.
unfoldable pub prepare_session : Bool → Session → Session
unfolding bind_session_callbacks set_remote_control_authorized set_remote_video_target
prepare_session authorized s =
    bind_session_callbacks (set_remote_control_authorized (set_remote_video_target s) authorized)

unfoldable pub drop_session : Bytes → Dialog → Outcome
drop_session user d =
    let removed = remove_session d.sessions user in
    (record d { sessions = removed.0 }, session_calls user removed.1)

-- The rest of `StartSelectedSession`, on the session that was created.
unfoldable pub open_session : Answers → Bytes → Session → Dialog → Outcome
open_session a user s d =
    let channel = create_control_channel s a.control_state in
    let d1 = update_session user (λ _. channel.0.0) d in
    let configured = configure_local_media a channel.0.0 d1 in
    let offered = create_offer (prepare_session d.allow_control channel.0.0) true in
    let dropped = if not channel.1 then drop_session user d1 else drop_session user configured.0 in
    if not channel.1 || not configured.1
    then (dropped.0, session_calls user channel.0.1 ++ dropped.1)
    else (
      update_session user (λ _. offered.0) configured.0,
      session_calls user channel.0.1 ++ session_calls user offered.1,
    )

-- Code on the session of a user, if there is one.
unfoldable pub on_session : Option Session → (Session → Dialog → Outcome) → Dialog → Outcome
on_session none f d = (d, [])
on_session (some s) f d = f s d

abbrev pub with_session : Bytes → (Session → Dialog → Outcome) → Dialog → Outcome
with_session user f d = on_session (find_session d.sessions user) f d

abbrev pub behind : List Call → Outcome → Outcome
behind calls o = (o.0, calls ++ o.1)

-- `CreateSession`, and the code on the session that was created.
unfoldable pub make_session : Answers → Bytes → (Session → Dialog → Outcome) → Dialog → Outcome
make_session a user f d =
    let made = create_session d.sessions user true a.factory in
    let d1 : Dialog = record d { sessions = made.0.0 } in
    let calls = session_calls user made.0.1 in
    if not made.1 then (d1, calls) else behind calls (with_session user f d1)

-- `none` is a list box without a selection.
unfoldable pub start_selected_session : Answers → Option Bytes → Dialog → Outcome
start_selected_session a none d = (d, [])
start_selected_session a (some user) d = make_session a user (open_session a user) (turn_to user d)

abbrev pub is_terminal : SessionState → Bool
is_terminal s = state_eq s failed || state_eq s closed

-- The part of `OnSessionState` for the active user.
unfoldable pub follow_state : SessionState → ℕ → Dialog → Dialog
unfolding set_keyboard_control_active reset_media_stats
follow_state state now d =
    if state_eq state connected
    then record d { stats_start_after_ms = now + 2000 }
    else if state_eq state disconnected || is_terminal state
    then reset_media_stats (set_keyboard_control_active false d)
    else d

abbrev pub has_state : Option Session → SessionState → Bool
has_state none state = false
has_state (some s) state = state_eq s.state state

-- A session that is still in the terminal state of the message is removed.
unfoldable pub end_session : Bytes → SessionState → Dialog → Outcome
end_session user state d =
    let dropped = drop_session user d in
    let cleared : Dialog =
      if bytes_eq user d.active_remote_user_id
      then record dropped.0 { active_remote_user_id = [] }
      else dropped.0 in
    if has_state (find_session d.sessions user) state
    then (stop_idle_media cleared, dropped.1)
    else (d, [])

unfoldable pub on_session_state : Bytes → SessionState → ℕ → Dialog → Outcome
on_session_state user state now d =
    let d1 = if bytes_eq user d.active_remote_user_id then follow_state state now d else d in
    let ended = end_session user state d1 in
    if state_eq state new
    then (d, [])
    else if is_terminal state
    then (
      record ended.0 { connect_enabled = ended.0.connect_enabled || d.signaling_connected },
      ended.1,
    )
    else (d1, [])

-- The part of `OnBnClickedHangup` and of a received hangup that they share: the recorder stops, the view is cleared.
unfoldable pub leave_session : Bytes → Dialog → Outcome
leave_session user d =
    let dropped = drop_session user d in
    (
      stop_idle_media
          (reset_media_stats (record dropped.0 { recording = false; active_remote_user_id = [] })),
      dropped.1 ++ clear_view ∷ [],
    )

abbrev pub hang_up : Session → Dialog → Outcome
hang_up s d =
    let left = leave_session d.active_remote_user_id d in
    (
      record left.0 { connect_enabled = left.0.connect_enabled || d.signaling_connected },
      send_line (hangup d.active_remote_user_id) ∷ left.1,
    )

abbrev pub forget_user : Dialog → Outcome
forget_user d = (record d { active_remote_user_id = [] }, [])

unfoldable pub on_hangup_clicked : Dialog → Outcome
on_hangup_clicked d =
    let d1 = set_keyboard_control_active false d in
    if is_empty d.active_remote_user_id
    then (d1, [])
    else elim (active_session d) [ none ↦ forget_user d1 | some s ↦ hang_up s d1 ]
