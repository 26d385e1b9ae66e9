-- ===== src/Dialog/Run.antt =====
-- Runs of the user's window over what the user, the server, libwebrtc and Windows bring.
use webrtc_cpp_remote_contro.Base.{ℕ, Bool, List, [], ◌∷◌, ◌++◌, Option, Bytes}
use webrtc_cpp_remote_contro.Base.Int.{ℤ}
use webrtc_cpp_remote_contro.Client.Receiving.{ConnectionState}
use webrtc_cpp_remote_contro.Peer.Session.{SessionState}
use webrtc_cpp_remote_contro.Peer.Negotiation.{Signal, negotiate}
use webrtc_cpp_remote_contro.Dialog.State.{MediaOptions, Dialog, Outcome, update_session}
use webrtc_cpp_remote_contro.Dialog.Sessions.{
  Answers, start_selected_session, on_session_state, on_hangup_clicked,
}
use webrtc_cpp_remote_contro.Dialog.Control.{
  Normalizer, send_remote_input, on_keyboard_control_clicked, on_allow_control_clicked,
  on_record_clicked, on_connect_clicked, on_signaling_state, on_timer,
}
use webrtc_cpp_remote_contro.Dialog.Dispatch.{dispatch_signaling_message}

-- `session_moved` is what libwebrtc calls back on a session, and `link_changed` what `IsConnected` of
-- the signaling client answers from then on.
pub data Event : Type 0 where
  connect_user_clicked : Answers → Option Bytes → Event
  connect_clicked : Answers → Option Bytes → Bytes → ℕ → Bytes → Bool → Event
  message_received : Answers → Bytes → Event
  state_reported : Bytes → SessionState → ℕ → Event
  session_moved : Bytes → List Signal → Event
  hangup_clicked : Event
  keyboard_control_clicked : Event
  allow_control_clicked : Bool → Event
  media_checked : MediaOptions → Event
  record_clicked : Bool → Bool → Event
  signaling_reported : ConnectionState → Event
  link_changed : Bool → Event
  timer_fired : ℕ → Event
  input_made : Normalizer → ℕ → ℕ → ℕ → Event

module _ (same : Bytes → Bytes → Bool) (strtol : Bytes → Option ℤ) where
  unfoldable pub step : Event → Dialog → Outcome
  step (connect_user_clicked a selected) d = start_selected_session a selected d
  step (connect_clicked a selected server port user_id starts) d =
      on_connect_clicked a selected server port user_id starts d
  step (message_received a json) d = dispatch_signaling_message same strtol a json d
  step (state_reported user state now) d = on_session_state user state now d
  step (session_moved user signals) d = (update_session user (λ s. (negotiate s signals).0) d, [])
  step hangup_clicked d = on_hangup_clicked d
  step keyboard_control_clicked d = (on_keyboard_control_clicked d, [])
  step (allow_control_clicked authorized) d = (on_allow_control_clicked authorized d, [])
  step (media_checked options) d = (record d { media_checks = options }, [])
  step (record_clicked confirmed starts) d = on_record_clicked confirmed starts d
  step (signaling_reported state) d = (on_signaling_state state d, [])
  step (link_changed connected) d = (record d { signaling_connected = connected }, [])
  step (timer_fired now) d = on_timer now d
  step (input_made point message wparam lparam) d =
      (d, send_remote_input point message wparam lparam d)

  unfoldable pub run : List Event → Dialog → Outcome
  unfolding step
  run [] d = (d, [])
  run (e ∷ es) d = let first = step e d in let rest = run es first.0 in (rest.0, first.1 ++ rest.1)
