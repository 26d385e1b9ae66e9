-- ===== src/Dialog/Inputs.antt =====
-- To whom the user's mouse and keyboard go.
use webrtc_cpp_remote_contro.Base.{
  ℕ, ◌≡◌, ◌⊎◌, arith, All, Bool, true, false, List, [], ◌∷◌, Option, none, some, Bytes,
  if◌then◌else◌, bytes_eq, bytes_eq_iff, codes,
}
use webrtc_cpp_remote_contro.Base.Int.{ℤ}
use webrtc_cpp_remote_contro.Client.Protocol.{string_field}
use webrtc_cpp_remote_contro.Peer.Session.{SessionState}
use webrtc_cpp_remote_contro.Peer.Life.{request_stats}
use webrtc_cpp_remote_contro.Dialog.State.{
  Dialog, Outcome, Call, input_call, turn_to, stop_idle_media, reset_media_stats,
  set_keyboard_control_active,
}
use webrtc_cpp_remote_contro.Dialog.Sessions.{
  Answers, start_selected_session, on_session_state, on_hangup_clicked, leave_session, end_session,
  follow_state, drop_session,
}
use webrtc_cpp_remote_contro.Dialog.Dispatch.{
  on_remote_hangup, dispatch_from, dispatch_signaling_message,
}
use webrtc_cpp_remote_contro.Dialog.Control.{
  Normalizer, send_remote_input, on_connect_clicked, on_record_clicked, on_timer, sample,
  on_allow_control_clicked, on_signaling_state,
}
use webrtc_cpp_remote_contro.Dialog.Run.{
  Event, connect_user_clicked, connect_clicked, message_received, state_reported, session_moved,
  hangup_clicked, keyboard_control_clicked, allow_control_clicked, media_checked, record_clicked,
  signaling_reported, link_changed, timer_fired, input_made, step, run,
}
use webrtc_cpp_remote_contro.Client.Receiving.{ConnectionState}
use webrtc_cpp_remote_contro.Dialog.Keeping.{
  if-Keeps, Keeps-refl, on_session-Keeps, update_session-Keeps, make_session-Keeps, on_offer-Keeps,
  on_answer-Keeps, on_candidate-Keeps, open_session-Keeps, Keeps,
}

-- While the control is active, the active user is this one or nobody.
abbrev pub Directs : Bytes → Bool → Bytes → Type 0
Directs user false active = Unit {0}
Directs user true active = (active ≡ user) ⊎ (active ≡ [])

pub record Controls (user : Bytes) (d : Dialog) : Type 0 where
  pub directs : Directs user d.keyboard_control_active d.active_remote_user_id

turn_to-Controls : (user to : Bytes) (d : Dialog) → Controls user d → Controls user (turn_to to d)
unfolding turn_to
turn_to-Controls user to d h = ground (arith, bytes_eq_iff to d.active_remote_user_id)

Keeps-Controls : (user : Bytes) (d d' : Dialog) → Keeps d d' → Controls user d → Controls user d'
Keeps-Controls user d d' k h = ground arith

leave_session-Controls : (user from : Bytes) (d : Dialog) → Controls user (leave_session from d).0
unfolding leave_session stop_idle_media reset_media_stats
leave_session-Controls user from d = ground arith

end_session-Controls :
    (user of : Bytes) (state : SessionState) (d : Dialog)
    → Controls user d
    → Controls user (end_session of state d).0
unfolding end_session drop_session stop_idle_media
end_session-Controls user of state d h = ground arith

follow_state-Controls :
    (user : Bytes) (state : SessionState) (now : ℕ) (d : Dialog)
    → Controls user d
    → Controls user (follow_state state now d)
unfolding follow_state
follow_state-Controls user state now d h = ground arith

if-Controls :
    (b : Bool) (user : Bytes) (o p : Outcome)
    → Controls user o.0
    → Controls user p.0
    → Controls user (if b then o else p).0
if-Controls true user o p h k = h
if-Controls false user o p h k = k

start-Controls :
    (user : Bytes) (a : Answers) (selected : Option Bytes) (d : Dialog)
    → Controls user d
    → Controls user (start_selected_session a selected d).0
unfolding start_selected_session
start-Controls user a none d h = h
start-Controls user a (some to) d h =
    Keeps-Controls user (turn_to to d) _
      (make_session-Keeps a to _ (turn_to to d) (λ s e. open_session-Keeps a to s e))
      (turn_to-Controls user to d h)

on_session_state-Controls :
    (user of : Bytes) (state : SessionState) (now : ℕ) (d : Dialog)
    → Controls user d
    → Controls user (on_session_state of state now d).0
unfolding on_session_state
on_session_state-Controls user of state now d h =
    let d1 : Dialog = if bytes_eq of d.active_remote_user_id then follow_state state now d else d in
    let h1 : Controls user d1 = ground (arith, follow_state-Controls user state now d h) in
    if-Controls _ user _ _ h (
      if-Controls _ user _ _
        (record { directs = (end_session-Controls user of state d1 h1).directs }) h1)

on_hangup_clicked-Controls : (user : Bytes) (d : Dialog) → Controls user (on_hangup_clicked d).0
unfolding on_hangup_clicked set_keyboard_control_active
on_hangup_clicked-Controls user d = ground (
  arith,
  leave_session-Controls user d.active_remote_user_id (set_keyboard_control_active false d),
)

on_connect_clicked-Controls :
    (user : Bytes) (a : Answers) (selected : Option Bytes) (server : Bytes) (port : ℕ) (id : Bytes)
    (starts : Bool) (d : Dialog)
    → Controls user d
    → Controls user (on_connect_clicked a selected server port id starts d).0
unfolding on_connect_clicked
on_connect_clicked-Controls user a selected server port id starts d h =
    if-Controls _ user _ _ (start-Controls user a selected d h)
      (if-Controls _ user _ _ h (record { directs = h.directs }))

dispatch_from-Controls :
    (strtol : Bytes → Option ℤ) (user : Bytes) (a : Answers) (json type from : Bytes) (d : Dialog)
    → Controls user d
    → Controls user (dispatch_from strtol a json type from d).0
unfolding dispatch_from on_remote_hangup
dispatch_from-Controls strtol user a json type from d h =
    if-Controls _ user _ _ (Keeps-Controls user d _ (on_offer-Keeps a from _ d) h) (
      if-Controls _ user _ _ (Keeps-Controls user d _ (on_answer-Keeps from _ d) h) (
        if-Controls _ user _ _ (Keeps-Controls user d _ (on_candidate-Keeps from _ d) h) (
          if-Controls _ user _ _ (record { directs = (leave_session-Controls user from d).directs })
            h)))

-- Every event but a click on the button of the keyboard control.
abbrev pub LeavesControl : Event → Type 0
LeavesControl keyboard_control_clicked = false ≡ true
LeavesControl _ = Unit {0}

-- The input goes to this user.
abbrev pub Reaches : Bytes → Call → Type 0
Reaches user (input_call to effects) = to ≡ user
Reaches user _ = Unit {0}

module _ (same : Bytes → Bytes → Bool) (strtol : Bytes → Option ℤ) where
  dispatch-Controls :
      (user : Bytes) (a : Answers) (json : Bytes) (d : Dialog)
      → Controls user d
      → Controls user (dispatch_signaling_message same strtol a json d).0
  unfolding dispatch_signaling_message
  dispatch-Controls user a json d h =
      let from : Bytes = string_field json (codes "fromUserId") in
      ground (
        arith,
        dispatch_from-Controls strtol user a json (string_field json (codes "type")) from
            (turn_to from d) (turn_to-Controls user from d h),
      )

  on_timer-Keeps : (now : ℕ) (d : Dialog) → Keeps d (on_timer now d).0
  unfolding on_timer sample
  on_timer-Keeps now d = if-Keeps _ d _ _ (Keeps-refl d) (
      on_session-Keeps _ (sample now) d (λ s.
        if-Keeps _ d _ _
          (update_session-Keeps d.active_remote_user_id (λ _. (request_stats s true).0) d)
          (Keeps-refl d)))

  on_record_clicked-Keeps :
      (confirmed starts : Bool) (d : Dialog) → Keeps d (on_record_clicked confirmed starts d).0
  unfolding on_record_clicked
  on_record_clicked-Keeps confirmed starts d = ground arith

  on_signaling_state-Keeps :
      (state : ConnectionState) (d : Dialog) → Keeps d (on_signaling_state state d)
  unfolding on_signaling_state
  on_signaling_state-Keeps state d = ground arith

  step-Controls :
      (user : Bytes) (e : Event) (d : Dialog)
      → LeavesControl e
      → Controls user d
      → Controls user (step same strtol e d).0
  unfolding step on_allow_control_clicked
  step-Controls user (connect_user_clicked a selected) d l h = start-Controls user a selected d h
  step-Controls user (connect_clicked a selected server port id starts) d l h =
      on_connect_clicked-Controls user a selected server port id starts d h
  step-Controls user (message_received a json) d l h = dispatch-Controls user a json d h
  step-Controls user (state_reported of state now) d l h =
      on_session_state-Controls user of state now d h
  step-Controls user (session_moved of signals) d l h =
      Keeps-Controls user d _ (update_session-Keeps of _ d) h
  step-Controls user hangup_clicked d l h = on_hangup_clicked-Controls user d
  step-Controls user keyboard_control_clicked d l h = cc
  step-Controls user (allow_control_clicked authorized) d l h = record { directs = h.directs }
  step-Controls user (media_checked options) d l h = record { directs = h.directs }
  step-Controls user (record_clicked confirmed starts) d l h =
      Keeps-Controls user d _ (on_record_clicked-Keeps confirmed starts d) h
  step-Controls user (signaling_reported state) d l h =
      Keeps-Controls user d _ (on_signaling_state-Keeps state d) h
  step-Controls user (link_changed connected) d l h = record { directs = h.directs }
  step-Controls user (timer_fired now) d l h = Keeps-Controls user d _ (on_timer-Keeps now d) h
  step-Controls user (input_made point message wparam lparam) d l h = h

  run-Controls :
      (user : Bytes) (es : List Event) (d : Dialog)
      → All LeavesControl es
      → Controls user d
      → Controls user (run same strtol es d).0
  unfolding run
  run-Controls user [] d l h = h
  run-Controls user (e ∷ es) d l h =
      run-Controls user es (step same strtol e d).0 l.1 (step-Controls user e d l.0 h)

  active-Controls : (d : Dialog) → Controls d.active_remote_user_id d
  active-Controls d = ground arith

  send_remote_input-Reaches :
      (user : Bytes) (point : Normalizer) (message wparam lparam : ℕ) (d : Dialog)
      → Controls user d
      → All (Reaches user) (send_remote_input point message wparam lparam d)
  unfolding send_remote_input
  send_remote_input-Reaches user point message wparam lparam d h = ground arith

  -- Whatever the user, the server, the other clients and libwebrtc do in the meantime, as long as the
  -- button of the keyboard control is not clicked, mouse and keyboard go to no other user than the
  -- one who was active before.
  pub inputs_directed :
      (es : List Event) (d : Dialog) (point : Normalizer) (message wparam lparam : ℕ)
      → All LeavesControl es
      → All
          (Reaches d.active_remote_user_id)
          (send_remote_input point message wparam lparam (run same strtol es d).0)
  inputs_directed es d point message wparam lparam l =
      send_remote_input-Reaches d.active_remote_user_id point message wparam lparam
        (run same strtol es d).0 (run-Controls d.active_remote_user_id es d l (active-Controls d))
