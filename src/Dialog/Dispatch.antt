-- ===== src/Dialog/Dispatch.antt =====
-- DispatchSignalingMessage of RemoteControl_rtc/RemoteControl_rtc/RemoteControl_rtcDlg.cpp, and the
-- lines that the callbacks of a session send. The comparison of `CListBox::FindStringExact`, `strtol`
-- and `std::to_string` are parameters.
use webrtc_cpp_remote_contro.Base.{
  Bool, true, false, not, ◌||◌, List, [], ◌∷◌, ◌++◌, Option, none, some, Bytes, codes,
  if◌then◌else◌, is_empty, bytes_eq,
}
use webrtc_cpp_remote_contro.Base.Int.{ℤ, pos}
use webrtc_cpp_remote_contro.Client.Protocol.{
  string_field, bool_field, int_field, user_ids, offer, answer, candidate,
}
use webrtc_cpp_remote_contro.Peer.Session.{
  Session, Candidate, Effect, sdp_ready, candidate_ready, apply_remote_offer, apply_remote_answer,
  add_remote_candidate,
}
use webrtc_cpp_remote_contro.Peer.Manager.{find_session}
use webrtc_cpp_remote_contro.Dialog.State.{
  Dialog, Call, send_line, Outcome, session_calls, turn_to, update_session,
}
use webrtc_cpp_remote_contro.Dialog.Sessions.{
  Answers, configure_local_media, prepare_session, drop_session, leave_session, make_session,
  with_session,
}

-- Adding a string that is not found, and deleting the first one that is.
module _ (same : Bytes → Bytes → Bool) where
  unfoldable pub is_listed : Bytes → List Bytes → Bool
  is_listed user [] = false
  is_listed user (u ∷ users) = same u user || is_listed user users

  unfoldable pub delete_listed : Bytes → List Bytes → List Bytes
  delete_listed user [] = []
  delete_listed user (u ∷ users) =
      let rest = delete_listed user users in if same u user then users else u ∷ rest

  unfoldable pub presence_changed : Bytes → Bool → List Bytes → List Bytes
  unfolding is_listed delete_listed
  presence_changed user online users =
      if is_empty user
      then users
      else if online
      then (if is_listed user users then users else users ++ user ∷ [])
      else delete_listed user users

-- The offer of another user, on the session that is there or was created.
unfoldable pub answer_offer : Answers → Bytes → Bytes → Session → Dialog → Outcome
answer_offer a user sdp s d =
    let configured = configure_local_media a s d in
    let applied = apply_remote_offer (prepare_session d.allow_control s) sdp true in
    if not configured.1
    then drop_session user configured.0
    else (update_session user (λ _. applied.0) configured.0, session_calls user applied.1)

unfoldable pub on_offer : Answers → Bytes → Bytes → Dialog → Outcome
on_offer a user sdp d = elim (find_session d.sessions user) [
  | some s ↦ answer_offer a user sdp s d
  | none ↦ make_session a user (answer_offer a user sdp) d
]

abbrev pub applied_to : Bytes → (Session → Session × List Effect) → Session → Dialog → Outcome
applied_to user f s d = (update_session user (λ _. (f s).0) d, session_calls user (f s).1)

unfoldable pub on_answer : Bytes → Bytes → Dialog → Outcome
on_answer user sdp d = with_session user (applied_to user (λ s. apply_remote_answer s sdp)) d

unfoldable pub on_candidate : Bytes → Candidate → Dialog → Outcome
on_candidate user c d = with_session user (applied_to user (λ s. add_remote_candidate s c)) d

unfoldable pub on_remote_hangup : Bytes → Dialog → Outcome
on_remote_hangup user d =
    let left = leave_session user d in (record left.0 { connect_enabled = true }, left.1)

module _ (strtol : Bytes → Option ℤ) where
  abbrev pub candidate_of : Bytes → Candidate
  candidate_of json = record {
    mid = string_field json (codes "mid");
    mline_index = int_field strtol json (codes "mlineIndex") (pos 0);
    candidate = string_field json (codes "candidate");
  }

  -- The messages that carry a sender, by their type.
  unfoldable pub dispatch_from : Answers → Bytes → Bytes → Bytes → Dialog → Outcome
  dispatch_from a json type user d =
      if bytes_eq type (codes "offer")
      then on_offer a user (string_field json (codes "sdp")) d
      else if bytes_eq type (codes "answer")
      then on_answer user (string_field json (codes "sdp")) d
      else if bytes_eq type (codes "ice-candidate")
      then on_candidate user (candidate_of json) d
      else if bytes_eq type (codes "hangup")
      then on_remote_hangup user d
      else (d, [])

module _ (same : Bytes → Bytes → Bool) (strtol : Bytes → Option ℤ) where
  unfoldable pub dispatch_signaling_message : Answers → Bytes → Dialog → Outcome
  dispatch_signaling_message a json d =
      let type = string_field json (codes "type") in
      let user = string_field json (codes "fromUserId") in
      if bytes_eq type (codes "presence.snapshot")
      then (record d { online_users = user_ids json }, [])
      else if bytes_eq type (codes "presence.changed")
      then (
        record d {
          online_users =
              presence_changed same (string_field json (codes "userId"))
                (bool_field json (codes "online") false) d.online_users;
        },
        [],
      )
      else if is_empty user
      then (d, [])
      else dispatch_from strtol a json type user (turn_to user d)

-- The lines that the callbacks of a session send; `offers` says which of the two handlers set the
-- callback for the description.
module _ (to_string : ℤ → Bytes) where
  unfoldable pub callback_lines : Bytes → Bool → List Effect → List Call
  callback_lines user offers [] = []
  callback_lines user offers (sdp_ready sdp type ∷ effects) =
      send_line (if offers then offer user sdp else answer user sdp)
      ∷ callback_lines user offers effects
  callback_lines user offers (candidate_ready c ∷ effects) =
      send_line (candidate to_string user c.mid c.mline_index c.candidate)
      ∷ callback_lines user offers effects
  callback_lines user offers (_ ∷ effects) = callback_lines user offers effects
