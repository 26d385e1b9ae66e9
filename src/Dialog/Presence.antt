-- ===== src/Dialog/Presence.antt =====
-- The list box of online users against the set of users that the server's messages speak of, for
-- DispatchSignalingMessage of RemoteControl_rtc/RemoteControl_rtc/RemoteControl_rtcDlg.cpp.
use mathlib.Core.Path.{subst}
use webrtc_cpp_remote_contro.Base.{
  ◌≡◌, inl, inr, refl, arith, All, Bool, true, false, not, ◌&&◌, List, [], ◌∷◌, Option, Bytes,
  codes, if◌then◌else◌, is_empty, bytes_eq, Bool-cases,
}
use webrtc_cpp_remote_contro.Base.Int.{ℤ}
use webrtc_cpp_remote_contro.Client.Protocol.{string_field, bool_field, user_ids}
use webrtc_cpp_remote_contro.Dialog.State.{
  Dialog, Outcome, turn_to, reset_media_stats, set_keyboard_control_active, stop_idle_media,
}
use webrtc_cpp_remote_contro.Dialog.Keeping.{on_offer-Keeps, on_answer-Keeps, on_candidate-Keeps}
use webrtc_cpp_remote_contro.Dialog.Sessions.{Answers, drop_session, leave_session}
use webrtc_cpp_remote_contro.Dialog.Dispatch.{
  is_listed, dispatch_signaling_message, dispatch_from, candidate_of, on_remote_hangup,
}
use webrtc_cpp_remote_contro.Dialog.Roster.{
  IsSharp, IsRoster, IsKeptAs, IsKeptAs-along, changed-sharp, changed_exactly,
}

turn_to-listed : (user : Bytes) (d : Dialog) → (turn_to user d).online_users ≡ d.online_users
unfolding turn_to reset_media_stats set_keyboard_control_active
turn_to-listed user d = ground arith

on_remote_hangup-listed :
    (user : Bytes) (d : Dialog) → (on_remote_hangup user d).0.online_users ≡ d.online_users
unfolding on_remote_hangup leave_session drop_session stop_idle_media reset_media_stats
on_remote_hangup-listed user d = ground arith

dispatch_from-listed :
    (strtol : Bytes → Option ℤ) (a : Answers) (json type user : Bytes) (d : Dialog)
    → (dispatch_from strtol a json type user d).0.online_users ≡ d.online_users
unfolding dispatch_from
dispatch_from-listed strtol a json type user d = ground (
  arith,
  (on_offer-Keeps a user (string_field json (codes "sdp")) d).listed,
  (on_answer-Keeps user (string_field json (codes "sdp")) d).listed,
  (on_candidate-Keeps user (candidate_of strtol json) d).listed,
  on_remote_hangup-listed user d,
)

sent_by-listed :
    (strtol : Bytes → Option ℤ) (a : Answers) (json type user : Bytes) (d : Dialog)
    → (if◌then◌else◌ {A = Outcome}
        (is_empty user)
        (d, [])
        (dispatch_from strtol a json type user (turn_to user d))).0.online_users
      ≡ d.online_users
sent_by-listed strtol a json type user d =
    ground
      (arith, dispatch_from-listed strtol a json type user (turn_to user d), turn_to-listed user d)

-- The set of users that are online after a message, by the message alone.
abbrev pub online_after : Bytes → (Bytes → Bool) → Bytes → Bool
online_after json holds u =
    let type = string_field json (codes "type") in
    let user = string_field json (codes "userId") in
    if bytes_eq type (codes "presence.snapshot")
    then is_listed bytes_eq u (user_ids json)
    else if bytes_eq type (codes "presence.changed") && not (is_empty user) && bytes_eq user u
    then bool_field json (codes "online") false
    else holds u

-- The users that a message about presence names are known, and a snapshot names each once.
abbrev pub IsAnnouncement : (Bytes → Type 0) → Bytes → Type 0
IsAnnouncement Known json =
    (bytes_eq (string_field json (codes "type")) (codes "presence.snapshot") ≡ true
      → IsRoster Known (user_ids json))
    × (bytes_eq (string_field json (codes "type")) (codes "presence.changed") ≡ true
        → Known (string_field json (codes "userId")))

module _ (same : Bytes → Bytes → Bool) (strtol : Bytes → Option ℤ) where
  -- The messages of a connection, each with what libwebrtc and Windows answer on the way.
  abbrev pub dispatch_all : List (Answers × Bytes) → Dialog → Dialog
  dispatch_all [] d = d
  dispatch_all (m ∷ messages) d =
      dispatch_all messages (dispatch_signaling_message same strtol m.0 m.1 d).0

abbrev pub online_after_all : List (Answers × Bytes) → (Bytes → Bool) → Bytes → Bool
online_after_all [] holds = holds
online_after_all (m ∷ messages) holds = online_after_all messages (online_after m.1 holds)

module _ (same : Bytes → Bytes → Bool) (strtol : Bytes → Option ℤ) (Known : Bytes → Type 0)
    (sharp : IsSharp same Known) where
  dispatch-listed :
      (a : Answers) (json : Bytes) (d : Dialog)
      → IsAnnouncement Known json
      → IsRoster Known d.online_users
      → IsKeptAs Known
          (dispatch_signaling_message same strtol a json d).0.online_users
          (online_after json (λ u. is_listed bytes_eq u d.online_users))
  unfolding dispatch_signaling_message
  dispatch-listed a json d known r =
      elim (Bool-cases (bytes_eq (string_field json (codes "type")) (codes "presence.snapshot"))) [
        | inl e ↦ rw (e) (known.0 e, λ u. refl)
        | inr e ↦
            elim (Bool-cases
              (bytes_eq (string_field json (codes "type")) (codes "presence.changed"))) [
                | inl c ↦
                    rw (e, c)
                      (IsKeptAs-along Known _ _ _
                        (changed-sharp same Known sharp (string_field json (codes "userId"))
                          (bool_field json (codes "online") false) d.online_users (known.1 c) r)
                        (changed_exactly Known (string_field json (codes "userId"))
                          (bool_field json (codes "online") false) d.online_users (known.1 c) r))
                | inr c ↦
                    rw (e, c)
                      (IsKeptAs-along Known _ _ _
                        (sent_by-listed strtol a json (string_field json (codes "type"))
                          (string_field json (codes "fromUserId")) d)
                        (r, λ u. refl))
              ]
      ]

  dispatch-refines :
      (a : Answers) (json : Bytes) (d : Dialog) (holds : Bytes → Bool)
      → IsAnnouncement Known json
      → IsKeptAs Known d.online_users holds
      → IsKeptAs Known
          (dispatch_signaling_message same strtol a json d).0.online_users
          (online_after json holds)
  dispatch-refines a json d holds known k =
      subst
        (λ h.
          IsKeptAs Known (dispatch_signaling_message same strtol a json d).0.online_users
            (online_after json h))
        (λ i u. k.1 u i) (dispatch-listed a json d known k.0)

  -- Where the ids of users that the messages about presence name are told apart by the list box, and
  -- each snapshot names a user once, a list box that stands for a set of users stands, after any
  -- messages of the server, for the set that these messages make of it: each user that is in the set
  -- is in the list box, once, and no other one is.
  pub online_users_refine :
      (messages : List (Answers × Bytes)) (d : Dialog) (holds : Bytes → Bool)
      → All (λ m. IsAnnouncement Known m.1) messages
      → IsKeptAs Known d.online_users holds
      → IsKeptAs Known
          (dispatch_all same strtol messages d).online_users
          (online_after_all messages holds)
  online_users_refine [] d holds known k = k
  online_users_refine (m ∷ messages) d holds known k =
      online_users_refine messages (dispatch_signaling_message same strtol m.0 m.1 d).0
        (online_after m.1 holds) known.1 (dispatch-refines m.0 m.1 d holds known.0 k)
