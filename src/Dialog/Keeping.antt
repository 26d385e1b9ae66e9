-- ===== src/Dialog/Keeping.antt =====
-- What the handlers of the user's window leave alone.
use webrtc_cpp_remote_contro.Base.{
  ◌≡◌, refl, arith, Bool, true, false, Option, none, some, Bytes, if◌then◌else◌,
}
use webrtc_cpp_remote_contro.Peer.Session.{Session}
use webrtc_cpp_remote_contro.Peer.Session.{Candidate}
use webrtc_cpp_remote_contro.Peer.Manager.{find_session, create_session}
use webrtc_cpp_remote_contro.Dialog.Dispatch.{answer_offer, on_offer, on_answer, on_candidate}
use webrtc_cpp_remote_contro.Dialog.State.{Dialog, Outcome, update_session}
use webrtc_cpp_remote_contro.Dialog.Sessions.{
  Answers, on_session, configure_video, configure_audio, configure_local_media, drop_session,
  open_session, make_session,
}

-- The user, the control of the other side, the permission for it and the list of users are the same.
pub record Keeps (d d' : Dialog) : Type 0 where
  pub user : d'.active_remote_user_id ≡ d.active_remote_user_id
  pub control : d'.keyboard_control_active ≡ d.keyboard_control_active
  pub permission : d'.allow_control ≡ d.allow_control
  pub listed : d'.online_users ≡ d.online_users

pub update_session-Keeps :
    (user : Bytes) (f : Session → Session) (d : Dialog) → Keeps d (update_session user f d)
unfolding update_session
update_session-Keeps user f d = record {
  user = refl;
  control = refl;
  permission = refl;
  listed = refl;
}

pub configure_local_media-Keeps :
    (a : Answers) (s : Session) (d : Dialog) → Keeps d (configure_local_media a s d).0
unfolding configure_local_media configure_video configure_audio
configure_local_media-Keeps a s d = ground arith

pub drop_session-Keeps : (user : Bytes) (d : Dialog) → Keeps d (drop_session user d).0
unfolding drop_session
drop_session-Keeps user d = record { user = refl; control = refl; permission = refl; listed = refl }

pub Keeps-refl : (d : Dialog) → Keeps d d
Keeps-refl d = record { user = refl; control = refl; permission = refl; listed = refl }

pub Keeps-trans : (d e f : Dialog) → Keeps d e → Keeps e f → Keeps d f
Keeps-trans d e f p q = ground arith

pub if-Keeps :
    (b : Bool) (d : Dialog) (o p : Outcome)
    → Keeps d o.0
    → Keeps d p.0
    → Keeps d (if b then o else p).0
if-Keeps true d o p h k = h
if-Keeps false d o p h k = k

pub on_session-Keeps :
    (o : Option Session) (f : Session → Dialog → Outcome) (d : Dialog)
    → ((s : Session) → Keeps d (f s d).0)
    → Keeps d (on_session o f d).0
unfolding on_session
on_session-Keeps none f d k = Keeps-refl d
on_session-Keeps (some s) f d k = k s

pub open_session-Keeps :
    (a : Answers) (user : Bytes) (s : Session) (d : Dialog) → Keeps d (open_session a user s d).0
unfolding open_session configure_local_media configure_video configure_audio update_session
    drop_session
open_session-Keeps a user s d = ground arith

pub make_session-Keeps :
    (a : Answers) (user : Bytes) (f : Session → Dialog → Outcome) (d : Dialog)
    → ((s : Session) (e : Dialog) → Keeps e (f s e).0)
    → Keeps d (make_session a user f d).0
unfolding make_session
make_session-Keeps a user f d k =
    let d1 : Dialog = record d { sessions = (create_session d.sessions user true a.factory).0.0 } in
    let first : Keeps d d1 = record {
      user = refl;
      control = refl;
      permission = refl;
      listed = refl;
    } in
    if-Keeps _ d _ _ first (Keeps-trans d d1 _ first (on_session-Keeps _ f d1 (λ s. k s d1)))

pub answer_offer-Keeps :
    (a : Answers) (user sdp : Bytes) (s : Session) (d : Dialog)
    → Keeps d (answer_offer a user sdp s d).0
unfolding answer_offer update_session drop_session configure_local_media configure_video
    configure_audio
answer_offer-Keeps a user sdp s d = ground arith

pub on_offer-Keeps :
    (a : Answers) (user sdp : Bytes) (d : Dialog) → Keeps d (on_offer a user sdp d).0
unfolding on_offer
on_offer-Keeps a user sdp d =
    elim (find_session d.sessions user)
      as (λ o.
        Keeps d
          (elim o as (λ _. Outcome) [
            | some s ↦ answer_offer a user sdp s d
            | none ↦ make_session a user (answer_offer a user sdp) d
          ]).0) [
            | some s ↦ answer_offer-Keeps a user sdp s d
            | none ↦ make_session-Keeps a user _ d (λ s e. answer_offer-Keeps a user sdp s e)
          ]

pub on_answer-Keeps : (user sdp : Bytes) (d : Dialog) → Keeps d (on_answer user sdp d).0
unfolding on_answer
on_answer-Keeps user sdp d = on_session-Keeps _ _ d (λ s. update_session-Keeps user _ d)

pub on_candidate-Keeps :
    (user : Bytes) (c : Candidate) (d : Dialog) → Keeps d (on_candidate user c d).0
unfolding on_candidate
on_candidate-Keeps user c d = on_session-Keeps _ _ d (λ s. update_session-Keeps user _ d)
