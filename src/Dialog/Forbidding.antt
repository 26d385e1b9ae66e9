-- ===== src/Dialog/Forbidding.antt =====
-- While the check box for the control of this side is not checked, the operations of
-- RemoteControl_rtc/RemoteControl_rtc/RemoteControl_rtcDlg.cpp on sessions authorize none.
use mathlib.Core.Path.{subst}
use webrtc_cpp_remote_contro.Base.{
  ℕ, ◌≡◌, refl, sym, ◌∙◌, arith, Bool, true, false, not, ◌||◌, [], Option, none, some, Bytes,
  if◌then◌else◌, is_empty, bytes_eq, nat_eq, bytes_key,
}
use webrtc_cpp_remote_contro.Peer.Session.{Session, SessionState, new, state_eq}
use webrtc_cpp_remote_contro.Peer.Life.{create_control_channel}
use webrtc_cpp_remote_contro.Peer.Manager.{find_session, create_session}
use webrtc_cpp_remote_contro.Peer.Authorization.{Denied}
use webrtc_cpp_remote_contro.Dialog.State.{
  Dialog, Outcome, turn_to, update_session, stop_idle_media, reset_media_stats,
  set_keyboard_control_active, active_session,
}
use webrtc_cpp_remote_contro.Dialog.Sessions.{
  Answers, is_terminal, hang_up, forget_user, has_state, on_session, make_session, open_session,
  drop_session, leave_session, end_session, follow_state, configure_local_media, configure_video,
  configure_audio, start_selected_session, on_session_state, on_hangup_clicked, prepare_session,
}
use webrtc_cpp_remote_contro.Dialog.Dispatch.{answer_offer, on_offer}
use webrtc_cpp_remote_contro.Dialog.Denial.{
  AllDenied, lookup-Denied, put-AllDenied, create_control_channel-Denied, prepare_session-Denied,
  create_offer-Denied, apply_remote_offer-Denied, create_session-AllDenied,
  remove_session-AllDenied,
}

-- The box is not checked, and no session is authorized.
pub record Forbids (d : Dialog) : Type 0 where
  pub box : d.allow_control ≡ false
  pub sessions : AllDenied d.sessions

-- The same box and the same sessions.
pub record Shares (d d' : Dialog) : Type 0 where
  pub box : d'.allow_control ≡ d.allow_control
  pub sessions : d'.sessions ≡ d.sessions

pub Shares-Forbids : (d d' : Dialog) → Shares d d' → Forbids d → Forbids d'
Shares-Forbids d d' s h = record {
  box = s.box ∙ h.box;
  sessions = subst AllDenied (sym s.sessions) h.sessions;
}

pub if-Forbids :
    (b : Bool) (o p : Outcome) → Forbids o.0 → Forbids p.0 → Forbids (if b then o else p).0
if-Forbids true o p h k = h
if-Forbids false o p h k = k

pub put-Forbids :
    (user : Bytes) (s : Session) (d : Dialog)
    → Denied s
    → Forbids d
    → Forbids (update_session user (λ _. s) d)
unfolding update_session
put-Forbids user s d k h = record {
  box = h.box;
  sessions = put-AllDenied d.sessions user s k h.sessions;
}

drop-Forbids : (user : Bytes) (d : Dialog) → Forbids d → Forbids (drop_session user d).0
unfolding drop_session
drop-Forbids user d h = record {
  box = h.box;
  sessions = remove_session-AllDenied d.sessions user h.sessions;
}

pub turn_to-Shares : (user : Bytes) (d : Dialog) → Shares d (turn_to user d)
unfolding turn_to
turn_to-Shares user d = ground arith

configure-Shares :
    (a : Answers) (s : Session) (d : Dialog) → Shares d (configure_local_media a s d).0
unfolding configure_local_media configure_video configure_audio
configure-Shares a s d = ground arith

follow_state-Shares :
    (state : SessionState) (now : ℕ) (d : Dialog) → Shares d (follow_state state now d)
unfolding follow_state
follow_state-Shares state now d = ground arith

stop_idle-Shares : (d : Dialog) → Shares d (stop_idle_media d)
unfolding stop_idle_media
stop_idle-Shares d = if-share (is_empty d.sessions)
  where
    if-share :
        (b : Bool)
        → Shares d (if b then record d { desktop_track = false; audio_track = false } else d)
    if-share true = record { box = refl; sessions = refl }
    if-share false = record { box = refl; sessions = refl }

prepared-Denied : (b : Bool) (s : Session) → b ≡ false → Denied (prepare_session b s)
prepared-Denied b s e = subst (λ x. Denied (prepare_session x s)) (sym e) (prepare_session-Denied s)

open_session-Forbids :
    (a : Answers) (user : Bytes) (s : Session) (d : Dialog)
    → Denied s
    → Forbids d
    → Forbids (open_session a user s d).0
unfolding open_session
open_session-Forbids a user s d k h =
    let s1 : Session = (create_control_channel s a.control_state).0.0 in
    let k1 = create_control_channel-Denied s a.control_state k in
    let d1 : Dialog = update_session user (λ _. s1) d in
    let h1 = put-Forbids user s1 d k1 h in
    let d2 : Dialog = (configure_local_media a s1 d1).0 in
    let h2 = Shares-Forbids d1 d2 (configure-Shares a s1 d1) h1 in
    if-Forbids _ _ _
      (if-Forbids (not (create_control_channel s a.control_state).1) (drop_session user d1)
        (drop_session user d2) (drop-Forbids user d1 h1) (drop-Forbids user d2 h2))
      (put-Forbids user _ d2 (create_offer-Denied _ true (prepared-Denied d.allow_control s1 h.box))
        h2)

answer_offer-Forbids :
    (a : Answers) (user sdp : Bytes) (s : Session) (d : Dialog)
    → Forbids d
    → Forbids (answer_offer a user sdp s d).0
unfolding answer_offer
answer_offer-Forbids a user sdp s d h =
    let configured = configure_local_media a s d in
    let c = Shares-Forbids d configured.0 (configure-Shares a s d) h in
    if-Forbids _ (drop_session user configured.0) _ (drop-Forbids user configured.0 c) (
      put-Forbids user _ configured.0
        (apply_remote_offer-Denied _ sdp true (prepared-Denied d.allow_control s h.box)) c)

pub on_session-Forbids :
    (user : Bytes) (o : Option Session) (f : Session → Dialog → Outcome) (d : Dialog)
    → find_session d.sessions user ≡ o
    → ((s : Session) → Denied s → Forbids (f s d).0)
    → Forbids d
    → Forbids (on_session o f d).0
unfolding on_session
on_session-Forbids user none f d e k h = h
on_session-Forbids user (some s) f d e k h = k s (lookup-Denied d.sessions user s h.sessions e)

make_session-Forbids :
    (a : Answers) (user : Bytes) (f : Session → Dialog → Outcome) (d : Dialog)
    → ((s : Session) (e : Dialog) → Denied s → Forbids e → Forbids (f s e).0)
    → Forbids d
    → Forbids (make_session a user f d).0
unfolding make_session
make_session-Forbids a user f d k h =
    let d1 : Dialog = record d { sessions = (create_session d.sessions user true a.factory).0.0 } in
    let h1 : Forbids d1 = record {
      box = h.box;
      sessions = create_session-AllDenied d.sessions user true a.factory h.sessions;
    } in
    if-Forbids _ _ _ h1 (on_session-Forbids user _ f d1 refl (λ s n. k s d1 n h1) h1)

pub start-Forbids :
    (a : Answers) (selected : Option Bytes) (d : Dialog)
    → Forbids d
    → Forbids (start_selected_session a selected d).0
unfolding start_selected_session
start-Forbids a none d h = h
start-Forbids a (some user) d h =
    make_session-Forbids a user _ (turn_to user d) (λ s e n k. open_session-Forbids a user s e n k)
      (Shares-Forbids d (turn_to user d) (turn_to-Shares user d) h)

pub leave-Forbids : (user : Bytes) (d : Dialog) → Forbids d → Forbids (leave_session user d).0
unfolding leave_session reset_media_stats
leave-Forbids user d h =
    let dropped = drop-Forbids user d h in
    Shares-Forbids _ _ (stop_idle-Shares _)
      (record { box = dropped.box; sessions = dropped.sessions })

hung-Forbids :
    (o : Option Session) (d : Dialog)
    → Forbids d
    → Forbids (elim o as (λ _. Outcome) [ none ↦ forget_user d | some s ↦ hang_up s d ]).0
hung-Forbids none d h = record { box = h.box; sessions = h.sessions }
hung-Forbids (some s) d h =
    let left = leave-Forbids d.active_remote_user_id d h in
    record { box = left.box; sessions = left.sessions }

quiet-Forbids : (d : Dialog) → Forbids d → Forbids (set_keyboard_control_active false d)
unfolding set_keyboard_control_active
quiet-Forbids d h = record { box = h.box; sessions = h.sessions }

pub on_hangup-Forbids : (d : Dialog) → Forbids d → Forbids (on_hangup_clicked d).0
unfolding on_hangup_clicked
on_hangup-Forbids d h =
    let quiet = quiet-Forbids d h in
    if-Forbids (is_empty d.active_remote_user_id) (set_keyboard_control_active false d, []) _ quiet
      (hung-Forbids (active_session d) (set_keyboard_control_active false d) quiet)

forget-Forbids :
    (b : Bool) (d : Dialog)
    → Forbids d
    → Forbids (if b then record d { active_remote_user_id = [] } else d)
forget-Forbids true d h = record { box = h.box; sessions = h.sessions }
forget-Forbids false d h = h

end-Forbids :
    (user : Bytes) (state : SessionState) (d : Dialog)
    → Forbids d
    → Forbids (end_session user state d).0
unfolding end_session
end-Forbids user state d h =
    let left =
      forget-Forbids (bytes_eq user d.active_remote_user_id) (drop_session user d).0
        (drop-Forbids user d h) in
    if-Forbids (has_state (find_session d.sessions user) state) _ _
      (Shares-Forbids _ _ (stop_idle-Shares _) left) h

pub on_session_state-Forbids :
    (user : Bytes) (state : SessionState) (now : ℕ) (d : Dialog)
    → Forbids d
    → Forbids (on_session_state user state now d).0
unfolding on_session_state
on_session_state-Forbids user state now d h =
    let d1 : Dialog =
      if bytes_eq user d.active_remote_user_id then follow_state state now d else d in
    let h1 : Forbids d1 = followed (bytes_eq user d.active_remote_user_id) in
    let ended = end-Forbids user state d1 h1 in
    let o = end_session user state d1 in
    let enabled : Bool = o.0.connect_enabled || d.signaling_connected in
    if-Forbids (state_eq state new) (d, []) _ h
      (if-Forbids (is_terminal state) (record o.0 { connect_enabled = enabled }, o.1) (d1, [])
        (record { box = ended.box; sessions = ended.sessions }) h1)
  where
    followed : (b : Bool) → Forbids (if b then follow_state state now d else d)
    followed true = Shares-Forbids d _ (follow_state-Shares state now d) h
    followed false = h

pub on_offer-Forbids :
    (a : Answers) (user sdp : Bytes) (d : Dialog) → Forbids d → Forbids (on_offer a user sdp d).0
unfolding on_offer
on_offer-Forbids a user sdp d h =
    elim (find_session d.sessions user)
      as (λ o.
        Forbids
          (elim o as (λ _. Outcome) [
            | some s ↦ answer_offer a user sdp s d
            | none ↦ make_session a user (answer_offer a user sdp) d
          ]).0) [
            | some s ↦ answer_offer-Forbids a user sdp s d h
            | none ↦
                make_session-Forbids a user _ d (λ s e n k. answer_offer-Forbids a user sdp s e k) h
          ]
