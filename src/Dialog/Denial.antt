-- ===== src/Dialog/Denial.antt =====
-- Sessions of RemoteControl_rtc/RemoteControl_rtc/SessionManager.cpp without an authorization, under the
-- operations that the user's window calls.
use mathlib.Core.Path.{subst}
use webrtc_cpp_remote_contro.Base.{
  ◌≡◌, refl, ap, ◌∙◌, arith, All, Bool, true, false, not, ◌||◌, List, [], ◌∷◌, Option, none, some,
  Bytes, if◌then◌else◌, is_empty, bytes_eq, Bool-cases, Option-cases, inl, inr, lookup, emplace,
  erase, adjust, nat_eq, bytes_key,
}
use webrtc_cpp_remote_contro.Control.Channel.{Channel, ChannelState, on_message, attach}
use webrtc_cpp_remote_contro.Control.Channel
use webrtc_cpp_remote_contro.Peer.Session.{
  Session, Candidate, Effect, create_offer, apply_remote_offer, add_remote_candidate, update_state,
}
use webrtc_cpp_remote_contro.Peer.Life.{
  new_session, create, create_control_channel, attach_control, set_remote_control_authorized,
  request_stats, close,
}
use webrtc_cpp_remote_contro.Peer.Manager.{
  Sessions, find_session, create_session, remove_session, authorize_all, is_some,
}
use webrtc_cpp_remote_contro.Peer.Authorization.{Denied, authorized_of, same_authorized, set-Denied}
use webrtc_cpp_remote_contro.Dialog.Sessions.{prepare_session, bind_session_callbacks}

-- No session of the manager is authorized.
abbrev pub AllDenied : Sessions → Type 0
AllDenied m = All (λ e. Denied e.1) m

pub lookup-Denied :
    (m : Sessions) (user : Bytes) (s : Session) → AllDenied m → lookup user m ≡ some s → Denied s
unfolding lookup
lookup-Denied [] user s h e = cc
lookup-Denied ((u, t) ∷ m) user s h e = elim (Bool-cases (bytes_eq u user)) [
  | inl b ↦ let same : t ≡ s = ground arith in subst Denied same h.0
  | inr b ↦ lookup-Denied m user s h.1 (ground arith)
]

if-Denied : (b : Bool) (s t : Session) → Denied s → Denied t → Denied (if b then s else t)
if-Denied true s t h k = h
if-Denied false s t h k = k

pub if-AllDenied :
    (b : Bool) (m n : Sessions) → AllDenied m → AllDenied n → AllDenied (if b then m else n)
if-AllDenied true m n h k = h
if-AllDenied false m n h k = k

pub adjust-AllDenied :
    (m : Sessions) (user : Bytes) (f : Session → Session)
    → ((s : Session) → Denied s → Denied (f s))
    → AllDenied m
    → AllDenied (adjust user f m)
unfolding adjust
adjust-AllDenied [] user f k h = tt
adjust-AllDenied ((u, t) ∷ m) user f k h =
    (if-Denied (bytes_eq u user) (f t) t (k t h.0) h.0, adjust-AllDenied m user f k h.1)

pub put-AllDenied :
    (m : Sessions) (user : Bytes) (s : Session)
    → Denied s
    → AllDenied m
    → AllDenied (adjust user (λ _. s) m)
put-AllDenied m user s d h = adjust-AllDenied m user (λ _. s) (λ _ _. d) h

erase-AllDenied : (m : Sessions) (user : Bytes) → AllDenied m → AllDenied (erase user m)
unfolding erase
erase-AllDenied [] user h = tt
erase-AllDenied ((u, t) ∷ m) user h =
    if-AllDenied (bytes_eq u user) (erase user m) ((u, t) ∷ erase user m)
      (erase-AllDenied m user h.1) (h.0, erase-AllDenied m user h.1)

emplace-AllDenied :
    (m : Sessions) (user : Bytes) (s : Session)
    → Denied s
    → AllDenied m
    → AllDenied (emplace user s m)
unfolding emplace
emplace-AllDenied m user s d h =
    elim (lookup user m)
      as (λ o. AllDenied (elim o as (λ _. Sessions) [ none ↦ (user, s) ∷ m | some old ↦ m ])) [
        | none ↦ (d, h)
        | some old ↦ h
      ]

pub authorize_all-AllDenied : (m : Sessions) → AllDenied (authorize_all m false)
unfolding authorize_all
authorize_all-AllDenied [] = tt
authorize_all-AllDenied ((u, t) ∷ m) = (set-Denied t, authorize_all-AllDenied m)

-- A session without a channel whose flag is not set.
bare-Denied :
    (s : Session) → s.remote_control_authorized ≡ false → s.control_channel ≡ none → Denied s
bare-Denied s f c = record { flag = f; channel = λ ch e. cc }

Denied-authorized : (s : Session) → Denied s → authorized_of s.control_channel ≡ false
unfolding authorized_of
Denied-authorized s d = elim (Option-cases s.control_channel) [
  | inl e ↦ ap authorized_of e
  | inr (c, e) ↦ ap authorized_of e ∙ d.channel c e
]

-- The flag and the authorization of the channel are all that counts.
mk-Denied :
    (s : Session)
    → s.remote_control_authorized ≡ false
    → authorized_of s.control_channel ≡ false
    → Denied s
mk-Denied s f c = record { flag = f; channel = λ ch e. same_authorized _ ch e ∙ c }

pub create_control_channel-Denied :
    (s : Session) (o : Option ChannelState) → Denied s → Denied (create_control_channel s o).0.0
unfolding create_control_channel attach_control attach authorized_of Channel.set_authorized
    Channel.set_event_callback
create_control_channel-Denied s o d =
    mk-Denied (create_control_channel s o).0.0 (ground (arith, d.flag))
      (ground (arith, d.flag, Denied-authorized s d))

pub prepare_session-Denied : (s : Session) → Denied (prepare_session false s)
unfolding prepare_session bind_session_callbacks authorized_of Channel.set_event_callback
    Channel.set_authorized set_remote_control_authorized
prepare_session-Denied s = mk-Denied (prepare_session false s) refl (ground arith)

pub create_offer-Denied : (s : Session) (b : Bool) → Denied s → Denied (create_offer s b).0
unfolding create_offer update_state
create_offer-Denied s b d =
    mk-Denied (create_offer s b).0 (ground (arith, d.flag)) (ground (arith, Denied-authorized s d))

pub apply_remote_offer-Denied :
    (s : Session) (sdp : Bytes) (b : Bool) → Denied s → Denied (apply_remote_offer s sdp b).0
unfolding apply_remote_offer update_state
apply_remote_offer-Denied s sdp b d =
    mk-Denied (apply_remote_offer s sdp b).0 (ground (arith, d.flag))
      (ground (arith, Denied-authorized s d))

pub add_remote_candidate-Denied :
    (s : Session) (c : Candidate) → Denied s → Denied (add_remote_candidate s c).0
unfolding add_remote_candidate
add_remote_candidate-Denied s c d =
    mk-Denied (add_remote_candidate s c).0 (ground (arith, d.flag))
      (ground (arith, Denied-authorized s d))

pub request_stats-Denied : (s : Session) (b : Bool) → Denied s → Denied (request_stats s b).0
unfolding request_stats
request_stats-Denied s b d =
    mk-Denied (request_stats s b).0 (ground (arith, d.flag)) (ground (arith, Denied-authorized s d))

created-Denied : (b : Bool) (factory : Option Bool) → Denied (create (new_session b) factory).0.0
unfolding create update_state authorized_of
created-Denied b none = mk-Denied _ refl refl
created-Denied b (some false) = mk-Denied _ refl refl
created-Denied b (some true) = mk-Denied _ refl refl

abbrev Made : (Sessions × List Effect) × Bool → Type 0
Made o = AllDenied o.0.0

if-Made :
    (b : Bool) (o p : (Sessions × List Effect) × Bool) → Made o → Made p → Made (if b then o else p)
if-Made true o p h k = h
if-Made false o p h k = k

pub create_session-AllDenied :
    (m : Sessions) (user : Bytes) (b : Bool) (factory : Option Bool)
    → AllDenied m
    → AllDenied (create_session m user b factory).0.0
unfolding create_session
create_session-AllDenied m user b factory h =
    let made = create (new_session b) factory in
    if-Made (is_empty user || is_some (find_session m user)) ((m, []), false) _ h
      (if-Made (not made.1) ((m, made.0.1), false) ((emplace user made.0.0 m, made.0.1), true) h
        (emplace-AllDenied m user made.0.0 (created-Denied b factory) h))

pub remove_session-AllDenied :
    (m : Sessions) (user : Bytes) → AllDenied m → AllDenied (remove_session m user).0
unfolding remove_session
remove_session-AllDenied m user h =
    elim (find_session m user)
      as (λ o.
        AllDenied
          (elim o as (λ _. Sessions × List Effect) [
            | none ↦ (m, [])
            | some s ↦ (erase user m, (close s).1)
          ]).0) [ none ↦ h | some s ↦ erase-AllDenied m user h ]
