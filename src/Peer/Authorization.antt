-- ===== src/Peer/Authorization.antt =====
-- What a session of RemoteControl_rtc/RemoteControl_rtc/PeerSession.cpp whose control is not authorized
-- makes of the signals of libwebrtc and of the other side.
use webrtc_cpp_remote_contro.Base.{
  ◌≡◌, refl, sym, ap, ◌∙◌, Bool, false, not, ◌||◌, List, [], ◌∷◌, Option, none, some, Bytes, codes,
  is_empty, bytes_eq, nat_eq, bytes_key,
}
use webrtc_cpp_remote_contro.Control.Channel.{Channel, ChannelState, on_message, attach}
use webrtc_cpp_remote_contro.Control.Channel
use webrtc_cpp_remote_contro.Peer.Session.{
  SessionState, new, connecting, connected, disconnected, failed, closed, Session, Outcome,
  state_eq, update_state, announce_local_description, mark_remote_description_set, remote_offer_set,
  fail_negotiation, add_remote_candidate, on_ice_candidate, description_created,
  apply_remote_answer,
}
use webrtc_cpp_remote_contro.Peer.Life.{
  attach_control, on_data_channel, on_track, on_peer_connection_state,
  set_remote_control_authorized,
}
use webrtc_cpp_remote_contro.Peer.Negotiation.{
  Signal, answer_received, candidate_received, candidate_gathered, created, local_set,
  remote_offer_applied, remote_answer_applied, refused, connection_changed, channel_received,
  track_received, frame_reported, control_reported, handle, negotiate,
}
use webrtc_cpp_remote_contro.Peer.Passes.{if_cases}

-- Neither the session nor its control channel is authorized.
pub record Denied (s : Session) : Type 0 where
  pub flag : s.remote_control_authorized ≡ false
  pub channel : (c : Channel) → s.control_channel ≡ some c → c.authorized ≡ false

abbrev Denies : Outcome → Type 0
Denies r = Denied r.0

unfoldable pub authorized_of : Option Channel → Bool
authorized_of none = false
authorized_of (some c) = c.authorized

pub same_authorized :
    (o : Option Channel) (c : Channel) → o ≡ some c → c.authorized ≡ authorized_of o
unfolding authorized_of
same_authorized o c h = ap authorized_of (sym h)

withdrawn : Option Channel → Option Channel
withdrawn none = none
withdrawn (some c) = some (Channel.set_authorized c false)

withdrawn_lem : (o : Option Channel) → authorized_of (withdrawn o) ≡ false
unfolding withdrawn authorized_of Channel.set_authorized
withdrawn_lem none = refl
withdrawn_lem (some c) = refl

set_channel :
    (s : Session)
    → (set_remote_control_authorized s false).control_channel ≡ withdrawn s.control_channel
unfolding set_remote_control_authorized withdrawn
set_channel s =
    elim s.control_channel
      as (λ o.
        (elim o as (λ x. Option Channel) [
          | none ↦ none
          | some c ↦ some (Channel.set_authorized c false)
        ])
        ≡ withdrawn o) [ none ↦ refl | some c ↦ refl ]

set_flag : (s : Session) → (set_remote_control_authorized s false).remote_control_authorized ≡ false
unfolding set_remote_control_authorized
set_flag s = refl

pub set-Denied : (s : Session) → Denied (set_remote_control_authorized s false)
set-Denied s = record {
  flag = set_flag s;
  channel = λ c e.
      same_authorized _ c e ∙ ap authorized_of (set_channel s) ∙ withdrawn_lem s.control_channel;
}

pub update_state-Denied :
    (s : Session) (state : SessionState) → Denied s → Denies (update_state s state)
unfolding update_state
update_state-Denied s state d =
    if_cases Denies (state_eq s.state state) _ _ (λ e. d)
      (λ e. record { flag = d.flag; channel = d.channel })

state-Denied :
    (s : Session) (state : SessionState) → Denied s → Denies (on_peer_connection_state s state)
unfolding on_peer_connection_state
state-Denied s new d = d
state-Denied s connecting d = update_state-Denied s connecting d
state-Denied s connected d = update_state-Denied s connected d
state-Denied s disconnected d = update_state-Denied s disconnected d
state-Denied s failed d = update_state-Denied s failed d
state-Denied s closed d = update_state-Denied s closed d

channel-Denied :
    (s : Session) (o : Option (Bytes × ChannelState)) → Denied s → Denies (on_data_channel s o)
unfolding on_data_channel attach_control attach authorized_of Channel.set_authorized
    Channel.set_event_callback
channel-Denied s none d = d
channel-Denied s (some (label, state)) d =
    if_cases Denies (not s.enable_remote_control || not (bytes_eq label (codes "remote-control"))) _
      _ (λ e. d) (λ e. record { flag = d.flag; channel = λ c h. same_authorized _ c h ∙ d.flag })

track-Denied : (s : Session) (kind : Option Bytes) → Denied s → Denies (on_track s kind)
unfolding on_track
track-Denied s none d = d
track-Denied s (some kind) d =
    if_cases Denies (not s.remote_video_renderer || not (bytes_eq kind (codes "video"))) _ _
      (λ e. d) (λ e. record { flag = d.flag; channel = d.channel })

mark-Denied : (s : Session) → Denied s → Denies (mark_remote_description_set s)
unfolding mark_remote_description_set
mark-Denied s d =
    if_cases Denies s.is_closed _ _ (λ e. d) (λ e. record { flag = d.flag; channel = d.channel })

handle-Denied : (s : Session) (e : Signal) → Denied s → Denies (handle s e)
unfolding handle announce_local_description fail_negotiation on_ice_candidate add_remote_candidate
    apply_remote_answer description_created remote_offer_set
handle-Denied s (answer_received sdp) d = d
handle-Denied s (candidate_received c) d =
    if_cases Denies (not s.connection || is_empty c.candidate) _ _ (λ e. d)
      (λ e.
        if_cases Denies s.is_closed _ _ (λ e. d)
          (λ e.
            if_cases Denies (not s.remote_description_set) _ _
              (λ e. record { flag = d.flag; channel = d.channel }) (λ e. d)))
handle-Denied s (candidate_gathered c) d =
    if_cases Denies s.is_closed _ _ (λ e. d)
      (λ e.
        if_cases Denies (not s.local_description_announced) _ _
          (λ e. record { flag = d.flag; channel = d.channel }) (λ e. d))
handle-Denied s (created sdp type) d = record { flag = d.flag; channel = d.channel }
handle-Denied s local_set d =
    if_cases Denies s.is_closed _ _ (λ e. d) (λ e. record { flag = d.flag; channel = d.channel })
handle-Denied s remote_offer_applied d = mark-Denied s d
handle-Denied s remote_answer_applied d = mark-Denied s d
handle-Denied s refused d =
    if_cases Denies s.is_closed _ _ (λ e. d) (λ e. update_state-Denied s failed d)
handle-Denied s (connection_changed state) d = state-Denied s state d
handle-Denied s (channel_received o) d = channel-Denied s o d
handle-Denied s (track_received kind) d = track-Denied s kind d
handle-Denied s (frame_reported success width height) d = d
handle-Denied s (control_reported detail) d = d

pub negotiate-Denied : (s : Session) (es : List Signal) → Denied s → Denied (negotiate s es).0
unfolding negotiate
negotiate-Denied s [] d = d
negotiate-Denied s (e ∷ es) d = negotiate-Denied (handle s e).0 es (handle-Denied s e d)
