-- ===== src/Peer/Candidates.antt =====
-- What becomes of the candidates in RemoteControl_rtc/RemoteControl_rtc/PeerSession.cpp.
use webrtc_cpp_remote_contro.Base.{
  ◌≡◌, refl, sym, ap, ◌∙◌, inl, inr, Bool, true, false, not, ◌||◌, List, [], ◌∷◌, ◌++◌, map,
  append_assoc, Option, none, some, Bytes, codes, arith, if◌then◌else◌, bytes_eq, Bool-cases,
}
use webrtc_cpp_remote_contro.Base.Int.{ℤ}
use webrtc_cpp_remote_contro.Control.Channel.{Channel, ChannelState}
use webrtc_cpp_remote_contro.Control.Channel
use webrtc_cpp_remote_contro.Peer.Session.{
  SessionState, new, connecting, connected, disconnected, failed, closed, Candidate, Session,
  Effect, candidate_ready, add_candidate, control, Outcome, state_eq, update_state, hand_over,
  fail_negotiation, MediaEvent, notify_media_event, notify_control_event, description_created,
  apply_remote_answer,
}
use webrtc_cpp_remote_contro.Peer.Life.{
  attach_control, control_or_new, on_data_channel, on_track, on_peer_connection_state,
}

-- The candidate that an effect sends to the other side, or gives to libwebrtc.
abbrev pub sent : Effect → List Candidate
sent (candidate_ready c) = c ∷ []
sent _ = []

abbrev pub given : Effect → List Candidate
given (add_candidate c) = c ∷ []
given _ = []

unfoldable pub picked : (Effect → List Candidate) → List Effect → List Candidate
picked f [] = []
picked f (e ∷ es) = f e ++ picked f es

pub picked-++ :
    (f : Effect → List Candidate) (es fs : List Effect)
    → picked f (es ++ fs) ≡ picked f es ++ picked f fs
unfolding picked
picked-++ f [] fs = refl
picked-++ f (e ∷ es) fs =
    ap (◌++◌ (f e)) (picked-++ f es fs) ∙ sym (append_assoc (f e) (picked f es) (picked f fs))

pub picked-sent : (cs : List Candidate) → picked sent (hand_over candidate_ready cs) ≡ cs
unfolding picked
picked-sent [] = refl
picked-sent (c ∷ cs) = ap (λ t. c ∷ t) (picked-sent cs)

pub picked-given : (cs : List Candidate) → picked given (hand_over add_candidate cs) ≡ cs
unfolding picked
picked-given [] = refl
picked-given (c ∷ cs) = ap (λ t. c ∷ t) (picked-given cs)

pub given-sent : (cs : List Candidate) → picked given (hand_over candidate_ready cs) ≡ []
unfolding picked
given-sent [] = refl
given-sent (c ∷ cs) = given-sent cs

pub sent-given : (cs : List Candidate) → picked sent (hand_over add_candidate cs) ≡ []
unfolding picked
sent-given [] = refl
sent-given (c ∷ cs) = sent-given cs

-- A step that has nothing to do with the candidates.
pub record Quiet (s : Session) (r : Outcome) : Type 0 where
  pub same_closed : r.0.is_closed ≡ s.is_closed
  pub same_connection : r.0.connection ≡ s.connection
  pub same_callback : r.0.ice_candidate_callback ≡ s.ice_candidate_callback
  pub same_announced : r.0.local_description_announced ≡ s.local_description_announced
  pub same_described : r.0.remote_description_set ≡ s.remote_description_set
  pub same_local : r.0.pending_local_candidates ≡ s.pending_local_candidates
  pub same_remote : r.0.pending_remote_candidates ≡ s.pending_remote_candidates
  pub none_sent : picked sent r.1 ≡ []
  pub none_given : picked given r.1 ≡ []

pub still :
    (s : Session) (es : List Effect) → picked sent es ≡ [] → picked given es ≡ [] → Quiet s (s, es)
still s es h k = record {
  same_closed = refl;
  same_connection = refl;
  same_callback = refl;
  same_announced = refl;
  same_described = refl;
  same_local = refl;
  same_remote = refl;
  none_sent = h;
  none_given = k;
}

pub if-Quiet :
    (s : Session) (b : Bool) (r t : Outcome) → Quiet s r → Quiet s t → Quiet s (if b then r else t)
if-Quiet s true r t g h = g
if-Quiet s false r t g h = h

pub update_state-Quiet : (s : Session) (state : SessionState) → Quiet s (update_state s state)
unfolding update_state picked
update_state-Quiet s state =
    if-Quiet s (state_eq s.state state) _ _ (still s [] refl refl) (record {
      same_closed = refl;
      same_connection = refl;
      same_callback = refl;
      same_announced = refl;
      same_described = refl;
      same_local = refl;
      same_remote = refl;
      none_sent = elim (Bool-cases s.state_changed_callback) [
        | inl e ↦ rw e refl
        | inr e ↦ rw e refl
      ];
      none_given = elim (Bool-cases s.state_changed_callback) [
        | inl e ↦ rw e refl
        | inr e ↦ rw e refl
      ];
    })

picked-control :
    (es : List Channel.Effect)
    → (picked sent (map control es) ≡ []) × (picked given (map control es) ≡ [])
unfolding picked
picked-control [] = (refl, refl)
picked-control (e ∷ es) = picked-control es

pub attach_control-Quiet :
    (s : Session) (c : Channel) (state : ChannelState) → Quiet s (attach_control s c state)
unfolding attach_control
attach_control-Quiet s c state = record {
  same_closed = refl;
  same_connection = refl;
  same_callback = refl;
  same_announced = refl;
  same_described = refl;
  same_local = refl;
  same_remote = refl;
  none_sent = (picked-control _).0;
  none_given = (picked-control _).1;
}

pub description_created-Quiet :
    (s : Session) (sdp type : Bytes) → Quiet s (description_created s sdp type)
unfolding description_created picked
description_created-Quiet s sdp type = record {
  same_closed = refl;
  same_connection = refl;
  same_callback = refl;
  same_announced = refl;
  same_described = refl;
  same_local = refl;
  same_remote = refl;
  none_sent = elim (Bool-cases s.connection) [ inl e ↦ rw e refl | inr e ↦ rw e refl ];
  none_given = elim (Bool-cases s.connection) [ inl e ↦ rw e refl | inr e ↦ rw e refl ];
}

pub apply_remote_answer-Quiet : (s : Session) (sdp : Bytes) → Quiet s (apply_remote_answer s sdp)
unfolding apply_remote_answer picked
apply_remote_answer-Quiet s sdp =
    still s _ (elim (Bool-cases s.connection) [ inl e ↦ rw e refl | inr e ↦ rw e refl ])
      (elim (Bool-cases s.connection) [ inl e ↦ rw e refl | inr e ↦ rw e refl ])

pub on_data_channel-Quiet :
    (s : Session) (channel : Option (Bytes × ChannelState)) → Quiet s (on_data_channel s channel)
unfolding on_data_channel picked
on_data_channel-Quiet s none = still s [] refl refl
on_data_channel-Quiet s (some (label, state)) =
    if-Quiet s (not s.enable_remote_control || not (bytes_eq label (codes "remote-control"))) _ _
      (still s [] refl refl) (attach_control-Quiet s (control_or_new s.control_channel) state)

pub on_track-Quiet : (s : Session) (kind : Option Bytes) → Quiet s (on_track s kind)
unfolding on_track picked notify_media_event
on_track-Quiet s none = still s [] refl refl
on_track-Quiet s (some kind) =
    if-Quiet s (not s.remote_video_renderer || not (bytes_eq kind (codes "video"))) _ _
      (still s [] refl refl)
      (record {
        same_closed = refl;
        same_connection = refl;
        same_callback = refl;
        same_announced = refl;
        same_described = refl;
        same_local = refl;
        same_remote = refl;
        none_sent = ground (arith);
        none_given = ground (arith);
      })

pub fail_negotiation-Quiet : (s : Session) → Quiet s (fail_negotiation s)
unfolding fail_negotiation picked
fail_negotiation-Quiet s =
    if-Quiet s s.is_closed _ _ (still s [] refl refl) (update_state-Quiet s failed)

pub on_peer_connection_state-Quiet :
    (s : Session) (state : SessionState) → Quiet s (on_peer_connection_state s state)
unfolding on_peer_connection_state picked
on_peer_connection_state-Quiet s new = still s [] refl refl
on_peer_connection_state-Quiet s connecting = update_state-Quiet s connecting
on_peer_connection_state-Quiet s connected = update_state-Quiet s connected
on_peer_connection_state-Quiet s disconnected = update_state-Quiet s disconnected
on_peer_connection_state-Quiet s failed = update_state-Quiet s failed
on_peer_connection_state-Quiet s closed = update_state-Quiet s closed

pub notify_media_event-Quiet :
    (s : Session) (event : MediaEvent) (width height : ℤ)
    → Quiet s (s, notify_media_event s event width height)
unfolding notify_media_event picked
notify_media_event-Quiet s event width height = still s _ (ground (arith)) (ground (arith))

pub notify_control_event-Quiet :
    (s : Session) (detail : Bytes) → Quiet s (s, notify_control_event s detail)
unfolding notify_control_event picked
notify_control_event-Quiet s detail = still s _ (ground (arith)) (ground (arith))
