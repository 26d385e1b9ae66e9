-- ===== src/Peer/Session.antt =====
-- `PeerSession` of RemoteControl_rtc/RemoteControl_rtc/PeerSession.cpp: the negotiation, the
-- candidates and the states. What libwebrtc calls back is an event; a call returns the new state and
-- what it does to the outside, in order. A call through a null `peer_connection_` is an effect of its
-- own. The mutex makes each of its blocks a step.
use webrtc_cpp_remote_contro.Base.{
  Bool, true, false, not, ◌||◌, List, [], ◌∷◌, ◌++◌, Option, Bytes, codes, if◌then◌else◌, is_empty,
}
use webrtc_cpp_remote_contro.Base.Int.{ℤ}
use webrtc_cpp_remote_contro.Control.Channel.{
  Channel, ChannelState, attach, destroy, set_authorized, set_event_callback,
}
use webrtc_cpp_remote_contro.Control.Channel

-- `PeerSessionState`.
pub data SessionState : Type 0 where
  new connecting connected disconnected failed closed : SessionState

pub record Candidate : Type 0 where
  pub mid : Bytes
  pub mline_index : ℤ
  pub candidate : Bytes

-- The members of the class that the handlers use. Of a callback, a renderer, a track and the
-- connection only whether they are set is kept.
pub record Session : Type 0 where
  pub state : SessionState
  pub connection : Bool
  pub is_closed : Bool
  pub local_description_announced : Bool
  pub remote_description_set : Bool
  pub pending_local_candidates : List Candidate
  pub pending_remote_candidates : List Candidate
  pub pending_local_sdp : Bytes
  pub pending_local_sdp_type : Bytes
  pub state_changed_callback : Bool
  pub ice_candidate_callback : Bool
  pub media_event_callback : Bool
  pub control_event_callback : Bool
  pub pending_sdp_callback : Bool
  pub remote_video_track : Bool
  pub remote_video_renderer : Bool
  pub control_channel : Option Channel
  pub remote_control_authorized : Bool
  pub enable_remote_control : Bool
  pub stats_alive : Bool
  pub stats_pending : Bool

-- `PeerMediaEvent`.
pub data MediaEvent : Type 0 where
  remote_video_track_added remote_video_first_frame remote_video_frame_conversion_failed :
      MediaEvent

pub data Effect : Type 0 where
  state_changed : SessionState → Effect
  sdp_ready : Bytes → Bytes → Effect
  candidate_ready : Candidate → Effect
  media_event : MediaEvent → ℤ → ℤ → Effect
  control_event : Bytes → Effect
  add_candidate : Candidate → Effect
  ask_offer ask_answer : Effect
  set_local_description : Bytes → Bytes → Effect
  set_remote_description : Bytes → Bytes → Effect
  register_observer deregister_observer close_connection : Effect
  add_renderer remove_renderer : Effect
  create_channel get_stats : Effect
  control : Channel.Effect → Effect
  null_call : Effect

abbrev pub Outcome : Type 0
Outcome = Session × List Effect

abbrev pub state_eq : SessionState → SessionState → Bool
state_eq new new = true
state_eq connecting connecting = true
state_eq connected connected = true
state_eq disconnected disconnected = true
state_eq failed failed = true
state_eq closed closed = true
state_eq _ _ = false

unfoldable pub update_state : Session → SessionState → Outcome
update_state s state = if state_eq s.state state then (s, []) else (
  record s { state = state },
  if s.state_changed_callback then state_changed state ∷ [] else [],
)

-- What `candidates.swap` and the loops behind it hand over.
abbrev pub hand_over : (Candidate → Effect) → List Candidate → List Effect
hand_over f [] = []
hand_over f (c ∷ cs) = f c ∷ hand_over f cs

unfoldable pub announce_local_description : Session → Outcome
announce_local_description s = if s.is_closed then (s, []) else (
  record s { local_description_announced = true; pending_local_candidates = [] },
  (if s.pending_sdp_callback
        then sdp_ready s.pending_local_sdp s.pending_local_sdp_type ∷ []
        else [])
      ++ (if s.ice_candidate_callback
          then hand_over candidate_ready s.pending_local_candidates
          else []),
)

unfoldable pub mark_remote_description_set : Session → Outcome
mark_remote_description_set s = if s.is_closed then (s, []) else (
  record s { remote_description_set = true; pending_remote_candidates = [] },
  if s.connection then hand_over add_candidate s.pending_remote_candidates else [],
)

unfoldable pub fail_negotiation : Session → Outcome
unfolding update_state
fail_negotiation s = if s.is_closed then (s, []) else update_state s failed

unfoldable pub notify_media_event : Session → MediaEvent → ℤ → ℤ → List Effect
notify_media_event s event width height =
    if s.is_closed
    then []
    else if s.media_event_callback
    then media_event event width height ∷ []
    else []

unfoldable pub notify_control_event : Session → Bytes → List Effect
notify_control_event s detail =
    if s.is_closed then [] else if s.control_event_callback then control_event detail ∷ [] else []

-- The block of `CreateOffer` under the mutex, and the calls behind it.
unfoldable pub create_offer : Session → Bool → Outcome
unfolding update_state
create_offer s callback =
    let started =
      update_state
        (record s {
          pending_sdp_callback = callback;
          local_description_announced = false;
          remote_description_set = false;
          pending_local_candidates = [];
          pending_remote_candidates = [];
        })
        connecting in
    if s.connection then (started.0, started.1 ++ ask_offer ∷ []) else (s, [])

-- `ApplyRemoteOffer`: the candidates of the other side that came early are kept.
unfoldable pub apply_remote_offer : Session → Bytes → Bool → Outcome
unfolding update_state
apply_remote_offer s sdp callback =
    let started =
      update_state
        (record s {
          pending_sdp_callback = callback;
          local_description_announced = false;
          remote_description_set = false;
          pending_local_candidates = [];
        })
        connecting in
    if s.connection
    then (started.0, started.1 ++ set_remote_description sdp (codes "offer") ∷ [])
    else (s, [])

unfoldable pub apply_remote_answer : Session → Bytes → Outcome
apply_remote_answer s sdp =
    (s, if s.connection then set_remote_description sdp (codes "answer") ∷ [] else [])

unfoldable pub add_remote_candidate : Session → Candidate → Outcome
add_remote_candidate s c =
    if not s.connection || is_empty c.candidate
    then (s, [])
    else if s.is_closed
    then (s, [])
    else if not s.remote_description_set
    then (record s { pending_remote_candidates = s.pending_remote_candidates ++ c ∷ [] }, [])
    else (s, add_candidate c ∷ [])

-- `OnIceCandidate`, with a candidate that could be written as text.
unfoldable pub on_ice_candidate : Session → Candidate → Outcome
on_ice_candidate s c =
    if s.is_closed
    then (s, [])
    else if not s.local_description_announced
    then (record s { pending_local_candidates = s.pending_local_candidates ++ c ∷ [] }, [])
    else (s, if s.ice_candidate_callback then candidate_ready c ∷ [] else [])

-- The success of `CreateOffer` or `CreateAnswer`.
unfoldable pub description_created : Session → Bytes → Bytes → Outcome
description_created s sdp type = (
  record s { pending_local_sdp = sdp; pending_local_sdp_type = type },
  if s.connection then set_local_description sdp type ∷ [] else null_call ∷ [],
)

-- The success of `SetRemoteDescription` with an offer.
unfoldable pub remote_offer_set : Session → Outcome
unfolding mark_remote_description_set
remote_offer_set s =
    let marked = mark_remote_description_set s in
    (marked.0, marked.1 ++ (if s.connection then ask_answer ∷ [] else null_call ∷ []))
