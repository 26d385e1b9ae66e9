-- ===== src/Peer/Life.antt =====
-- The life of a `PeerSession`, its control channel and its track, in
-- RemoteControl_rtc/RemoteControl_rtc/PeerSession.cpp.
use webrtc_cpp_remote_contro.Base.{
  Bool, true, false, not, ◌&&◌, ◌||◌, List, [], ◌∷◌, ◌++◌, map, Option, none, some, Bytes, codes,
  if◌then◌else◌, bytes_eq,
}
use webrtc_cpp_remote_contro.Base.Int.{pos}
use webrtc_cpp_remote_contro.Control.Channel.{
  Channel, ChannelState, attach, destroy, set_authorized, set_event_callback,
}
use webrtc_cpp_remote_contro.Peer.Session.{
  SessionState, new, connecting, connected, disconnected, failed, closed, Session,
  remote_video_track_added, Effect, deregister_observer, register_observer, close_connection,
  add_renderer, remove_renderer, create_channel, get_stats, control, Outcome, update_state,
  notify_media_event,
}

-- A session as the constructor leaves it.
abbrev pub new_session : Bool → Session
new_session enable_remote_control = record {
  state = new;
  connection = false;
  is_closed = false;
  local_description_announced = false;
  remote_description_set = false;
  pending_local_candidates = [];
  pending_remote_candidates = [];
  pending_local_sdp = [];
  pending_local_sdp_type = [];
  state_changed_callback = false;
  ice_candidate_callback = false;
  media_event_callback = false;
  control_event_callback = false;
  pending_sdp_callback = false;
  remote_video_track = false;
  remote_video_renderer = false;
  control_channel = none;
  remote_control_authorized = false;
  enable_remote_control = enable_remote_control;
  stats_alive = true;
  stats_pending = false;
}

-- `Create`, without the configuration that the factory is given: `none` is an engine without a factory, `some false` a factory that creates nothing.
unfoldable pub create : Session → Option Bool → Outcome × Bool
unfolding update_state
create s none = ((record s { stats_alive = true; is_closed = false }, []), false)
create s (some false) = (
  update_state (record s { stats_alive = true; is_closed = false; connection = false }) failed,
  false,
)
create s (some true) = (
  (record s { stats_alive = true; is_closed = false; connection = true }, register_observer ∷ []),
  true,
)

abbrev new_channel : Channel
new_channel = record {
  authorized = false;
  round_trip_time_ms = 0;
  remote_supports_synchronized_mouse = false;
  last_received_mouse_x = 0;
  last_received_mouse_y = 0;
  event_callback = false;
  channel = none;
}

-- The last statements of `CreateControlChannel` and of `OnDataChannel`.
unfoldable pub attach_control : Session → Channel → ChannelState → Outcome
unfolding attach set_authorized set_event_callback
attach_control s c state =
    let attached =
      attach (set_authorized (set_event_callback c true) s.remote_control_authorized)
        (some state) in
    (record s { control_channel = some attached.0 }, map control attached.1)

-- `CreateControlChannel`, with what `CreateDataChannel` returns.
unfoldable pub create_control_channel : Session → Option ChannelState → Outcome × Bool
unfolding attach_control
create_control_channel s created =
    if not s.connection || not s.enable_remote_control
    then ((s, []), false)
    else elim s.control_channel [
      | some c ↦ ((s, []), true)
      | none ↦ elim created [
        | none ↦ ((s, create_channel ∷ []), false)
        | some state ↦
            let attached = attach_control s new_channel state in
            ((attached.0, create_channel ∷ attached.1), true)
      ]
    ]

abbrev pub control_or_new : Option Channel → Channel
control_or_new none = new_channel
control_or_new (some c) = c

-- `OnDataChannel`, with the label and the state of the channel.
unfoldable pub on_data_channel : Session → Option (Bytes × ChannelState) → Outcome
unfolding attach_control
on_data_channel s none = (s, [])
on_data_channel s (some (label, state)) =
    if not s.enable_remote_control || not (bytes_eq label (codes "remote-control"))
    then (s, [])
    else attach_control s (control_or_new s.control_channel) state

unfoldable pub set_remote_control_authorized : Session → Bool → Session
unfolding set_authorized
set_remote_control_authorized s authorized = record s {
  remote_control_authorized = authorized;
  control_channel = elim s.control_channel [
    | none ↦ none
    | some c ↦ some (set_authorized c authorized)
  ];
}

-- `OnTrack`, with the kind of the receiver's track.
unfoldable pub on_track : Session → Option Bytes → Outcome
unfolding notify_media_event
on_track s none = (s, [])
on_track s (some kind) =
    if not s.remote_video_renderer || not (bytes_eq kind (codes "video")) then (s, []) else (
      record s { remote_video_track = true },
      add_renderer ∷ notify_media_event s remote_video_track_added (pos 0) (pos 0),
    )

abbrev destroyed : Option Channel → List Effect
destroyed none = []
destroyed (some c) = map control (destroy c).1

unfoldable pub close : Session → Outcome
unfolding update_state destroy
close s =
    let quiet = record s { stats_alive = false } in
    let shut = record quiet {
      is_closed = true;
      pending_sdp_callback = false;
      ice_candidate_callback = false;
      media_event_callback = false;
      control_event_callback = false;
      pending_local_candidates = [];
      pending_remote_candidates = [];
    } in
    let torn =
      update_state
        (record shut {
          remote_video_track = false;
          remote_video_renderer = false;
          control_channel = none;
          connection = false;
        })
        closed in
    if s.is_closed then (quiet, []) else if not s.connection then (shut, []) else (
      torn.0,
      (if s.remote_video_track && s.remote_video_renderer then remove_renderer ∷ [] else [])
          ++ destroyed s.control_channel
          ++ (deregister_observer ∷ close_connection ∷ torn.1),
    )

-- `RequestStats`, with whether a callback is given, and the end of the request.
unfoldable pub request_stats : Session → Bool → Outcome
request_stats s callback =
    if not s.connection || not callback || not s.stats_alive || s.stats_pending
    then (s, [])
    else (record s { stats_pending = true }, get_stats ∷ [])

-- The result says whether the callback is called.
unfoldable pub stats_arrived : Session → Session × Bool
stats_arrived s = (record s { stats_pending = false }, s.stats_alive)

-- The states that `OnPeerConnectionState` distinguishes: the one that it ignores is `new`.
unfoldable pub on_peer_connection_state : Session → SessionState → Outcome
unfolding update_state
on_peer_connection_state s new = (s, [])
on_peer_connection_state s connecting = update_state s connecting
on_peer_connection_state s connected = update_state s connected
on_peer_connection_state s disconnected = update_state s disconnected
on_peer_connection_state s failed = update_state s failed
on_peer_connection_state s closed = update_state s closed
