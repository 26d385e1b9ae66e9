-- ===== src/Peer/Negotiation.antt =====
-- A negotiation of RemoteControl_rtc/RemoteControl_rtc/PeerSession.cpp as a sequence of what the
-- dialog, the other side and libwebrtc bring.
use webrtc_cpp_remote_contro.Base.{Bool, if◌then◌else◌, List, [], ◌∷◌, ◌++◌, Option, Bytes}
use webrtc_cpp_remote_contro.Base.Int.{ℤ}
use webrtc_cpp_remote_contro.Control.Channel.{ChannelState}
use webrtc_cpp_remote_contro.Peer.Session.{
  SessionState, Candidate, Session, Outcome, apply_remote_answer, add_remote_candidate,
  on_ice_candidate, description_created, remote_offer_set, mark_remote_description_set,
  announce_local_description, fail_negotiation, notify_media_event, notify_control_event,
  remote_video_first_frame, remote_video_frame_conversion_failed,
}
use webrtc_cpp_remote_contro.Peer.Life.{on_data_channel, on_track, on_peer_connection_state}

-- What arrives while a description is negotiated. `frame_reported` and `control_reported` are calls of
-- the callbacks that a session gives to its renderer and to its control channel; one that had begun
-- may still come when the session is closed.
pub data Signal : Type 0 where
  answer_received : Bytes → Signal
  candidate_received candidate_gathered : Candidate → Signal
  created : Bytes → Bytes → Signal
  local_set remote_offer_applied remote_answer_applied refused : Signal
  connection_changed : SessionState → Signal
  channel_received : Option (Bytes × ChannelState) → Signal
  track_received : Option Bytes → Signal
  frame_reported : Bool → ℤ → ℤ → Signal
  control_reported : Bytes → Signal

unfoldable pub handle : Session → Signal → Outcome
unfolding apply_remote_answer add_remote_candidate on_ice_candidate description_created
    announce_local_description remote_offer_set mark_remote_description_set fail_negotiation
    on_peer_connection_state on_data_channel on_track notify_media_event notify_control_event
handle s (answer_received sdp) = apply_remote_answer s sdp
handle s (candidate_received c) = add_remote_candidate s c
handle s (candidate_gathered c) = on_ice_candidate s c
handle s (created sdp type) = description_created s sdp type
handle s local_set = announce_local_description s
handle s remote_offer_applied = remote_offer_set s
handle s remote_answer_applied = mark_remote_description_set s
handle s refused = fail_negotiation s
handle s (connection_changed state) = on_peer_connection_state s state
handle s (channel_received channel) = on_data_channel s channel
handle s (track_received kind) = on_track s kind
handle s (frame_reported success width height) = (
  s,
  notify_media_event s
      (if success then remote_video_first_frame else remote_video_frame_conversion_failed) width
      height,
)
handle s (control_reported detail) = (s, notify_control_event s detail)

unfoldable pub negotiate : Session → List Signal → Outcome
unfolding handle
negotiate s [] = (s, [])
negotiate s (e ∷ es) =
    let first = handle s e in let rest = negotiate first.0 es in (rest.0, first.1 ++ rest.1)
