-- ===== src/Peer/Closing.antt =====
-- What `Close` of RemoteControl_rtc/RemoteControl_rtc/PeerSession.cpp leaves behind.
use webrtc_cpp_remote_contro.Base.{◌≡◌, true, false, All}
use webrtc_cpp_remote_contro.Control.Channel.{Channel}
use webrtc_cpp_remote_contro.Control.Channel
use webrtc_cpp_remote_contro.Peer.Session.{
  Session, Effect, sdp_ready, candidate_ready, media_event, control_event, add_candidate, ask_offer,
  ask_answer, set_local_description, set_remote_description, Outcome,
}

-- Nothing is said to the other side, to the dialog's media and control events or to the connection.
abbrev pub Silent : Effect → Type 0
Silent (sdp_ready sdp type) = ⊥
Silent (candidate_ready c) = ⊥
Silent (media_event event width height) = ⊥
Silent (control_event detail) = ⊥
Silent (add_candidate c) = ⊥
Silent ask_offer = ⊥
Silent ask_answer = ⊥
Silent (set_local_description sdp type) = ⊥
Silent (set_remote_description sdp type) = ⊥
Silent _ = Unit

abbrev pub Hushed : Session → Type 0
Hushed s = (s.is_closed ≡ true) × (s.connection ≡ false)

abbrev Stays : Outcome → Type 0
Stays r = Hushed r.0 × All Silent r.1
