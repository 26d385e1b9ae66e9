-- ===== src/Peer/Setup.antt =====
-- What the dialog sets on a `PeerSession` before it negotiates, in
-- RemoteControl_rtc/RemoteControl_rtc/PeerSession.cpp: the callbacks, the renderer and the local tracks.
use webrtc_cpp_remote_contro.Base.{
  ℕ, Bool, true, false, not, ◌||◌, List, [], ◌∷◌, Option, none, some, if◌then◌else◌,
}
use webrtc_cpp_remote_contro.Control.Channel.{set_event_callback}
use webrtc_cpp_remote_contro.Peer.Session.{Session}

-- The renderer itself is `Media.Renderer`.
unfoldable pub set_remote_video_target : Session → Session
set_remote_video_target s = record s { remote_video_renderer = true }

unfoldable pub set_state_changed_callback : Session → Bool → Session
set_state_changed_callback s callback = record s { state_changed_callback = callback }

unfoldable pub set_ice_candidate_callback : Session → Bool → Session
set_ice_candidate_callback s callback = record s { ice_candidate_callback = callback }

unfoldable pub set_media_event_callback : Session → Bool → Session
set_media_event_callback s callback = record s { media_event_callback = callback }

-- The control channel reports to the session in any case.
unfoldable pub set_control_event_callback : Session → Bool → Session
unfolding set_event_callback
set_control_event_callback s callback = record s {
  control_event_callback = callback;
  control_channel = elim s.control_channel [
    | none ↦ none
    | some c ↦ some (set_event_callback c true)
  ];
}

-- The settings of an encoding; the factors and rates that are floating point in the source are whole.
pub record Encoding : Type 0 where
  pub scale_resolution_down_by : ℕ
  pub max_framerate : ℕ
  pub min_bitrate_bps : ℕ
  pub max_bitrate_bps : ℕ
  pub bitrate_priority : ℕ
  pub high_network_priority : Bool

abbrev desktop_encoding : Encoding
desktop_encoding = record {
  scale_resolution_down_by = 1;
  max_framerate = 30;
  min_bitrate_bps = 2500000;
  max_bitrate_bps = 20000000;
  bitrate_priority = 2;
  high_network_priority = true;
}

unfoldable pub set_encodings : List (Option Encoding) → List (Option Encoding)
set_encodings [] = []
set_encodings (none ∷ encodings) = none ∷ set_encodings encodings
set_encodings (some e ∷ encodings) = some desktop_encoding ∷ set_encodings encodings

-- What `AddTrack` returns: no sender, or one with its parameters.
abbrev pub Sender : Type 0
Sender = Option (Option (List (Option Encoding)))

-- The result, and the encodings that the sender is given; `PreferCodec` follows in any case.
unfoldable pub add_local_video_track :
    Session → Bool → Sender → Bool × Option (List (Option Encoding))
unfolding set_encodings
add_local_video_track s track none = (false, none)
add_local_video_track s track (some parameters) =
    if not s.connection || not track
    then (false, none)
    else (true, elim parameters [ none ↦ none | some encodings ↦ some (set_encodings encodings) ])

unfoldable pub add_local_audio_track : Session → Bool → Bool → Bool
add_local_audio_track s track sender = if not s.connection || not track then false else sender
