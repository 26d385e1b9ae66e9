-- ===== src/Tests/Dialog.antt =====
-- The user's window and the choice of codecs on small inputs.
use mathlib.Core.List.{Perm}
use webrtc_cpp_remote_contro.Base.{
  ◌≡◌, refl, true, false, not, List, [], ◌∷◌, ◌++◌, Option, none, some, Bytes, codes, All, ◌==◌,
  bytes_eq, bytes_key, nat_eq,
}
use webrtc_cpp_remote_contro.Base.Int.{ℤ}
use webrtc_cpp_remote_contro.Control.Channel.{Channel, open_state}
use webrtc_cpp_remote_contro.Peer.Session.{Session, connecting}
use webrtc_cpp_remote_contro.Peer.Life.{new_session}
use webrtc_cpp_remote_contro.Peer.Codecs.{
  Codec, preferred_order, stricmp_eq, is_codec, select, h264_score,
}
use webrtc_cpp_remote_contro.Peer.Preference.{IsAscending, preferred_order_lem}
use webrtc_cpp_remote_contro.Dialog.State.{Dialog}
use webrtc_cpp_remote_contro.Dialog.Sessions.{Answers}
use webrtc_cpp_remote_contro.Dialog.Control.{send_remote_input}
use webrtc_cpp_remote_contro.Dialog.Run.{Event, connect_user_clicked, hangup_clicked, run}
use webrtc_cpp_remote_contro.Dialog.Inputs.{Reaches, inputs_directed}

abbrev pub bob : Bytes
bob = codes "bob"

abbrev pub willing : Answers
willing = record {
  factory = some true;
  control_state = some open_state;
  desktop_starts = true;
  video_sender = none;
  audio_starts = true;
  audio_sender = true;
}

abbrev pub idle : Dialog
idle = record {
  active_remote_user_id = [];
  keyboard_control_active = false;
  has_previous_media_stats = false;
  stats_start_after_ms = 0;
  sessions = [];
  online_users = bob ∷ [];
  allow_control = true;
  media_checks = record {
    send_video = false;
    receive_video = true;
    send_audio = true;
    receive_audio = true;
  };
  desktop_track = false;
  audio_track = false;
  recording = false;
  signaling_connected = true;
  connect_enabled = true;
}

abbrev no_number : Bytes → Option ℤ
no_number text = none

abbrev call_bob : List Event
call_bob = connect_user_clicked willing (some bob) ∷ []

abbrev bob_channel : Channel
bob_channel = record {
  authorized = false;
  round_trip_time_ms = 0;
  remote_supports_synchronized_mouse = false;
  last_received_mouse_x = 0;
  last_received_mouse_y = 0;
  event_callback = true;
  channel = some open_state;
}

abbrev bob_session : Session
bob_session = record (new_session true) {
  state = connecting;
  connection = true;
  state_changed_callback = true;
  ice_candidate_callback = true;
  media_event_callback = true;
  control_event_callback = true;
  pending_sdp_callback = true;
  remote_video_renderer = true;
  control_channel = some bob_channel;
}

abbrev talking : Dialog
talking = record idle { active_remote_user_id = bob; keyboard_control_active = true }

inputs_directed_example : All (Reaches bob) (
    send_remote_input
      (λ x y. some (5, 6))
      0x100
      0x41
      0
      (run bytes_eq no_number (hangup_clicked ∷ call_bob) talking).0)
inputs_directed_example =
    inputs_directed bytes_eq no_number (hangup_clicked ∷ call_bob) talking (λ x y. some (5, 6))
      0x100 0x41 0 (tt, (tt, tt))

abbrev codec : Bytes → Bytes → Option Codec
codec type line = some (record { mime_type = type; sdp_fmtp_line = line })

abbrev baseline : Option Codec
baseline = codec (codes "video/H264") (codes "packetization-mode=1;profile-level-id=42e01f")

abbrev high : Option Codec
high = codec (codes "video/h264") (codes "profile-level-id=640C1F;packetization-mode=1")

abbrev vp8 : Option Codec
vp8 = codec (codes "video/VP8") []

abbrev capabilities : List (Option Codec)
capabilities = baseline ∷ vp8 ∷ none ∷ high ∷ []

abbrev wanted : Bytes
wanted = codes "video/H264"

ordered : preferred_order wanted capabilities ≡ some (high ∷ baseline ∷ vp8 ∷ none ∷ [])
unfolding preferred_order
ordered = refl

same_type : stricmp_eq wanted wanted ≡ true
unfolding stricmp_eq
same_type = refl

preferred_order_lem_example :
    Perm (high ∷ baseline ∷ vp8 ∷ none ∷ []) capabilities
    × ((first : List (Option Codec)) × (high ∷ baseline ∷ vp8 ∷ none ∷ []
          ≡ first ++ select (λ c. not (is_codec wanted c)) capabilities)
        × All (λ c. is_codec wanted c ≡ true) first
        × IsAscending h264_score first
        × (select (λ c. h264_score c == 20) first
            ≡ select (λ c. h264_score c == 20) (select (is_codec wanted) capabilities)))
preferred_order_lem_example =
    preferred_order_lem wanted capabilities (high ∷ baseline ∷ vp8 ∷ none ∷ []) 20 same_type ordered
