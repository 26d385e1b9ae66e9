-- ===== src/Peer/Ice.antt =====
-- `EnvironmentOrDefault`, `ConfigureIceServers` and `IceServiceSummary` of
-- RemoteControl_rtc/RemoteControl_rtc/PeerSession.cpp. What `_dupenv_s` or `getenv` and
-- `RegGetValueA` find under a name is a parameter.
use webrtc_cpp_remote_contro.Base.{
  ℕ, ◌≡◌, refl, Bool, false, not, ◌&&◌, [], ◌∷◌, ◌++◌, Option, none, some, Bytes, codes, ◌==◌,
  if◌then◌else◌, is_empty,
}

-- The environment of the process, and the user's persistent one, which only Windows has.
pub record Environment : Type 0 where
  pub variable : Bytes → Option Bytes
  pub registry : Bytes → Option Bytes

-- A value that is there and not empty.
abbrev usable : Option Bytes → Option Bytes
usable none = none
usable (some value) = if is_empty value then none else some value

unfoldable pub environment_or_default : Environment → Bytes → Bytes → Bytes
environment_or_default w name fallback = elim (usable (w.variable name)) [
  | some value ↦ value
  | none ↦ elim (usable (w.registry name)) [ some value ↦ value | none ↦ fallback ]
]

abbrev pub stun_uri : Environment → Bytes
stun_uri w =
    environment_or_default w (codes "REMOTE_CONTROL_STUN_URI") (codes "stun:150.158.3.4:3478")

abbrev pub turn_udp_uri : Environment → Bytes
turn_udp_uri w =
    environment_or_default w (codes "REMOTE_CONTROL_TURN_UDP_URI")
      (codes "turn:150.158.3.4:3478?transport=udp")

abbrev pub turn_tcp_uri : Environment → Bytes
turn_tcp_uri w =
    environment_or_default w (codes "REMOTE_CONTROL_TURN_TCP_URI")
      (codes "turn:150.158.3.4:3478?transport=tcp")

abbrev pub turns_uri : Environment → Bytes
turns_uri w = environment_or_default w (codes "REMOTE_CONTROL_TURNS_URI") []

abbrev pub turn_username : Environment → Bytes
turn_username w = environment_or_default w (codes "REMOTE_CONTROL_TURN_USERNAME") []

abbrev pub turn_password : Environment → Bytes
turn_password w = environment_or_default w (codes "REMOTE_CONTROL_TURN_PASSWORD") []

pub record IceServer : Type 0 where
  pub uri : Bytes
  pub username : Bytes
  pub password : Bytes

abbrev pub no_server : IceServer
no_server = record { uri = []; username = []; password = [] }

abbrev turn_enabled : Environment → Bool
turn_enabled w = not (is_empty (turn_username w)) && not (is_empty (turn_password w))

abbrev turn_server : Environment → Bytes → IceServer
turn_server w uri = record { uri = uri; username = turn_username w; password = turn_password w }

-- The array `ice_servers` of a new configuration after the call, by index.
unfoldable pub configure_ice_servers : Environment → ℕ → IceServer
configure_ice_servers w index =
    if index == 0
    then record no_server { uri = stun_uri w }
    else if not (turn_enabled w)
    then no_server
    else if index == 1
    then turn_server w (turn_udp_uri w)
    else if index == 2
    then turn_server w (turn_tcp_uri w)
    else if (index == 3) && not (is_empty (turns_uri w))
    then turn_server w (turns_uri w)
    else no_server

unfoldable pub ice_service_summary : Environment → Bytes
ice_service_summary w =
    stun_uri w
    ++ codes "  |  "
    ++ turn_udp_uri w
    ++ codes "  |  "
    ++ turn_tcp_uri w
    ++ (if turn_enabled w then codes "  [TURN enabled]" else codes "  [TURN credentials required]")

usable-present : (o : Option Bytes) (v : Bytes) → usable o ≡ some v → is_empty v ≡ false
usable-present none v h = cc
usable-present (some []) v h = cc
usable-present (some (c ∷ t)) [] h = cc
usable-present (some (c ∷ t)) (d ∷ u) h = refl

-- An address comes with both credentials.
abbrev Guarded : IceServer → Type 0
Guarded server =
    is_empty server.uri ≡ false
    → (is_empty server.username ≡ false) × (is_empty server.password ≡ false)
