-- ===== src/Control/Channel.antt =====
-- `RemoteControlChannel` of RemoteControl_rtc/RemoteControl_rtc/RemoteControlChannel.cpp. A call
-- returns the new state and what it did to the outside, in order. `GetTickCount` is an argument.
use webrtc_cpp_remote_contro.Base.{
  ℕ, ◌+◌, ◌-◌, ◌*◌, ◌/◌, ◌%◌, ◌^◌, Bool, true, false, not, ◌||◌, List, [], ◌∷◌, ◌++◌, Option, none,
  some, Bytes, codes, ltb, leb, ◌==◌, if◌then◌else◌,
}
use webrtc_cpp_remote_contro.Control.Injector.{
  Input, System, Injected, mouse_move, mouse_button, mouse_button_at, mouse_wheel, key, sign_extend,
}
use webrtc_cpp_remote_contro.Control.Packet.{ControlPacket, rtc1, packet, encode, decode}

-- `RTCDataChannelState` of include/rtc_data_channel.h.
pub data ChannelState : Type 0 where
  connecting open_state closing closed : ChannelState

-- The members of the class. Of the attached channel, only its state is read; of the event callback,
-- only whether it is set.
pub record Channel : Type 0 where
  pub authorized : Bool
  pub round_trip_time_ms : ℕ
  pub remote_supports_synchronized_mouse : Bool
  pub last_received_mouse_x : ℕ
  pub last_received_mouse_y : ℕ
  pub event_callback : Bool
  pub channel : Option ChannelState

-- The texts for the event callback, by what they print.
pub data Event : Type 0 where
  channel_open channel_closed ignored : Event
  button_event : Bytes → Bool → ℕ → ℕ → Bool → Bool → Event
  wheel_event : ℕ → Bool → Event

pub data Effect : Type 0 where
  register_observer unregister_observer close_channel : Effect
  sends : Bytes → Effect
  reports : Event → Effect
  injects : List Input → Effect

unfoldable pub mouse_button_name : ℕ → Bytes
mouse_button_name button =
    if button == 0
    then codes "LEFT"
    else if button == 1
    then codes "RIGHT"
    else if button == 2
    then codes "MIDDLE"
    else codes "UNKNOWN"

abbrev is_some {ℓ} : {A : Type ℓ} → Option A → Bool
is_some none = false
is_some (some a) = true

-- The destructor.
unfoldable pub destroy : Channel → Channel × List Effect
destroy c = (
  record c { channel = none },
  if is_some c.channel then unregister_observer ∷ close_channel ∷ [] else [],
)

unfoldable pub attach : Channel → Option ChannelState → Channel × List Effect
attach c channel = (
  record c {
    round_trip_time_ms = 0;
    remote_supports_synchronized_mouse = false;
    channel = channel;
  },
  (if is_some c.channel then unregister_observer ∷ [] else [])
      ++ (if is_some channel then register_observer ∷ [] else []),
)

unfoldable pub set_authorized : Channel → Bool → Channel
set_authorized c authorized = record c { authorized = authorized }

unfoldable pub set_event_callback : Channel → Bool → Channel
set_event_callback c callback = record c { event_callback = callback }

unfoldable pub report_event : Channel → Event → List Effect
report_event c event = if c.event_callback then reports event ∷ [] else []

unfoldable pub on_state_change : Channel → ChannelState → List Effect
unfolding report_event
on_state_change c open_state = report_event c channel_open
on_state_change c closed = report_event c channel_closed
on_state_change c connecting = []
on_state_change c closing = []

unfoldable pub is_open : Option ChannelState → Bool
is_open (some open_state) = true
is_open _ = false

unfoldable pub send_packet : Channel → ControlPacket → List Effect
unfolding is_open encode
send_packet c p = if is_open c.channel then sends (encode p) ∷ [] else []

unfoldable pub send_ping : Channel → ℕ → List Effect
unfolding send_packet
send_ping c now = send_packet c (packet 6 1 now)

unfoldable pub send_mouse_move : Channel → ℕ → ℕ → List Effect
unfolding send_packet
send_mouse_move c x y = send_packet c (packet 1 x y)

-- `y | button << 16 | down << 24`: the three do not overlap, so this is their sum.
abbrev pub pack_button : ℕ → Bool → ℕ → ℕ
pack_button button down y = y + button * 2 ^ 16 + (if down then 1 else 0) * 2 ^ 24

unfoldable pub send_mouse_button : Channel → ℕ → Bool → ℕ → ℕ → List Effect
unfolding send_packet send_mouse_move
send_mouse_button c button down x y =
    if c.remote_supports_synchronized_mouse
    then send_packet c (packet 5 x (pack_button button down y))
    else send_mouse_move c x y ++ send_packet c (packet 2 button (if down then 1 else 0))

unfoldable pub send_mouse_wheel : Channel → ℕ → List Effect
unfolding send_packet sign_extend
send_mouse_wheel c delta = send_packet c (packet 3 0 (sign_extend delta))

unfoldable pub send_key : Channel → ℕ → Bool → List Effect
unfolding send_packet
send_key c virtual_key down = send_packet c (packet 4 virtual_key (if down then 1 else 0))

abbrev pub injection : Injected → List Effect
injection i = elim i.call [ none ↦ [] | some inputs ↦ injects inputs ∷ [] ]

abbrev pub elapsed : ℕ → ℕ → ℕ
elapsed now sent = (now + 2 ^ 32 - sent) % 2 ^ 32

-- `packet.type == 7`
unfoldable pub on_pong : Channel → ControlPacket → ℕ → Channel
on_pong c p now = record c {
  remote_supports_synchronized_mouse = p.arg1 % 2 == 1;
  round_trip_time_ms =
      if leb (elapsed now p.arg2) 60000
      then (if ltb 0 (elapsed now p.arg2) then elapsed now p.arg2 else 1)
      else c.round_trip_time_ms;
}

unfoldable pub on_ping : Channel → ControlPacket → Channel × List Effect
unfolding send_packet
on_ping c p = (
  record c { remote_supports_synchronized_mouse = p.arg1 % 2 == 1 },
  send_packet c (packet 7 1 p.arg2),
)

abbrev pub remember : Channel → ℕ → ℕ → Channel
remember c x y = record c { last_received_mouse_x = x; last_received_mouse_y = y }

unfoldable pub on_mouse_move : System → Channel → ControlPacket → Channel × List Effect
unfolding mouse_move
on_mouse_move w c p =
    let y = p.arg2 % 2 ^ 16 in (remember c p.arg1 y, injection (mouse_move w p.arg1 y))

-- `packet.type == 2`, on the decoded fields.
unfoldable pub press : System → Channel → ℕ → Bool → Channel × List Effect
unfolding mouse_button mouse_button_name report_event
press w c button down =
    let injected = mouse_button w button down in
    (
      c,
      injection injected
          ++ report_event c (
              button_event (mouse_button_name button) down c.last_received_mouse_x
                c.last_received_mouse_y false injected.result),
    )

unfoldable pub on_mouse_button : System → Channel → ControlPacket → Channel × List Effect
unfolding press
on_mouse_button w c p = press w c (p.arg1 % 2 ^ 8) (not (p.arg2 == 0))

unfoldable pub on_mouse_wheel : System → Channel → ControlPacket → Channel × List Effect
unfolding mouse_wheel report_event
on_mouse_wheel w c p =
    let delta = p.arg2 % 2 ^ 16 in
    let injected = mouse_wheel w delta in
    (c, injection injected ++ report_event c (wheel_event delta injected.result))

unfoldable pub on_key : System → Channel → ControlPacket → Channel × List Effect
unfolding key
on_key w c p = (c, injection (key w p.arg1 (not (p.arg2 == 0))))

-- `packet.type == 5`, on the decoded fields.
unfoldable pub press_at : System → Channel → ℕ → ℕ → ℕ → Bool → Channel × List Effect
unfolding mouse_button_at mouse_button_name report_event
press_at w c x y button down =
    let injected = mouse_button_at w x y button down in
    (
      remember c x y,
      injection injected
          ++ report_event c (button_event (mouse_button_name button) down x y true injected.result),
    )

unfoldable pub on_mouse_button_at : System → Channel → ControlPacket → Channel × List Effect
unfolding press_at
on_mouse_button_at w c p =
    press_at w c p.arg1 (p.arg2 % 2 ^ 16) (p.arg2 / 2 ^ 16 % 2 ^ 8) (p.arg2 / 2 ^ 24 % 2 == 1)

-- `switch (packet.type)` of an authorized controller.
unfoldable pub on_input : System → Channel → ControlPacket → Channel × List Effect
unfolding on_mouse_move on_mouse_button on_mouse_wheel on_key on_mouse_button_at
on_input w c p =
    if p.type == 1
    then on_mouse_move w c p
    else if p.type == 2
    then on_mouse_button w c p
    else if p.type == 3
    then on_mouse_wheel w c p
    else if p.type == 4
    then on_key w c p
    else if p.type == 5
    then on_mouse_button_at w c p
    else (c, [])

unfoldable pub on_packet : System → Channel → ControlPacket → ℕ → Channel × List Effect
unfolding on_ping on_pong on_input report_event
on_packet w c p now =
    if not (p.magic == rtc1) || not (p.version == 1)
    then (c, [])
    else if p.type == 6
    then on_ping c p
    else if p.type == 7
    then (on_pong c p now, [])
    else if not c.authorized
    then (c, if p.type == 2 || p.type == 5 then report_event c ignored else [])
    else on_input w c p

unfoldable pub on_message : System → Channel → Bytes → Bool → ℕ → Channel × List Effect
unfolding on_packet decode
on_message w c buffer binary now =
    if not binary
    then (c, [])
    else elim (decode buffer) [ none ↦ (c, []) | some p ↦ on_packet w c p now ]
