-- ===== src/Tests/Control.antt =====
-- RemoteControl_rtc/RemoteControl_rtc/RemoteControlChannel.cpp on small inputs.
use webrtc_cpp_remote_contro.Base.{
  ◌%◌, ◌^◌, ◌+◌, ◌≡◌, [], ◌∷◌, Bool, true, false, some, refl, arith, All, length,
}
use webrtc_cpp_remote_contro.Base.Int.{pos}
use webrtc_cpp_remote_contro.Control.Injector.{
  sign_extend, System, mouse_input, fill_absolute_mouse_move, wheel, remote_input_marker,
}
use webrtc_cpp_remote_contro.Control.Packet.{packet, encode, decode, decode-encode}
use webrtc_cpp_remote_contro.Control.Channel.{
  Channel, open_state, remember, send_mouse_button, send_mouse_wheel, send_ping, on_message,
}
use webrtc_cpp_remote_contro.Control.Safety.{Harmless, on_message_unauthorized}
use webrtc_cpp_remote_contro.Control.Clicks.{arrive, calls, click_input}
use webrtc_cpp_remote_contro.Control.Button.{
  packet-Fits, synchronized_button_arrives, separate_button_arrives,
}
use webrtc_cpp_remote_contro.Control.Ping.{measured, ping_answered, wheel_arrives}

-- One screen of 1920 by 1080, with an injector that succeeds.
abbrev pub desktop : System
desktop = record {
  virtual_left = pos 0;
  virtual_top = pos 0;
  virtual_width = pos 1920;
  virtual_height = pos 1080;
  primary_width = pos 1920;
  primary_height = pos 1080;
  mul_div = λ a b c. a;
  send_input = length;
}

abbrev pub opened : Bool → Bool → Channel
opened authorized synchronized = record {
  authorized = authorized;
  round_trip_time_ms = 0;
  remote_supports_synchronized_mouse = synchronized;
  last_received_mouse_x = 0;
  last_received_mouse_y = 0;
  event_callback = true;
  channel = some open_state;
}

decode-encode_example : decode (encode (packet 5 400 0x1020300)) ≡ some (packet 5 400 0x1020300)
decode-encode_example =
    decode-encode (packet 5 400 0x1020300) (packet-Fits 5 400 0x1020300 (omega arith) (omega arith))

on_message_unauthorized_example :
    let r = on_message desktop (opened false true) (encode (packet 5 400 0x1020300)) true 17 in
    All Harmless r.1
    × (r.0.authorized ≡ false)
    × (r.0.last_received_mouse_x ≡ 0)
    × (r.0.last_received_mouse_y ≡ 0)
on_message_unauthorized_example =
    on_message_unauthorized desktop (opened false true) (encode (packet 5 400 0x1020300)) true 17
      refl

synchronized_button_arrives_example :
    let r =
      arrive desktop
        (opened true false)
        17
        (send_mouse_button (opened false true) 1 true 400 300) in
    (calls r.1 ≡ (fill_absolute_mouse_move desktop 400 300 ∷ click_input 1 true ∷ []) ∷ [])
    × (r.0 ≡ remember (opened true false) 400 300)
synchronized_button_arrives_example =
    synchronized_button_arrives desktop (opened false true) (opened true false) 400 300 1 true 17
      refl refl refl (omega arith) (omega arith) (omega arith)

separate_button_arrives_example :
    let r =
      arrive desktop
        (opened true false)
        17
        (send_mouse_button (opened false false) 2 false 400 300) in
    (calls r.1 ≡ (fill_absolute_mouse_move desktop 400 300 ∷ []) ∷ (click_input 2 false ∷ []) ∷ [])
    × (r.0 ≡ remember (opened true false) 400 300)
separate_button_arrives_example =
    separate_button_arrives desktop (opened false false) (opened true false) 400 300 2 false 17 refl
      refl refl (omega arith) (omega arith) (omega arith)

ping_answered_example :
    let asked = arrive desktop (opened true false) 5 (send_ping (opened false false) 4294967290) in
    (asked.0 ≡ opened true true)
    × (arrive desktop (opened false false) ((4294967290 + 20) % 2 ^ 32) asked.1
        ≡ (measured (opened false false) 20, []))
ping_answered_example =
    ping_answered desktop desktop (opened false false) (opened true false) 4294967290 20 5 refl refl
      (omega arith) (omega arith)

wheel_arrives_example :
    calls (arrive desktop (opened true false) 17 (send_mouse_wheel (opened false true) 0xff88)).1
    ≡ (mouse_input 0 0 0xffff_ff88 (wheel ∷ []) remote_input_marker ∷ []) ∷ []
unfolding sign_extend
wheel_arrives_example =
    wheel_arrives desktop (opened false true) (opened true false) 0xff88 17 refl refl (omega arith)
