-- ===== src/Control/Clicks.antt =====
-- The way of a mouse button from `SendMouseButton` to the injector of the peer, in
-- RemoteControl_rtc/RemoteControl_rtc/RemoteControlChannel.cpp.
use webrtc_cpp_remote_contro.Base.{
  ℕ, ◌/◌, ◌%◌, ◌^◌, ◌≤◌, ◌<◌, ◌≡◌, refl, ap, ◌∙◌, Bool, true, false, List, [], ◌∷◌, ◌++◌, none,
  some, arith, ltb, ◌==◌, Bool-cases, inl, inr,
}
use webrtc_cpp_remote_contro.Control.Injector.{
  Input, Injected, System, mouse_input, button_flag, remote_input_marker, send, mouse_button,
  mouse_button_at, fill_absolute_mouse_move, fill_mouse_button,
}
use webrtc_cpp_remote_contro.Control.Packet.{ControlPacket, Fits, packet, encode, decode-encode}
use webrtc_cpp_remote_contro.Control.Channel.{
  Channel, open_state, Event, injection, press, press_at, register_observer, unregister_observer,
  close_channel, Effect, sends, injects, reports, report_event, send_packet, pack_button, on_packet,
  on_input, on_mouse_move, on_mouse_button, on_mouse_button_at, on_message,
}

-- The peer handles, in order, what the effects send.
unfoldable pub arrive : System → Channel → ℕ → List Effect → Channel × List Effect
unfolding on_message
arrive w c now [] = (c, [])
arrive w c now (sends m ∷ rest) =
    let r = on_message w c m true now in
    let later = arrive w r.0 now rest in (later.0, r.1 ++ later.1)
arrive w c now (e ∷ rest) = arrive w c now rest

-- The calls of `SendInput`.
unfoldable pub calls : List Effect → List (List Input)
calls [] = []
calls (injects inputs ∷ es) = inputs ∷ calls es
calls (_ ∷ es) = calls es

pub on_message-encode :
    (w : System) (c : Channel) (p : ControlPacket) (now : ℕ)
    → Fits p
    → on_message w c (encode p) true now ≡ on_packet w c p now
unfolding on_message
on_message-encode w c p now f =
    λ i. elim (decode-encode p f i) [ none ↦ (c, []) | some q ↦ on_packet w c q now ]

pub unpack_y :
    (button : ℕ) (down : Bool) (y : ℕ) → y < 2 ^ 16 → pack_button button down y % 2 ^ 16 ≡ y
unpack_y button true y h = omega arith
unpack_y button false y h = omega arith

pub unpack_button :
    (button : ℕ) (down : Bool) (y : ℕ)
    → y < 2 ^ 16
    → button ≤ 2
    → pack_button button down y / 2 ^ 16 % 2 ^ 8 ≡ button
unpack_button button true y h b = omega arith
unpack_button button false y h b = omega arith

pub unpack_down :
    (button : ℕ) (down : Bool) (y : ℕ)
    → y < 2 ^ 16
    → button ≤ 2
    → (pack_button button down y / 2 ^ 24 % 2 == 1) ≡ down
unpack_down button true y h b = ground arith
unpack_down button false y h b = ground arith

pub pack_button_fits :
    (button : ℕ) (down : Bool) (y : ℕ)
    → y < 2 ^ 16
    → button ≤ 2
    → pack_button button down y < 2 ^ 32
pack_button_fits button true y h b = omega arith
pack_button_fits button false y h b = omega arith

-- The input of a button.
abbrev pub click_input : ℕ → Bool → Input
click_input button down = mouse_input 0 0 0 (button_flag button down ∷ []) remote_input_marker

fill_mouse_button_lem :
    (button : ℕ) (down : Bool)
    → button ≤ 2
    → fill_mouse_button button down ≡ some (click_input button down)
unfolding fill_mouse_button
fill_mouse_button_lem button down b = elim (Bool-cases (ltb 2 button)) [
  | inl e ↦ absurd (ground arith)
  | inr e ↦ rw (e, fill_mouse_button) refl
]

pub calls-++ : (es fs : List Effect) → calls (es ++ fs) ≡ calls es ++ calls fs
unfolding calls
calls-++ [] fs = refl
calls-++ (injects inputs ∷ es) fs = ap (λ t. inputs ∷ t) (calls-++ es fs)
calls-++ (sends m ∷ es) fs = calls-++ es fs
calls-++ (reports e ∷ es) fs = calls-++ es fs
calls-++ (register_observer ∷ es) fs = calls-++ es fs
calls-++ (unregister_observer ∷ es) fs = calls-++ es fs
calls-++ (close_channel ∷ es) fs = calls-++ es fs

report_event-calls : (c : Channel) (e : Event) → calls (report_event c e) ≡ []
unfolding calls report_event
report_event-calls c e = elim (Bool-cases c.event_callback) [
  | inl h ↦ rw (h) refl
  | inr h ↦ rw (h) refl
]

pub calls-injection :
    (c : Channel) (i : Injected) (e : Event) (inputs : List Input)
    → i.call ≡ some inputs
    → calls (injection i ++ report_event c e) ≡ inputs ∷ []
unfolding calls
calls-injection c i e inputs h = calls-++ (injection i) (report_event c e) ∙ (λ k.
    calls (elim (h k) [ none ↦ [] | some inputs ↦ injects inputs ∷ [] ])
    ++ report_event-calls c e k)

mouse_button_lem :
    (w : System) (button : ℕ) (down : Bool)
    → button ≤ 2
    → (mouse_button w button down).call ≡ some (click_input button down ∷ [])
unfolding mouse_button send
mouse_button_lem w button down b = rw (fill_mouse_button_lem button down b, mouse_button) refl

mouse_button_at_lem :
    (w : System) (x y button : ℕ) (down : Bool)
    → button ≤ 2
    → (mouse_button_at w x y button down).call
      ≡ some (fill_absolute_mouse_move w x y ∷ click_input button down ∷ [])
unfolding mouse_button_at send
mouse_button_at_lem w x y button down b =
    rw (fill_mouse_button_lem button down b, mouse_button_at) refl

pub calls-press_at :
    (w : System) (c : Channel) (x y button : ℕ) (down : Bool)
    → button ≤ 2
    → calls (press_at w c x y button down).1
      ≡ (fill_absolute_mouse_move w x y ∷ click_input button down ∷ []) ∷ []
unfolding press_at
calls-press_at w c x y button down b =
    calls-injection c (mouse_button_at w x y button down) _ _
      (mouse_button_at_lem w x y button down b)

pub calls-press :
    (w : System) (c : Channel) (button : ℕ) (down : Bool)
    → button ≤ 2
    → calls (press w c button down).1 ≡ (click_input button down ∷ []) ∷ []
unfolding press
calls-press w c button down b =
    calls-injection c (mouse_button w button down) _ _ (mouse_button_lem w button down b)

pub arrive-send_packet :
    (w : System) (s c : Channel) (p : ControlPacket) (now : ℕ)
    → s.channel ≡ some open_state
    → Fits p
    → arrive w c now (send_packet s p) ≡ ((on_packet w c p now).0, (on_packet w c p now).1 ++ [])
unfolding arrive send_packet
arrive-send_packet w s c p now o f =
    rw (o, send_packet)
      (λ i. ((on_message-encode w c p now f i).0, (on_message-encode w c p now f i).1 ++ []))

pub on_packet-on_mouse_button_at :
    (w : System) (c : Channel) (x arg : ℕ) (now : ℕ)
    → c.authorized ≡ true
    → on_packet w c (packet 5 x arg) now ≡ on_mouse_button_at w c (packet 5 x arg)
unfolding on_packet on_input
on_packet-on_mouse_button_at w c x arg now h = rw (h, on_packet) refl

pub on_packet-on_mouse_button :
    (w : System) (c : Channel) (button arg : ℕ) (now : ℕ)
    → c.authorized ≡ true
    → on_packet w c (packet 2 button arg) now ≡ on_mouse_button w c (packet 2 button arg)
unfolding on_packet on_input
on_packet-on_mouse_button w c x arg now h = rw (h, on_packet) refl

pub on_packet-on_mouse_move :
    (w : System) (c : Channel) (x y : ℕ) (now : ℕ)
    → c.authorized ≡ true
    → on_packet w c (packet 1 x y) now ≡ on_mouse_move w c (packet 1 x y)
unfolding on_packet on_input
on_packet-on_mouse_move w c x y now h = rw (h, on_packet) refl
