-- ===== src/Control/Button.antt =====
-- A mouse button as the peer's desktop sees it, by
-- RemoteControl_rtc/RemoteControl_rtc/RemoteControlChannel.cpp.
use webrtc_cpp_remote_contro.Base.{
  ℕ, ◌%◌, ◌^◌, ◌≤◌, ◌<◌, ◌≡◌, refl, ap, ◌∙◌, Bool, true, false, [], ◌∷◌, ◌++◌, some, arith,
  if◌then◌else◌, append-nil,
}
use webrtc_cpp_remote_contro.Control.Injector.{System, mouse_move, send, fill_absolute_mouse_move}
use webrtc_cpp_remote_contro.Control.Packet.{ControlPacket, Fits, packet}
use webrtc_cpp_remote_contro.Control.Channel.{
  Channel, open_state, injects, send_packet, send_mouse_move, send_mouse_button, pack_button,
  on_packet, on_mouse_move, on_mouse_button, on_mouse_button_at, press, press_at, remember,
}
use webrtc_cpp_remote_contro.Control.Clicks.{
  arrive, calls, click_input, unpack_y, unpack_button, unpack_down, pack_button_fits, calls-++,
  calls-press_at, calls-press, arrive-send_packet, on_message-encode, on_packet-on_mouse_button_at,
  on_packet-on_mouse_button, on_packet-on_mouse_move,
}

on_mouse_button_at-packet :
    (w : System) (c : Channel) (x y button : ℕ) (down : Bool)
    → y < 2 ^ 16
    → button ≤ 2
    → on_mouse_button_at w c (packet 5 x (pack_button button down y)) ≡ press_at w c x y button down
unfolding on_mouse_button_at
on_mouse_button_at-packet w c x y button down h b = λ i.
    press_at w c x (unpack_y button down y h i) (unpack_button button down y h b i)
      (unpack_down button down y h b i)

on_mouse_button-packet :
    (w : System) (c : Channel) (button : ℕ) (down : Bool)
    → button ≤ 2
    → on_mouse_button w c (packet 2 button (if down then 1 else 0)) ≡ press w c button down
unfolding on_mouse_button
on_mouse_button-packet w c button true b = λ i. press w c (small i) true
  where
    small : button % 2 ^ 8 ≡ button
    small = omega arith
on_mouse_button-packet w c button false b = λ i. press w c (small i) false
  where
    small : button % 2 ^ 8 ≡ button
    small = omega arith

pub packet-Fits : (type a b : ℕ) → a < 2 ^ 16 → b < 2 ^ 32 → Fits (packet type a b)
packet-Fits type a b h k = record { magic_fits = omega arith; arg1_fits = h; arg2_fits = k }

pub bit_fits : (down : Bool) → (if down then 1 else 0) < 2 ^ 32
bit_fits true = omega arith
bit_fits false = omega arith

send_mouse_button_one :
    (s : Channel) (x y button : ℕ) (down : Bool)
    → s.remote_supports_synchronized_mouse ≡ true
    → send_mouse_button s button down x y ≡ send_packet s (packet 5 x (pack_button button down y))
unfolding send_mouse_button
send_mouse_button_one s x y button down m = rw (m, send_mouse_button) refl

send_mouse_button_two :
    (s : Channel) (x y button : ℕ) (down : Bool)
    → s.remote_supports_synchronized_mouse ≡ false
    → send_mouse_button s button down x y
      ≡ send_packet s (packet 1 x y) ++ send_packet s (packet 2 button (if down then 1 else 0))
unfolding send_mouse_button send_mouse_move
send_mouse_button_two s x y button down m = rw (m, send_mouse_button) refl

press_at_place :
    (w : System) (c : Channel) (x y button : ℕ) (down : Bool)
    → (press_at w c x y button down).0 ≡ remember c x y
unfolding press_at
press_at_place w c x y button down = refl

press_place : (w : System) (c : Channel) (button : ℕ) (down : Bool) → (press w c button down).0 ≡ c
unfolding press
press_place w c button down = refl

arrive_pair :
    (w : System) (s c : Channel) (p q : ControlPacket) (now : ℕ)
    → s.channel ≡ some open_state
    → Fits p
    → Fits q
    → arrive w c now (send_packet s p ++ send_packet s q) ≡ (
      (on_packet w (on_packet w c p now).0 q now).0,
      (on_packet w c p now).1 ++ ((on_packet w (on_packet w c p now).0 q now).1 ++ []),
    )
unfolding arrive send_packet
arrive_pair w s c p q now o f g =
    rw (o, send_packet)
      (λ i.
        let r = on_message-encode w c p now f i in
        let l = on_message-encode w r.0 q now g i in (l.0, r.1 ++ (l.1 ++ [])))

on_mouse_move_sent :
    (w : System) (c : Channel) (x y : ℕ)
    → y < 2 ^ 16
    → on_mouse_move w c (packet 1 x y)
      ≡ (remember c x y, injects (fill_absolute_mouse_move w x y ∷ []) ∷ [])
unfolding on_mouse_move mouse_move send
on_mouse_move_sent w c x y h =
    λ i. (remember c x (small i), injects (fill_absolute_mouse_move w x (small i) ∷ []) ∷ [])
  where
    small : y % 2 ^ 16 ≡ y
    small = omega arith

-- A button of a peer that reads synchronized buttons, sent over an open channel with coordinates of
-- 16 bits and one of the three buttons, reaches an authorized receiver as one call of `SendInput`
-- with the move and the button, in this order, and is remembered as the place of the pointer.
pub synchronized_button_arrives :
    (w : System) (s c : Channel) (x y button : ℕ) (down : Bool) (now : ℕ)
    → s.channel ≡ some open_state
    → s.remote_supports_synchronized_mouse ≡ true
    → c.authorized ≡ true
    → x < 2 ^ 16
    → y < 2 ^ 16
    → button ≤ 2
    → let r = arrive w c now (send_mouse_button s button down x y) in
      (calls r.1 ≡ (fill_absolute_mouse_move w x y ∷ click_input button down ∷ []) ∷ [])
      × (r.0 ≡ remember c x y)
synchronized_button_arrives w s c x y button down now o m a hx hy b = (
  ap (λ r. calls r.1) way
      ∙ ap calls (append-nil (press_at w c x y button down).1)
      ∙ calls-press_at w c x y button down b,
  ap (λ r. r.0) way ∙ press_at_place w c x y button down,
)
  where
    way :
        arrive w c now (send_mouse_button s button down x y)
        ≡ ((press_at w c x y button down).0, (press_at w c x y button down).1 ++ [])
    way =
        ap (arrive w c now) (send_mouse_button_one s x y button down m)
        ∙ arrive-send_packet w s c _ now o
            (packet-Fits 5 x _ hx (pack_button_fits button down y hy b))
        ∙ ap (λ r. (r.0, r.1 ++ []))
            (on_packet-on_mouse_button_at w c x _ now a
              ∙ on_mouse_button_at-packet w c x y button down hy b)

-- The same button, of a peer that does not say it reads synchronized buttons, arrives as two calls of
-- `SendInput`: the move and then the button; the place of the pointer is remembered as well.
pub separate_button_arrives :
    (w : System) (s c : Channel) (x y button : ℕ) (down : Bool) (now : ℕ)
    → s.channel ≡ some open_state
    → s.remote_supports_synchronized_mouse ≡ false
    → c.authorized ≡ true
    → x < 2 ^ 16
    → y < 2 ^ 16
    → button ≤ 2
    → let r = arrive w c now (send_mouse_button s button down x y) in
      (calls r.1 ≡ (fill_absolute_mouse_move w x y ∷ []) ∷ (click_input button down ∷ []) ∷ [])
      × (r.0 ≡ remember c x y)
unfolding calls
separate_button_arrives w s c x y button down now o m a hx hy b = (
  ap (λ r. calls r.1) way
      ∙ calls-++ (injects (fill_absolute_mouse_move w x y ∷ []) ∷ [])
          ((press w (remember c x y) button down).1 ++ [])
      ∙ ap (λ t. (fill_absolute_mouse_move w x y ∷ []) ∷ t)
          (ap calls (append-nil (press w (remember c x y) button down).1)
            ∙ calls-press w (remember c x y) button down b),
  ap (λ r. r.0) way ∙ press_place w (remember c x y) button down,
)
  where
    click : ControlPacket
    click = packet 2 button (if down then 1 else 0)

    moved :
        on_packet w c (packet 1 x y) now
        ≡ (remember c x y, injects (fill_absolute_mouse_move w x y ∷ []) ∷ [])
    moved = on_packet-on_mouse_move w c x y now a ∙ on_mouse_move_sent w c x y hy

    pressed : on_packet w (remember c x y) click now ≡ press w (remember c x y) button down
    pressed =
        on_packet-on_mouse_button w (remember c x y) button _ now a
        ∙ on_mouse_button-packet w (remember c x y) button down b

    way : arrive w c now (send_mouse_button s button down x y) ≡ (
      (press w (remember c x y) button down).0,
      (injects (fill_absolute_mouse_move w x y ∷ []) ∷ [])
          ++ ((press w (remember c x y) button down).1 ++ []),
    )
    way =
        ap (arrive w c now) (send_mouse_button_two s x y button down m)
        ∙ arrive_pair w s c (packet 1 x y) click now o (packet-Fits 1 x y hx (omega arith))
            (packet-Fits 2 button _ (omega arith) (bit_fits down))
        ∙ ap (λ r. ((on_packet w r.0 click now).0, r.1 ++ ((on_packet w r.0 click now).1 ++ [])))
            moved
        ∙ ap (λ r. (r.0, (injects (fill_absolute_mouse_move w x y ∷ []) ∷ []) ++ (r.1 ++ [])))
            pressed
