-- ===== src/Control/Ping.antt =====
-- The ping of `SendPing` and its answer, the wheel and the keys, in
-- RemoteControl_rtc/RemoteControl_rtc/RemoteControlChannel.cpp.
use webrtc_cpp_remote_contro.Base.{
  ℕ, ◌+◌, ◌%◌, ◌^◌, ◌≤◌, ◌<◌, ◌≡◌, refl, ap, ◌∙◌, true, [], ◌∷◌, ◌++◌, some, arith, ltb, leb,
  if◌then◌else◌, append-nil, Bool-cases, inl, inr,
}
use webrtc_cpp_remote_contro.Control.Injector.{
  System, mouse_input, wheel, remote_input_marker, send, sign_extend, mouse_wheel,
}
use webrtc_cpp_remote_contro.Control.Packet.{packet}
use webrtc_cpp_remote_contro.Control.Channel.{
  Channel, open_state, injection, wheel_event, report_event, send_packet, send_ping,
  send_mouse_wheel, elapsed, on_packet, on_input, on_ping, on_pong, on_mouse_wheel,
}
use webrtc_cpp_remote_contro.Control.Clicks.{arrive, calls, arrive-send_packet, calls-injection}
use webrtc_cpp_remote_contro.Control.Button.{packet-Fits}

-- The time between a ping and its answer, across a wrap of the 32-bit tick count.
elapsed_lem : (t d : ℕ) → t < 2 ^ 32 → d ≤ 60000 → elapsed ((t + d) % 2 ^ 32) t ≡ d
elapsed_lem t d h k = omega arith

-- A channel that has measured a round trip of `d` milliseconds.
abbrev pub measured : Channel → ℕ → Channel
measured s d = record s {
  remote_supports_synchronized_mouse = true;
  round_trip_time_ms = if ltb 0 d then d else 1;
}

on_pong_lem :
    (s : Channel) (t d : ℕ)
    → t < 2 ^ 32
    → d ≤ 60000
    → on_pong s (packet 7 1 t) ((t + d) % 2 ^ 32) ≡ measured s d
unfolding on_pong
on_pong_lem s t d h k =
    λ i. record s { remote_supports_synchronized_mouse = true; round_trip_time_ms = (time i) }
  where
    small : leb d 60000 ≡ true
    small = ground arith

    time :
        (if leb (elapsed ((t + d) % 2 ^ 32) t) 60000
          then (if ltb 0 (elapsed ((t + d) % 2 ^ 32) t) then elapsed ((t + d) % 2 ^ 32) t else 1)
          else s.round_trip_time_ms)
        ≡ (if ltb 0 d then d else 1)
    time =
        ap (λ e. if leb e 60000 then (if ltb 0 e then e else 1) else s.round_trip_time_ms)
          (elapsed_lem t d h k)
        ∙ ap (λ b. if b then (if ltb 0 d then d else 1) else s.round_trip_time_ms) small

on_packet-on_ping :
    (w : System) (c : Channel) (t now : ℕ)
    → on_packet w c (packet 6 1 t) now
      ≡ (record c { remote_supports_synchronized_mouse = true }, send_packet c (packet 7 1 t))
unfolding on_packet on_ping
on_packet-on_ping w c t now = refl

on_packet-on_pong :
    (w : System) (s : Channel) (t now : ℕ)
    → on_packet w s (packet 7 1 t) now ≡ (on_pong s (packet 7 1 t) now, [])
unfolding on_packet
on_packet-on_pong w s t now = refl

-- A ping sent at the tick `t` over an open channel, to a peer whose channel is open too, tells the
-- peer that buttons may be synchronized; its answer, back after `d` milliseconds, at most 60000,
-- tells the sender the same and sets the round-trip time to `d`, or to 1 where `d` is 0, also where
-- the tick count wraps. The sender answers nothing. No authorization is needed.
pub ping_answered :
    (w v : System) (s c : Channel) (t d between : ℕ)
    → s.channel ≡ some open_state
    → c.channel ≡ some open_state
    → t < 2 ^ 32
    → d ≤ 60000
    → let asked = arrive w c between (send_ping s t) in
      (asked.0 ≡ record c { remote_supports_synchronized_mouse = true })
      × (arrive v s ((t + d) % 2 ^ 32) asked.1 ≡ (measured s d, []))
unfolding send_ping
ping_answered w v s c t d between o oc h k = (
  ap (λ r. r.0) asked,
  ap (λ r. arrive v s now r.1) asked
      ∙ ap (arrive v s now) (append-nil (send_packet c (packet 7 1 t)))
      ∙ arrive-send_packet v c s (packet 7 1 t) now oc (packet-Fits 7 1 t (omega arith) h)
      ∙ ap (λ r. (r.0, r.1 ++ [])) (on_packet-on_pong v s t now)
      ∙ ap (λ r. (r, [])) (on_pong_lem s t d h k),
)
  where
    now : ℕ
    now = (t + d) % 2 ^ 32

    asked : arrive w c between (send_ping s t) ≡ (
      record c { remote_supports_synchronized_mouse = true },
      send_packet c (packet 7 1 t) ++ [],
    )
    asked =
        arrive-send_packet w s c (packet 6 1 t) between o (packet-Fits 6 1 t (omega arith) h)
        ∙ ap (λ r. (r.0, r.1 ++ [])) (on_packet-on_ping w c t between)

on_packet-on_mouse_wheel :
    (w : System) (c : Channel) (arg : ℕ) (now : ℕ)
    → c.authorized ≡ true
    → on_packet w c (packet 3 0 arg) now ≡ on_mouse_wheel w c (packet 3 0 arg)
unfolding on_packet on_input
on_packet-on_mouse_wheel w c arg now h = rw (h, on_packet) refl

low_half : (delta : ℕ) → delta < 2 ^ 16 → sign_extend delta % 2 ^ 16 ≡ delta
unfolding sign_extend
low_half delta h = elim (Bool-cases (ltb delta 0x8000)) [
  | inl e ↦ rw (e, sign_extend) (omega arith)
  | inr e ↦ rw (e, sign_extend) (omega arith)
]

sign_extend_fits : (delta : ℕ) → delta < 2 ^ 16 → sign_extend delta < 2 ^ 32
unfolding sign_extend
sign_extend_fits delta h = elim (Bool-cases (ltb delta 0x8000)) [
  | inl e ↦ rw (e, sign_extend) (omega arith)
  | inr e ↦ rw (e, sign_extend) (omega arith)
]

calls-on_mouse_wheel :
    (w : System) (c : Channel) (arg delta : ℕ)
    → arg % 2 ^ 16 ≡ delta
    → calls (on_mouse_wheel w c (packet 3 0 arg)).1
      ≡ (mouse_input 0 0 (sign_extend delta) (wheel ∷ []) remote_input_marker ∷ []) ∷ []
unfolding on_mouse_wheel mouse_wheel send
calls-on_mouse_wheel w c arg delta e =
    ap
      (λ d.
        calls
          (injection (mouse_wheel w d) ++ report_event c (wheel_event d (mouse_wheel w d).result)))
      e
    ∙ calls-injection c (mouse_wheel w delta) _ _ refl

-- A turn of the wheel by a signed 16-bit amount, given by its bit pattern, sent over an open channel
-- to an authorized receiver, is injected there in one call, by the same amount as a signed 32-bit one.
pub wheel_arrives :
    (w : System) (s c : Channel) (delta now : ℕ)
    → s.channel ≡ some open_state
    → c.authorized ≡ true
    → delta < 2 ^ 16
    → calls (arrive w c now (send_mouse_wheel s delta)).1
      ≡ (mouse_input 0 0 (sign_extend delta) (wheel ∷ []) remote_input_marker ∷ []) ∷ []
unfolding send_mouse_wheel
wheel_arrives w s c delta now o a h =
    ap (λ r. calls r.1)
      (arrive-send_packet w s c (packet 3 0 (sign_extend delta)) now o
        (packet-Fits 3 0 _ (omega arith) (sign_extend_fits delta h)))
    ∙ ap calls (append-nil (on_packet w c (packet 3 0 (sign_extend delta)) now).1)
    ∙ ap (λ r. calls r.1) (on_packet-on_mouse_wheel w c (sign_extend delta) now a)
    ∙ calls-on_mouse_wheel w c (sign_extend delta) delta (low_half delta h)
