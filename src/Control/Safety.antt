-- ===== src/Control/Safety.antt =====
-- What a peer can make RemoteControl_rtc/RemoteControl_rtc/RemoteControlChannel.cpp do.
use webrtc_cpp_remote_contro.Base.{
  ℕ, ◌≡◌, refl, inl, inr, Bool, true, false, not, ◌||◌, List, [], arith, Bytes, ◌==◌, if◌then◌else◌,
  All, Option-cases,
}
use webrtc_cpp_remote_contro.Control.Injector.{System}
use webrtc_cpp_remote_contro.Control.Packet.{ControlPacket, rtc1, packet, decode}
use webrtc_cpp_remote_contro.Control.Channel.{
  Channel, Event, ignored, Effect, injects, report_event, send_packet, on_ping, on_pong, on_packet,
  on_message,
}

-- Nothing is injected.
abbrev pub Harmless : Effect → Type 0
Harmless (injects inputs) = ⊥
Harmless _ = Unit

send_packet-Harmless : (c : Channel) (p : ControlPacket) → All Harmless (send_packet c p)
unfolding send_packet
send_packet-Harmless c p = ground (arith)

report_event-Harmless : (c : Channel) (e : Event) → All Harmless (report_event c e)
unfolding report_event
report_event-Harmless c e = ground (arith)

-- What an unauthorized peer may cause, as a property of the outcome.
abbrev Unmoved : Channel → Channel × List Effect → Type 0
Unmoved c r =
    All Harmless r.1
    × (r.0.authorized ≡ false)
    × (r.0.last_received_mouse_x ≡ c.last_received_mouse_x)
    × (r.0.last_received_mouse_y ≡ c.last_received_mouse_y)

if-Unmoved :
    (c : Channel) (b : Bool) (r s : Channel × List Effect)
    → Unmoved c r
    → Unmoved c s
    → Unmoved c (if b then r else s)
if-Unmoved c true r s u v = u
if-Unmoved c false r s u v = v

if_not-Unmoved :
    (c : Channel) (b : Bool) (r s : Channel × List Effect)
    → b ≡ false
    → Unmoved c r
    → Unmoved c (if not b then r else s)
if_not-Unmoved c b r s e u = rw (e) u

refused-Harmless :
    (c : Channel) (b : Bool) → All Harmless (if b then report_event c ignored else [])
refused-Harmless c true = report_event-Harmless c ignored
refused-Harmless c false = tt

on_packet_unauthorized :
    (w : System) (c : Channel) (p : ControlPacket) (now : ℕ)
    → c.authorized ≡ false
    → let r = on_packet w c p now in
      All Harmless r.1
      × (r.0.authorized ≡ false)
      × (r.0.last_received_mouse_x ≡ c.last_received_mouse_x)
      × (r.0.last_received_mouse_y ≡ c.last_received_mouse_y)
unfolding on_packet on_ping on_pong
on_packet_unauthorized w c p now h =
    if-Unmoved c (not (p.magic == rtc1) || not (p.version == 1)) _ _ (tt, h, refl, refl)
      (if-Unmoved c (p.type == 6) _ _ (send_packet-Harmless c (packet 7 1 p.arg2), h, refl, refl)
        (if-Unmoved c (p.type == 7) _ _ (tt, h, refl, refl)
          (if_not-Unmoved c c.authorized _ _ h
            (refused-Harmless c (p.type == 2 || p.type == 5), h, refl, refl))))

-- Without authorization no message injects input, moves the remembered pointer or authorizes itself,
-- whatever it holds.
pub on_message_unauthorized :
    (w : System) (c : Channel) (buffer : Bytes) (binary : Bool) (now : ℕ)
    → c.authorized ≡ false
    → let r = on_message w c buffer binary now in
      All Harmless r.1
      × (r.0.authorized ≡ false)
      × (r.0.last_received_mouse_x ≡ c.last_received_mouse_x)
      × (r.0.last_received_mouse_y ≡ c.last_received_mouse_y)
unfolding on_message
on_message_unauthorized w c buffer false now h = (tt, h, refl, refl)
on_message_unauthorized w c buffer true now h = elim (Option-cases (decode buffer)) [
  | inl e ↦ rw (e, on_message) (tt, h, refl, refl)
  | inr (p, e) ↦ rw (e, on_message) (on_packet_unauthorized w c p now h)
]
