-- ===== src/Server/News.antt =====
-- Who is told what by `BroadcastPresence` of RemoteControl_rtc/SignalingServer/main.cpp, by the state
-- of the client alone.
use mathlib.Core.Option
use webrtc_cpp_remote_contro.Base.{
  ◌+◌, ◌≤◌, ◌≡◌, refl, ap, inl, inr, false, Option, none, some, arith, Bytes, if◌then◌else◌,
  is_empty, bytes_eq, leb, length, Bool-cases,
}
use webrtc_cpp_remote_contro.Server.State.{
  Client, max_pending_send_bytes, append_line, queue_line, announce,
}
use webrtc_cpp_remote_contro.Server.Buffers.{queue_line_fits, queue_line_full}

-- A client who is logged in has the whole line queued, with its newline, if it fits into the buffer;
-- nothing else happens to it, and nothing happens to a client who is not logged in.
abbrev pub told : Bytes → Client → Client
told line c =
    if is_empty c.user_id
    then c
    else if leb (length c.send_buffer + (length line + 1)) max_pending_send_bytes
    then append_line c line
    else c

queue_line-told :
    (line : Bytes) (c : Client)
    → length c.send_buffer ≤ max_pending_send_bytes
    → (queue_line c line).0 ≡ (
        if leb (length c.send_buffer + (length line + 1)) max_pending_send_bytes
        then append_line c line
        else c)
queue_line-told line c h =
    elim (Bool-cases (leb (length c.send_buffer + (length line + 1)) max_pending_send_bytes)) [
      | inl e ↦ rw (e) (ap (λ x. x.0) (queue_line_fits c line h (ground (arith, e))))
      | inr e ↦ rw (e) (ap (λ x. x.0) (queue_line_full c line h (ground (arith, e))))
    ]

pub announce-told :
    (user line : Bytes) (c : Client)
    → length c.send_buffer ≤ max_pending_send_bytes
    → (is_empty c.user_id ≡ false → bytes_eq c.user_id user ≡ false)
    → announce user line c ≡ told line c
unfolding announce
announce-told user line c h other = elim (Bool-cases (is_empty c.user_id)) [
  | inl e ↦ rw (e) refl
  | inr e ↦ rw (e, other e) (queue_line-told line c h)
]

-- The same, where there is such a client.
pub map-told :
    (user line : Bytes) (o : Option Client)
    → ((c : Client)
        → o ≡ some c
        → (length c.send_buffer ≤ max_pending_send_bytes)
          × (is_empty c.user_id ≡ false → bytes_eq c.user_id user ≡ false))
    → Option.map (announce user line) o ≡ Option.map (told line) o
map-told user line none h = refl
map-told user line (some c) h = ap some (announce-told user line c (h c refl).0 (h c refl).1)
