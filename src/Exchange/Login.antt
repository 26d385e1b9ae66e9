-- ===== src/Exchange/Login.antt =====
-- The login line of RemoteControl_rtc/RemoteControl_rtc/SignalingClient.cpp, read by the server.
use webrtc_cpp_remote_contro.Base.{
  ℕ, ◌≤◌, ◌≡◌, refl, ap, ◌∙◌, inl, inr, Bool, true, false, List, [], ◌∷◌, ◌++◌, arith, Bytes, codes,
  length, take, drop, take-append-drop, ◌==◌, strip_prefix, Bool-cases,
}
use webrtc_cpp_remote_contro.Server.Text.{quote, max_field}
use webrtc_cpp_remote_contro.Server.Text
use webrtc_cpp_remote_contro.Server.State.{printable}
use webrtc_cpp_remote_contro.Client.RoundTrip.{Printable}
use webrtc_cpp_remote_contro.Client.Transport.{escape_user, login_line, send_payload, send_line}
use webrtc_cpp_remote_contro.Exchange.Reading.{printable-Printable, read_string-Printable}

escape_user-Printable : (u : Bytes) → Printable u → escape_user u ≡ u
unfolding escape_user
escape_user-Printable [] h = refl
escape_user-Printable (c ∷ u) h = ground (arith, escape_user-Printable u h.1)

send_payload_whole :
    (payload : Bytes) (counts : List ℕ)
    → (send_payload payload counts).1 ≡ true
    → (send_payload payload counts).0 ≡ payload
unfolding send_payload
send_payload_whole [] [] h = refl
send_payload_whole (c ∷ t) [] h = cc
send_payload_whole [] (sent ∷ counts) h = refl
send_payload_whole (c ∷ t) (sent ∷ counts) h = elim (Bool-cases (sent == 0)) [
  | inl e ↦ ground (arith)
  | inr e ↦ rw e (
      ap (◌++◌ (take sent (c ∷ t))) (send_payload_whole (drop sent (c ∷ t)) counts (ground (arith)))
      ∙ take-append-drop sent (c ∷ t))
]

-- When `Send` succeeds with the login line of an admitted user id of at most 1024 bytes, the whole line
-- with its newline was sent, and the server reads from the line a login with this user id.
pub login_arrives :
    (user : Bytes) (ready : Bool) (counts : List ℕ)
    → printable user ≡ true
    → length user ≤ max_field
    → (send_line ready (login_line user) counts).1 ≡ true
    → ((send_line ready (login_line user) counts).0 ≡ login_line user ++ b'\n' ∷ [])
      × (Text.string_field (login_line user) (codes "type") ≡ codes "login")
      × (Text.string_field (login_line user) (codes "userId") ≡ user)
unfolding send_line
login_arrives user false counts admitted short done = cc
login_arrives user true counts admitted short done =
    let h = printable-Printable user admitted in
    let found : Text.string_field (login_line user) (codes "userId")
        ≡ Text.read_string (escape_user user ++ (quote ∷ codes "}")) [] =
      unfold Text.string_field login_line strip_prefix in refl in
    (
      send_payload_whole (login_line user ++ b'\n' ∷ []) counts done,
      unfold Text.string_field login_line strip_prefix in refl,
      found
          ∙ ap (λ t. Text.read_string (t ++ (quote ∷ codes "}")) []) (escape_user-Printable user h)
          ∙ read_string-Printable user (codes "}") [] h (omega arith),
    )
