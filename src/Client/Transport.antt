-- ===== src/Client/Transport.antt =====
-- The login line and `Send` of RemoteControl_rtc/RemoteControl_rtc/SignalingClient.cpp. What `send`
-- returns is an argument.
use webrtc_cpp_remote_contro.Base.{
  ℕ, Bool, true, false, not, ◌||◌, List, [], ◌∷◌, ◌++◌, Bytes, codes, ◌==◌, if◌then◌else◌, take,
  drop, is_empty,
}
use webrtc_cpp_remote_contro.Client.Protocol.{quote, backslash}

-- `EscapeJson` of this class.
unfoldable pub escape_user : Bytes → Bytes
escape_user [] = []
escape_user (c ∷ value) =
    (if c == backslash || c == quote then backslash ∷ c ∷ [] else c ∷ []) ++ escape_user value

-- The first line, for the user id in UTF-8.
unfoldable pub login_line : Bytes → Bytes
unfolding escape_user
login_line user_id = codes "{\"type\":\"login\",\"userId\":\"" ++ escape_user user_id ++ codes "\"}"

-- The loop of `Send` on the rest of the payload, over the counts that `send` returns, with 0 for an
-- error: the bytes sent, and the result. A list that is too short is a `send` that does not return.
unfoldable pub send_payload : Bytes → List ℕ → Bytes × Bool
send_payload payload [] = ([], is_empty payload)
send_payload payload (sent ∷ counts) =
    let rest = send_payload (drop sent payload) counts in
    if is_empty payload
    then ([], true)
    else if sent == 0
    then ([], false)
    else (take sent payload ++ rest.0, rest.1)

-- `Send`; `ready` is `connected_` and a socket.
unfoldable pub send_line : Bool → Bytes → List ℕ → Bytes × Bool
unfolding send_payload
send_line ready json_line counts =
    let sent = send_payload (json_line ++ b'\n' ∷ []) counts in
    if not ready then ([], false) else sent
