-- ===== src/Server/Connection.antt =====
-- `ReadClient` and `WriteClient` of RemoteControl_rtc/SignalingServer/main.cpp. What the system
-- calls return is an argument: the chunks that `recv` reads one after the other, or the counts that
-- `send` returns, and how the last call ends.
use Prim.Native.Nat.{min}
use webrtc_cpp_remote_contro.Base.{
  ℕ, zero, suc, ◌*◌, Bool, true, false, List, [], ◌∷◌, ◌++◌, Option, none, some, Bytes, ltb, ◌==◌,
  if◌then◌else◌, length, take, drop, is_empty,
}
use webrtc_cpp_remote_contro.Server.State.{Socket, Client, Server, client_at, update_client}
use webrtc_cpp_remote_contro.Server.Route.{route_message}

abbrev pub max_message_size : ℕ
max_message_size = 4 * 1024 * 1024

-- How a run of `recv` ends: the peer closed, or an error, with the answer of `WouldBlock`.
pub data Last : Type 0 where
  closed : Last
  failed : Bool → Last

-- What `ReadClient` returns at the last call.
abbrev pub stays : Last → Bool
stays closed = false
stays (failed would_block) = would_block

-- `find('\n')`, `substr(0, newline)` and `erase(0, newline + 1)`.
unfoldable pub split_line : Bytes → Option (Bytes × Bytes)
split_line [] = none
split_line (c ∷ text) = elim (c == b'\n') [
  | true ↦ some ([], text)
  | false ↦ elim (split_line text) [ none ↦ none | some (line, rest) ↦ some (c ∷ line, rest) ]
]

-- `if (!message.empty() && message.back() == '\r') message.pop_back();`
unfoldable pub strip_cr : Bytes → Bytes
strip_cr [] = []
strip_cr (c ∷ []) = if c == b'\r' then [] else c ∷ []
strip_cr (c ∷ d ∷ text) = c ∷ strip_cr (d ∷ text)

abbrev pub set_input : Bytes → Client → Client
set_input rest client = record client { receive_buffer = rest }

abbrev pub add_input : Bytes → Client → Client
add_input chunk client = record client { receive_buffer = client.receive_buffer ++ chunk }

-- `if (!message.empty()) RouteMessage(client, message);`
unfoldable pub handle_line : Server → Socket → Bytes → Server
unfolding strip_cr
handle_line s socket line =
    if is_empty (strip_cr line) then s else route_message s socket (strip_cr line)

-- The inner loop of `ReadClient`, with fuel for its rounds.
unfoldable pub drain : ℕ → Server → Socket → Server
drain zero s socket = s
drain (suc fuel) s socket = elim (client_at s socket) [
  | none ↦ s
  | some client ↦ elim (split_line client.receive_buffer) [
    | none ↦ s
    | some (line, rest) ↦
        drain fuel (handle_line (update_client s socket (set_input rest)) socket line) socket
  ]
]

-- Every round takes a byte at least, so the buffer's length and one are fuel enough.
unfoldable pub drain_all : Server → Socket → Server
unfolding drain
drain_all s socket = elim (client_at s socket) [
  | none ↦ s
  | some client ↦ drain (suc (length client.receive_buffer)) s socket
]

unfoldable pub too_long : Server → Socket → Bool
too_long s socket = elim (client_at s socket) [
  | none ↦ false
  | some client ↦ ltb max_message_size (length client.receive_buffer)
]

unfoldable pub read_client : Server → Socket → List Bytes → Last → Server × Bool
read_client s socket [] last = (s, stays last)
read_client s socket (chunk ∷ chunks) last =
    let received = update_client s socket (add_input chunk) in
    let more = read_client (drain_all received socket) socket chunks last in
    if too_long received socket then (received, false) else more

-- A run of `WriteClient`: the client, the bytes handed to the network, and the result. A call of
-- `send` that returns a count has sent that many bytes from the front.
pub record Written : Type 0 where
  pub client : Client
  pub wire : Bytes
  pub result : Bool

abbrev pub max_send : ℕ
max_send = 0x7fffffff

-- The data that one call of `send` is given.
abbrev offered : Client → Bytes
offered client = take (min (length client.send_buffer) max_send) client.send_buffer

abbrev pub drop_sent : ℕ → Client → Client
drop_sent sent client = record client { send_buffer = drop sent client.send_buffer }

unfoldable pub write_client : Client → List ℕ → Bool → Bytes → Written
write_client client [] would_block wire = record {
  client = client;
  wire = wire;
  result = if is_empty client.send_buffer then true else would_block;
}
write_client client (sent ∷ counts) would_block wire =
    let more =
      write_client (drop_sent sent client) counts would_block
        (wire ++ take sent (offered client)) in
    if is_empty client.send_buffer
    then record { client = client; wire = wire; result = true }
    else if sent == 0
    then record { client = client; wire = wire; result = false }
    else more

-- `WriteClient` on the client that a reference names.
unfoldable pub write_at : Server → Socket → List ℕ → Bool → Server × Bool
write_at s socket counts would_block = elim (client_at s socket) [
  | none ↦ (s, false)
  | some client ↦
      let written = write_client client counts would_block [] in
      (update_client s socket (λ c. written.client), written.result)
]
