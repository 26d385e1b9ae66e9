-- ===== src/Server/State.antt =====
-- The state of RemoteControl_rtc/SignalingServer/main.cpp (`g_clients`, `g_users`) and the
-- functions that queue lines, announce presence and register users. A reference to a client is its
-- socket, the key under which `g_clients` holds it.
use webrtc_cpp_remote_contro.Base.{
  ℕ, ◌+◌, ◌-◌, ◌*◌, ◌%◌, ◌^◌, Bool, true, false, not, ◌&&◌, ◌||◌, List, [], ◌∷◌, ◌++◌, Option, none,
  some, Bytes, codes, ltb, ◌==◌, if◌then◌else◌, length, is_empty, bytes_eq, lookup, adjust, emplace,
  map_values, nat_eq, bytes_key,
}
use webrtc_cpp_remote_contro.Server.Text.{quote, backslash, escape_json}

abbrev pub max_pending_send_bytes : ℕ
max_pending_send_bytes = 4 * 1024 * 1024

-- A difference of two `std::size_t`.
abbrev pub size_sub : ℕ → ℕ → ℕ
size_sub a b = (a + 2 ^ 64 - b) % 2 ^ 64

abbrev pub Socket : Type 0
Socket = ℕ

pub record Client : Type 0 where
  pub socket : Socket
  pub user_id : Bytes
  pub receive_buffer : Bytes
  pub send_buffer : Bytes

pub record Server : Type 0 where
  pub clients : List (Socket × Client)
  pub users : List (Bytes × Socket)

abbrev pub client_at : Server → Socket → Option Client
client_at s socket = lookup socket s.clients

-- A write through a reference to a client.
abbrev pub update_client : Server → Socket → (Client → Client) → Server
update_client s socket f = record s { clients = adjust socket f s.clients }

-- `json.size() + 1 > kMaxPendingSendBytes - client.send_buffer.size()`
abbrev pub overflows : Client → Bytes → Bool
overflows client json =
    ltb (size_sub max_pending_send_bytes (length client.send_buffer)) (length json + 1)

abbrev pub append_line : Client → Bytes → Client
append_line client json = record client { send_buffer = client.send_buffer ++ (json ++ b'\n' ∷ []) }

unfoldable pub queue_line : Client → Bytes → Client × Bool
queue_line client json =
    if overflows client json then (client, false) else (append_line client json, true)

-- `QueueLine` on the client that a reference names.
unfoldable pub queue_line_at : Server → Socket → Bytes → Server × Bool
queue_line_at s socket json = elim (client_at s socket) [
  | none ↦ (s, false)
  | some client ↦ (update_client s socket (λ c. (queue_line c json).0), (queue_line client json).1)
]

abbrev user_object : Bytes → Bytes
user_object user = codes "{\"userId\":\"" ++ escape_json user ++ codes "\"}"

-- The loop of `BuildPresenceSnapshot`, with its flag `first`.
unfoldable pub snapshot_users : Bytes → Bool → List (Bytes × Socket) → Bytes
snapshot_users current_user first [] = []
snapshot_users current_user first ((user, socket) ∷ users) =
    if bytes_eq user current_user
    then snapshot_users current_user first users
    else (if first then [] else b',' ∷ [])
      ++ user_object user
      ++ snapshot_users current_user false users

unfoldable pub build_presence_snapshot : Server → Bytes → Bytes
unfolding snapshot_users
build_presence_snapshot s current_user =
    codes "{\"type\":\"presence.snapshot\",\"users\":["
    ++ snapshot_users current_user true s.users
    ++ codes "]}"

unfoldable pub presence_message : Bytes → Bool → Bytes
presence_message user_id online =
    codes "{\"type\":\"presence.changed\",\"userId\":\""
    ++ escape_json user_id
    ++ codes "\",\"online\":"
    ++ (if online then codes "true" else codes "false")
    ++ codes "}"

-- The body of the loop of `BroadcastPresence`.
unfoldable pub announce : Bytes → Bytes → Client → Client
announce user_id message client =
    if not (is_empty client.user_id) && not (bytes_eq client.user_id user_id)
    then (queue_line client message).0
    else client

unfoldable pub broadcast_presence : Server → Bytes → Bool → Server
broadcast_presence s user_id online = record s {
  clients = map_values (announce user_id (presence_message user_id online)) s.clients;
}

-- The loop of `RegisterClient` over the bytes of a user id.
unfoldable pub printable : Bytes → Bool
printable [] = true
printable (c ∷ text) = if ltb c 0x20 || c == quote || c == backslash then false else printable text

abbrev max_user_id : ℕ
max_user_id = 128

abbrev pub user_known : Server → Bytes → Bool
user_known s user_id = elim (lookup user_id s.users) [ none ↦ false | some socket ↦ true ]

-- Both early returns of `RegisterClient`.
unfoldable pub acceptable : Server → Bytes → Bool
unfolding printable
acceptable s user_id =
    if is_empty user_id || ltb max_user_id (length user_id) || user_known s user_id
    then false
    else printable user_id

-- `client.user_id = user_id; g_users.emplace(user_id, client.socket);`
unfoldable pub go_online : Server → Socket → Client → Bytes → Server
go_online s socket client user_id =
    record (update_client s socket (λ c. record c { user_id = user_id })) {
      users = emplace user_id client.socket s.users;
    }

-- `client` is what the reference reads on entry. `Log` writes to the console only.
unfoldable pub register_client : Server → Socket → Client → Bytes → Server × Bool
register_client s socket client user_id =
    let online = go_online s socket client user_id in
    let queued = queue_line_at online socket (build_presence_snapshot online user_id) in
    if not (acceptable s user_id)
    then (s, false)
    else if not queued.1
    then (queued.0, false)
    else (broadcast_presence queued.0 user_id true, true)
