-- ===== src/Server/Route.antt =====
-- `RouteMessage` and `DisconnectClient` of RemoteControl_rtc/SignalingServer/main.cpp.
use webrtc_cpp_remote_contro.Base.{
  Bool, false, not, ◌||◌, ◌++◌, Option, none, some, Bytes, codes, ◌==◌, if◌then◌else◌, is_empty,
  bytes_eq, lookup, erase, nat_eq, bytes_key,
}
use webrtc_cpp_remote_contro.Server.Text.{escape_json, string_field, add_sender}
use webrtc_cpp_remote_contro.Server.State.{
  Socket, Client, Server, client_at, queue_line_at, register_client, broadcast_presence,
}

abbrev pub reply : Server → Socket → Bytes → Server
reply s socket json = (queue_line_at s socket json).0

abbrev pub pong : Bytes
pong = codes "{\"type\":\"pong\"}"

unfoldable pub error_line : Bytes → Bytes
error_line error_code = codes "{\"type\":\"error\",\"code\":\"" ++ error_code ++ codes "\"}"

unfoldable pub offline_line : Bytes → Bytes
offline_line target_id =
    codes "{\"type\":\"error\",\"code\":\"target_offline\",\"userId\":\""
    ++ escape_json target_id
    ++ codes "\"}"

-- The branch for `login`.
unfoldable pub login : Server → Socket → Client → Bytes → Server
login s socket sender json =
    let registered = register_client s socket sender (string_field json (codes "userId")) in
    let refused = reply s socket (error_line (codes "login_failed")) in
    let failed = reply registered.0 socket (error_line (codes "login_failed")) in
    if not (is_empty sender.user_id)
    then refused
    else if not registered.1
    then failed
    else registered.0

unfoldable pub routable : Bytes → Bool
routable type =
    bytes_eq type (codes "offer")
    || bytes_eq type (codes "answer")
    || bytes_eq type (codes "ice-candidate")
    || bytes_eq type (codes "hangup")

-- `g_users.find(target_id)`, then `g_clients.find(user->second)`; `none` is `g_clients.end()`.
unfoldable pub find_target : Server → Bytes → Option Socket
find_target s target_id = elim (lookup target_id s.users) [
  | none ↦ none
  | some socket ↦ elim (client_at s socket) [ none ↦ none | some client ↦ some socket ]
]

-- The last two statements, with the target's socket.
unfoldable pub deliver : Server → Socket → Client → Bytes → Socket → Server
deliver s socket sender json target =
    let routed = add_sender json sender.user_id in
    let queued = queue_line_at s target routed in
    let failed = reply s socket (error_line (codes "route_failed")) in
    let unqueued = reply queued.0 socket (error_line (codes "route_failed")) in
    if is_empty routed then failed else if not queued.1 then unqueued else queued.0

-- From the test of the type on.
unfoldable pub forward : Server → Socket → Client → Bytes → Server
forward s socket sender json =
    let target_id = string_field json (codes "toUserId") in
    let unsupported = reply s socket (error_line (codes "unsupported_message")) in
    let forbidden = reply s socket (error_line (codes "sender_field_forbidden")) in
    let sent : Server = elim (find_target s target_id) [
      | none ↦ reply s socket (offline_line target_id)
      | some target ↦ deliver s socket sender json target
    ] in
    if not (routable (string_field json (codes "type")))
    then unsupported
    else if not (is_empty (string_field json (codes "fromUserId")))
    then forbidden
    else sent

-- `RouteMessage` on the sender's value.
unfoldable pub route_from : Server → Socket → Client → Bytes → Server
route_from s socket sender json =
    let type = string_field json (codes "type") in
    if bytes_eq type (codes "ping")
    then reply s socket pong
    else if bytes_eq type (codes "login")
    then login s socket sender json
    else if is_empty sender.user_id
    then reply s socket (error_line (codes "not_logged_in"))
    else forward s socket sender json

-- A reference always names a client; without one nothing happens.
unfoldable pub route_message : Server → Socket → Bytes → Server
route_message s socket json = elim (client_at s socket) [
  | none ↦ s
  | some sender ↦ route_from s socket sender json
]

-- `if (user != g_users.end() && user->second == socket) g_users.erase(user);`
unfoldable pub forget_user : Server → Bytes → Socket → Server
forget_user s user_id socket = elim (lookup user_id s.users) [
  | none ↦ s
  | some owner ↦ if owner == socket then record s { users = erase user_id s.users } else s
]

unfoldable pub remove_client : Server → Socket → Client → Server
unfolding forget_user
remove_client s socket client =
    let known = if is_empty client.user_id then s else forget_user s client.user_id socket in
    let gone = record known { clients = erase socket known.clients } in
    if is_empty client.user_id then gone else broadcast_presence gone client.user_id false

unfoldable pub disconnect_client : Server → Socket → Server
unfolding remove_client
disconnect_client s socket = elim (client_at s socket) [
  | none ↦ s
  | some client ↦ remove_client s socket client
]
