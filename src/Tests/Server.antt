-- ===== src/Tests/Server.antt =====
-- RemoteControl_rtc/SignalingServer/main.cpp on small inputs.
use mathlib.Core.Option
use webrtc_cpp_remote_contro.Base.{
  ℕ, ◌≤◌, ◌≡◌, refl, ap, true, false, List, [], ◌∷◌, ◌++◌, none, some, arith, Bytes, codes, ◌==◌,
  if◌then◌else◌, suc, length, is_empty, bytes_eq, bytes_eq_iff, lookup, nat_eq, bytes_key,
}
use webrtc_cpp_remote_contro.Server.Text.{string_field, add_sender}
use webrtc_cpp_remote_contro.Server.State.{Client, Server, client_at, append_line, presence_message}
use webrtc_cpp_remote_contro.Server.Route.{routable, route_message, disconnect_client, find_target}
use webrtc_cpp_remote_contro.Server.Connection.{failed, write_client}
use webrtc_cpp_remote_contro.Server.Loop.{
  Platform, max_clients, Ready, Selected, ready, timed_out, run, initial, main_loop,
}
use webrtc_cpp_remote_contro.Server.Registry.{IsConsistent}
use webrtc_cpp_remote_contro.Server.News.{told}
use webrtc_cpp_remote_contro.Server.Reachable.{run-initial-IsConsistent}
use webrtc_cpp_remote_contro.Server.Shutdown.{main_loop-empty}
use webrtc_cpp_remote_contro.Server.Safety.{route_message-IsConsistent}
use webrtc_cpp_remote_contro.Server.Departure.{disconnect_client_frees, disconnect_client_others}
use webrtc_cpp_remote_contro.Server.Streams.{write_client_lem}
use webrtc_cpp_remote_contro.Server.Capacity.{run-within-fd_set}
use webrtc_cpp_remote_contro.Server.Routing.{
  Receives, route_message-Receives, route_message_delivers,
}

login_user :
    string_field (codes "{\"type\":\"login\", \"userId\" : \"a\\\"b\"}") (codes "userId")
    ≡ codes "a\"b"
unfolding string_field
login_user = refl

unknown_escape : string_field (codes "{\"fromUserId\":\"ali\\ce\"}") (codes "fromUserId") ≡ []
unfolding string_field
unknown_escape = refl

signed_routed :
    add_sender (codes "{\"type\":\"hangup\"}") (codes "bob")
    ≡ codes "{\"type\":\"hangup\",\"fromUserId\":\"bob\"}"
unfolding add_sender
signed_routed = refl

abbrev windows_build : Platform
windows_build = record { windows = true; fd_setsize = 1024 }

abbrev pub client_of : ℕ → Bytes → Client
client_of socket user_id = record {
  socket = socket;
  user_id = user_id;
  receive_buffer = [];
  send_buffer = [];
}

abbrev pub ann : Client
ann = client_of 3 (codes "ann")

abbrev bob : Client
bob = client_of 5 (codes "bob")

-- Two users online, in the order of the maps.
abbrev two_users : Server
two_users = record {
  clients = (3, ann) ∷ (5, bob) ∷ [];
  users = (codes "bob", 5) ∷ (codes "ann", 3) ∷ [];
}

abbrev login_line : Bytes → Bytes
login_line user = codes "{\"type\":\"login\",\"userId\":\"" ++ user ++ codes "\"}\n"

-- Both connect and log in; the line of one of them comes in two parts.
abbrev joining : Ready
joining = record {
  accepted = (5, true) ∷ (3, true) ∷ [];
  readable = λ k.
      if k == 3
      then some (login_line (codes "ann") ∷ [], failed true)
      else some (codes "{\"type\":\"login\"," ∷ codes "\"userId\":\"bob\"}\r\n" ∷ [], failed true);
  writable = λ k. none;
}

-- What they are told is sent.
abbrev sending : Ready
sending = record {
  accepted = [];
  readable = λ k. none;
  writable = λ k. if k == 3 then some (40 ∷ 57 ∷ [], true) else some (56 ∷ [], true);
}

abbrev session : List Selected
session = ready joining ∷ timed_out ∷ ready sending ∷ []

client_at-two_users :
    (k : ℕ)
    → client_at two_users k ≡ (if 3 == k then some ann else if 5 == k then some bob else none)
unfolding lookup
client_at-two_users k = refl

lookup-two_users :
    (u : Bytes)
    → lookup u two_users.users ≡ (
        if bytes_eq (codes "bob") u
        then some 5
        else if bytes_eq (codes "ann") u
        then some 3
        else none)
unfolding lookup
lookup-two_users u = refl

no_empty_name : lookup [] two_users.users ≡ none
unfolding lookup bytes_eq
no_empty_name = refl

two_users-IsConsistent : IsConsistent two_users
two_users-IsConsistent = record {
  keyed = λ k c e. ground (arith, client_at-two_users k);
  bounded = λ k c e. ground (arith, client_at-two_users k);
  listed = λ u k e. ground (
    arith,
    client_at-two_users k,
    lookup-two_users u,
    bytes_eq_iff (codes "bob") u,
    bytes_eq_iff (codes "ann") u,
  );
  online = λ k c e n. ground (
    arith,
    client_at-two_users k,
    lookup-two_users c.user_id,
    bytes_eq_iff (codes "bob") c.user_id,
    bytes_eq_iff (codes "ann") c.user_id,
  );
  nameless = no_empty_name;
}

abbrev hello : Bytes
hello = codes "{\"type\":\"hangup\",\"toUserId\":\"bob\"}"

abbrev signed_hello : Bytes
signed_hello = codes "{\"type\":\"hangup\",\"toUserId\":\"bob\",\"fromUserId\":\"ann\"}"

hello_type : string_field hello (codes "type") ≡ codes "hangup"
unfolding string_field
hello_type = refl

hello_sender : string_field hello (codes "fromUserId") ≡ []
unfolding string_field
hello_sender = refl

hello-routable : routable (string_field hello (codes "type")) ≡ true
unfolding routable bytes_eq
hello-routable = ap routable hello_type

hello_no_login : bytes_eq (string_field hello (codes "type")) (codes "login") ≡ false
unfolding bytes_eq
hello_no_login = ap (λ t. bytes_eq t (codes "login")) hello_type

ann_here : client_at two_users 3 ≡ some ann
unfolding lookup
ann_here = refl

bob_here : client_at two_users 5 ≡ some bob
unfolding lookup
bob_here = refl

hello_target : find_target two_users (string_field hello (codes "toUserId")) ≡ some 5
unfolding find_target lookup bytes_eq string_field
hello_target = refl

hello_signed : add_sender hello (codes "ann") ≡ signed_hello
unfolding add_sender
hello_signed = refl

run-initial-IsConsistent_example : IsConsistent (run windows_build initial session)
run-initial-IsConsistent_example = run-initial-IsConsistent windows_build session

main_loop-empty_example : main_loop windows_build session ≡ initial
main_loop-empty_example = main_loop-empty windows_build session

run-within-fd_set_example :
    (length (run windows_build initial session).clients ≤ max_clients windows_build)
    × (suc (length (run windows_build initial session).clients) ≤ 1024)
run-within-fd_set_example = run-within-fd_set windows_build session (omega arith)

route_message-IsConsistent_example : IsConsistent (route_message two_users 3 hello)
route_message-IsConsistent_example =
    route_message-IsConsistent two_users 3 hello two_users-IsConsistent

route_message-Receives_example : Receives two_users ann hello 5 (route_message two_users 3 hello)
route_message-Receives_example =
    route_message-Receives two_users 3 5 ann hello ann_here (omega arith) hello_no_login

route_message_delivers_example :
    client_at (route_message two_users 3 hello) 5
    ≡ some (append_line bob (add_sender hello (codes "ann")))
route_message_delivers_example =
    route_message_delivers two_users 3 5 ann bob hello ann_here refl hello-routable
      (ap is_empty hello_sender) hello_target bob_here (ap is_empty hello_signed)
      (rw hello_signed (omega arith))

disconnect_client_frees_example :
    (client_at (disconnect_client two_users 3) 3 ≡ none)
    × (lookup (codes "bob") (disconnect_client two_users 3).users ≡ (
        if bytes_eq (codes "ann") (codes "bob")
        then none
        else lookup (codes "bob") two_users.users))
disconnect_client_frees_example =
    disconnect_client_frees two_users 3 ann two_users-IsConsistent ann_here (codes "bob")

disconnect_client_others_example :
    client_at (disconnect_client two_users 3) 5
    ≡ Option.map (told (presence_message (codes "ann") false)) (client_at two_users 5)
disconnect_client_others_example =
    disconnect_client_others two_users 3 ann two_users-IsConsistent ann_here 5 (omega arith)

write_client_lem_example :
    (write_client (record bob { send_buffer = codes "abcdef" }) (2 ∷ 3 ∷ []) true []).wire
      ++ (write_client
          (record bob { send_buffer = codes "abcdef" })
          (2 ∷ 3 ∷ [])
          true
          []).client.send_buffer
    ≡ codes "abcdef"
write_client_lem_example =
    write_client_lem (record bob { send_buffer = codes "abcdef" }) (2 ∷ 3 ∷ []) true []
      (omega arith, (omega arith, tt))
