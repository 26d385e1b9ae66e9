-- ===== src/Server/Loop.antt =====
-- `AcceptClients` and the event loop of `main` in RemoteControl_rtc/SignalingServer/main.cpp. One
-- turn of the loop is a call of `select`; what the system answers in it is an argument.
use webrtc_cpp_remote_contro.Base.{
  ℕ, ◌-◌, Bool, true, false, not, ◌&&◌, ◌||◌, List, [], ◌∷◌, map, Option, none, some, Bytes, ltb,
  leb, if◌then◌else◌, length, emplace, nat_eq,
}
use webrtc_cpp_remote_contro.Server.State.{Socket, Client, Server}
use webrtc_cpp_remote_contro.Server.Route.{disconnect_client}
use webrtc_cpp_remote_contro.Server.Connection.{Last, read_client, write_at}

-- The build: `_WIN32`, and `FD_SETSIZE`, which is at least 1024 on Windows.
pub record Platform : Type 0 where
  pub windows : Bool
  pub fd_setsize : ℕ

unfoldable pub max_clients : Platform → ℕ
max_clients p = if ltb 32 p.fd_setsize then p.fd_setsize - 16 else 16

abbrev pub new_client : Socket → Client
new_client socket = record { socket = socket; user_id = []; receive_buffer = []; send_buffer = [] }

-- One round of `AcceptClients`, with the accepted socket and the result of `SetNonBlocking`.
unfoldable pub accept_client : Platform → Server → Socket × Bool → Server
accept_client p s (socket, nonblocking) =
    if leb (max_clients p) (length s.clients)
      || not nonblocking
      || (not p.windows && leb p.fd_setsize socket)
    then s
    else record s { clients = emplace socket (new_client socket) s.clients }

-- The rounds up to the call of `accept` that fails.
unfoldable pub accept_clients : Platform → Server → List (Socket × Bool) → Server
accept_clients p s [] = s
accept_clients p s (a ∷ accepted) = accept_clients p (accept_client p s a) accepted

-- What `select` found, and what the calls that follow return. `readable` and `writable` are `none`
-- for a socket that is not in the set.
pub record Ready : Type 0 where
  pub accepted : List (Socket × Bool)
  pub readable : Socket → Option (List Bytes × Last)
  pub writable : Socket → Option (List ℕ × Bool)

abbrev pub read_ready : Server → Socket → Option (List Bytes × Last) → Server × Bool
read_ready s socket none = (s, true)
read_ready s socket (some (chunks, last)) = read_client s socket chunks last

abbrev pub write_ready : Server → Socket → Option (List ℕ × Bool) → Server × Bool
write_ready s socket none = (s, true)
write_ready s socket (some (counts, would_block)) = write_at s socket counts would_block

-- The body of the loop over `g_clients`: the second test is made only if the first one fails. The
-- result says whether the socket stays.
unfoldable pub serve_client : Ready → Server → Socket → Server × Bool
serve_client r s socket =
    let read = read_ready s socket (r.readable socket) in
    let written = write_ready read.0 socket (r.writable socket) in
    if read.1 then written else (read.0, false)

-- The loop, with `disconnected`.
unfoldable pub serve_clients : Ready → Server → List Socket → Server × List Socket
unfolding serve_client
serve_clients r s [] = (s, [])
serve_clients r s (socket ∷ sockets) =
    let served = serve_client r s socket in
    let rest = serve_clients r served.0 sockets in
    (rest.0, if served.1 then rest.1 else socket ∷ rest.1)

unfoldable pub disconnect_all : Server → List Socket → Server
disconnect_all s [] = s
disconnect_all s (socket ∷ sockets) = disconnect_all (disconnect_client s socket) sockets

-- `for (const auto& entry : g_clients)`: nothing in the body adds or removes a client.
abbrev pub sockets_of : Server → List Socket
sockets_of s = map (λ e. e.0) s.clients

-- A turn of the loop in which `select` found something.
unfoldable pub turn : Platform → Server → Ready → Server
unfolding serve_clients disconnect_all accept_clients
turn p s r =
    let accepted = accept_clients p s r.accepted in
    let served = serve_clients r accepted (sockets_of accepted) in disconnect_all served.0 served.1

-- How `select` returns: an error, and whether it was an interrupt; nothing; or something.
pub data Selected : Type 0 where
  error : Bool → Selected
  timed_out : Selected
  ready : Ready → Selected

-- The loop, over what the turns before `g_stopping` bring, and the cleanup behind it.
unfoldable pub run : Platform → Server → List Selected → Server
unfolding turn
run p s [] = s
run p s (error interrupted ∷ rest) =
    let more = run p s rest in if not p.windows && interrupted then more else s
run p s (timed_out ∷ rest) = run p s rest
run p s (ready r ∷ rest) = run p (turn p s r) rest

abbrev pub initial : Server
initial = record { clients = []; users = [] }

unfoldable pub main_loop : Platform → List Selected → Server
unfolding run
main_loop p events = let s = run p initial events in disconnect_all s (sockets_of s)
