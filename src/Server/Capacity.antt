-- ===== src/Server/Capacity.antt =====
-- The limit `kMaxClients` of RemoteControl_rtc/SignalingServer/main.cpp, and its end: the sockets
-- that `select` is given fit an `fd_set`, and the cleanup leaves no client behind.
use webrtc_cpp_remote_contro.Base.{
  ℕ, suc, ◌≤◌, ◌≡◌, ap, inl, inr, true, false, not, List, arith, Bytes, codes, length, is_empty,
  erase, length-emplace, length-erase, length-adjust, nat_eq, bytes_key, bytes_eq, Bool-cases,
  Option-cases,
}
use webrtc_cpp_remote_contro.Server.Text.{string_field}
use webrtc_cpp_remote_contro.Server.State.{
  Socket, Client, Server, client_at, go_online, acceptable, build_presence_snapshot, queue_line_at,
  register_client, broadcast_presence,
}
use webrtc_cpp_remote_contro.Server.Route.{
  error_line, login, route_from, route_message, forget_user, remove_client, disconnect_client,
}
use webrtc_cpp_remote_contro.Server.Buffers.{queue_line_at-Extends, broadcast_presence-Extends}
use webrtc_cpp_remote_contro.Server.Safety.{reply-Extends, forward-Extends}
use webrtc_cpp_remote_contro.Server.Invariant.{IsInvariant, run_keeps}
use webrtc_cpp_remote_contro.Server.Loop.{
  Platform, max_clients, new_client, accept_client, Selected, run, initial,
}

abbrev count : Server → ℕ
count s = length s.clients

count-register_client :
    (s : Server) (socket : Socket) (c : Client) (u : Bytes)
    → count (register_client s socket c u).0 ≡ count s
unfolding register_client go_online
count-register_client s socket c u =
    let o = go_online s socket c u in
    let snapshot = build_presence_snapshot o u in
    let named : count o ≡ count s =
      length-adjust socket (λ d. record d { user_id = u }) s.clients in
    let queued = queue_line_at-Extends o socket snapshot in
    elim (Bool-cases (acceptable s u)) [
      | inr e ↦ rw e
      | inl e ↦ rw e (elim (Bool-cases (queue_line_at o socket snapshot).1) [
        | inr f ↦ rw f (omega (arith, queued.same_count))
        | inl f ↦ rw f (
            omega (
              arith,
              queued.same_count,
              (broadcast_presence-Extends (queue_line_at o socket snapshot).0 u true).same_count,
            ))
      ])
    ]

count-login :
    (s : Server) (socket : Socket) (c : Client) (json : Bytes)
    → count (login s socket c json) ≡ count s
unfolding login
count-login s socket c json =
    let u = string_field json (codes "userId") in
    let line = error_line (codes "login_failed") in
    let r = register_client s socket c u in
    let same = count-register_client s socket c u in
    elim (Bool-cases (not (is_empty c.user_id))) [
      | inl e ↦ rw e (reply-Extends s socket line).same_count
      | inr e ↦ rw e (elim (Bool-cases (not r.1)) [
        | inl f ↦ rw f (omega (arith, (reply-Extends r.0 socket line).same_count))
        | inr f ↦ rw f same
      ])
    ]

-- No message adds a client or removes one.
pub count-route_message :
    (s : Server) (socket : Socket) (json : Bytes)
    → length (route_message s socket json).clients ≡ length s.clients
unfolding route_message route_from
count-route_message s socket json = elim (Option-cases (client_at s socket)) [
  | inl e ↦ rw (e, route_message)
  | inr (c, e) ↦
      rw (e, route_message)
        (elim (Bool-cases (bytes_eq (string_field json (codes "type")) (codes "ping"))) [
          | inl f ↦ rw f (reply-Extends s socket _).same_count
          | inr f ↦
              rw f
                (elim (Bool-cases (bytes_eq (string_field json (codes "type")) (codes "login"))) [
                  | inl g ↦ rw g (count-login s socket c json)
                  | inr g ↦ rw g (elim (Bool-cases (is_empty c.user_id)) [
                    | inl h ↦ rw h (reply-Extends s socket _).same_count
                    | inr h ↦ rw h (forward-Extends s socket c json).same_count
                  ])
                ])
        ])
]

pub clients-forget_user :
    (s : Server) (u : Bytes) (socket : Socket) → (forget_user s u socket).clients ≡ s.clients
unfolding forget_user
clients-forget_user s u socket = ground arith

count-erase :
    (s t : Server) (socket : Socket) (u : Bytes)
    → t.clients ≡ s.clients
    → count (broadcast_presence (record t { clients = erase socket t.clients }) u false) ≤ count s
count-erase s t socket u e = omega (
  arith,
  length-erase socket s.clients,
  ap length (ap (erase socket) e),
  (broadcast_presence-Extends (record t { clients = erase socket t.clients }) u false).same_count,
)

count-disconnect_client :
    (s : Server) (socket : Socket) → count (disconnect_client s socket) ≤ count s
unfolding disconnect_client remove_client
count-disconnect_client s socket = elim (Option-cases (client_at s socket)) [
  | inl e ↦ rw (e, disconnect_client) (omega arith)
  | inr (c, e) ↦
      rw (e, disconnect_client)
        (elim (Bool-cases (is_empty c.user_id)) [
          | inl f ↦ rw (f, remove_client) (length-erase socket s.clients)
          | inr f ↦
              rw (f, remove_client)
                (count-erase s (forget_user s c.user_id socket) socket c.user_id
                  (clients-forget_user s c.user_id socket))
        ])
]

WithinLimit : Platform → Server → Type 0
WithinLimit p s = count s ≤ max_clients p

WithinLimit-IsInvariant : (p : Platform) → IsInvariant p (WithinLimit p)
unfolding WithinLimit accept_client
WithinLimit-IsInvariant p = record {
  routes = λ s socket json h. omega (arith, count-route_message s socket json);
  edits = λ s socket f k h. omega (arith, length-adjust socket f s.clients);
  accepts = λ s a h. ground (arith, length-emplace a.0 (new_client a.0) s.clients);
  leaves = λ s socket h. omega (arith, count-disconnect_client s socket);
}

-- The server never holds more than `kMaxClients` clients, so with its listening socket it never
-- puts more than `FD_SETSIZE` sockets into a set, if that is 17 at least.
pub run-within-fd_set :
    (p : Platform) (es : List Selected)
    → 17 ≤ p.fd_setsize
    → (length (run p initial es).clients ≤ max_clients p)
      × (suc (length (run p initial es).clients) ≤ p.fd_setsize)
unfolding WithinLimit
run-within-fd_set p es h =
    let limit = run_keeps (WithinLimit p) (WithinLimit-IsInvariant p) initial es (omega arith) in
    (limit, unfold max_clients in ground arith)
