-- ===== src/Server/Reachable.antt =====
-- What holds of every state that the event loop of RemoteControl_rtc/SignalingServer/main.cpp
-- reaches.
use webrtc_cpp_remote_contro.Base.{
  ◌≡◌, refl, inl, inr, Bool, not, ◌&&◌, ◌||◌, List, ◌∷◌, none, some, arith, leb, ◌==◌, ==_iff,
  if◌then◌else◌, length, lookup, emplace, lookup-cons, emplace_new, emplace_old, nat_eq, bytes_key,
  Bool-cases, Option-cases,
}
use webrtc_cpp_remote_contro.Server.State.{Socket, Server, client_at}
use webrtc_cpp_remote_contro.Server.Registry.{IsConsistent}
use webrtc_cpp_remote_contro.Server.Departure.{disconnect_client-IsConsistent}
use webrtc_cpp_remote_contro.Server.Safety.{route_message-IsConsistent}
use webrtc_cpp_remote_contro.Server.Streams.{update_client-IsConsistent}
use webrtc_cpp_remote_contro.Server.Invariant.{IsInvariant, run_keeps}
use webrtc_cpp_remote_contro.Server.Loop.{
  Platform, max_clients, new_client, accept_client, Selected, run, initial,
}

pub initial-IsConsistent : IsConsistent initial
unfolding lookup
initial-IsConsistent = record {
  keyed = λ k c e. cc;
  bounded = λ k c e. cc;
  listed = λ u k e. absurd (cc);
  online = λ k c e n. cc;
  nameless = refl;
}

-- A socket that is new gets a client that is not logged in.
module _ (s : Server) (socket : Socket) (v : IsConsistent s)
    (fresh : client_at s socket ≡ none) where
  extended : Server
  extended = record s { clients = (socket, new_client socket) ∷ s.clients }

  client_at-extended :
      (k : Socket)
      → client_at extended k ≡ (if socket == k then some (new_client socket) else client_at s k)
  unfolding extended
  client_at-extended k = lookup-cons socket k (new_client socket) s.clients

  same_users : extended.users ≡ s.users
  unfolding extended
  same_users = refl

  extended-IsConsistent : IsConsistent extended
  extended-IsConsistent = record {
    keyed = λ k c e. ground (arith, client_at-extended k, v.keyed k c, ==_iff socket k);
    bounded = λ k c e. ground (arith, client_at-extended k, v.bounded k c);
    listed = λ u k e.
        let (c, ec, eu) = v.listed u k (rw same_users at e) in
        (c, ground (arith, client_at-extended k, ==_iff socket k), eu);
    online = λ k c e n. rw same_users (ground (arith, client_at-extended k, v.online k c));
    nameless = rw same_users v.nameless;
  }

emplace-IsConsistent :
    (s : Server) (socket : Socket)
    → IsConsistent s
    → IsConsistent (record s { clients = emplace socket (new_client socket) s.clients })
emplace-IsConsistent s socket v = elim (Option-cases (client_at s socket)) [
  | inl e ↦
      rw (emplace_new socket (new_client socket) s.clients e)
        (unfold extended in extended-IsConsistent s socket v e)
  | inr (c, e) ↦ rw (emplace_old socket (new_client socket) c s.clients e) v
]

accept_client-IsConsistent :
    (p : Platform) (s : Server) (a : Socket × Bool)
    → IsConsistent s
    → IsConsistent (accept_client p s a)
unfolding accept_client
accept_client-IsConsistent p s (socket, nonblocking) v =
    elim (Bool-cases (
      leb (max_clients p) (length s.clients)
      || not nonblocking
      || (not p.windows && leb p.fd_setsize socket))) [
        | inl e ↦ rw e v
        | inr e ↦ rw e (emplace-IsConsistent s socket v)
      ]

pub IsConsistent-IsInvariant : (p : Platform) → IsInvariant p IsConsistent
IsConsistent-IsInvariant p = record {
  routes = route_message-IsConsistent;
  edits = update_client-IsConsistent;
  accepts = accept_client-IsConsistent p;
  leaves = disconnect_client-IsConsistent;
}

-- Whatever peers connect, send, read and close, in whatever order `select` reports it, the
-- registry of the running server is consistent.
pub run-initial-IsConsistent : (p : Platform) (es : List Selected) → IsConsistent (run p initial es)
run-initial-IsConsistent p es =
    run_keeps IsConsistent (IsConsistent-IsInvariant p) initial es initial-IsConsistent
