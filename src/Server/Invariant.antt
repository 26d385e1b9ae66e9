-- ===== src/Server/Invariant.antt =====
-- A rule for what the event loop of RemoteControl_rtc/SignalingServer/main.cpp keeps: it is enough to
-- look at a message, an edit of a client's buffers, a new socket and a socket that goes.
use webrtc_cpp_remote_contro.Base.{
  ℕ, zero, suc, ◌≡◌, inl, inr, Bool, not, ◌&&◌, List, [], ◌∷◌, Option, none, some, Bytes, length,
  is_empty, Bool-cases, Option-cases, nat_eq,
}
use mathlib.Core.Path.{subst}
use webrtc_cpp_remote_contro.Server.State.{Socket, Client, Server, client_at, update_client}
use webrtc_cpp_remote_contro.Server.Route.{route_message, disconnect_client}
use webrtc_cpp_remote_contro.Server.Registry.{Keeps}
use webrtc_cpp_remote_contro.Server.Connection.{
  Last, split_line, strip_cr, set_input, add_input, handle_line, drain, drain_all, too_long,
  read_client, write_client, write_at,
}
use webrtc_cpp_remote_contro.Server.Streams.{set_input-Keeps, add_input-Keeps, write_client-Keeps}
use webrtc_cpp_remote_contro.Server.Loop.{
  Platform, accept_client, accept_clients, Ready, serve_client, serve_clients, read_ready,
  write_ready, disconnect_all, sockets_of, turn, Selected, error, timed_out, ready, run,
}

pub record IsInvariant (p : Platform) (P : Server → Type 0) : Type 0 where
  pub routes : (s : Server) (socket : Socket) (json : Bytes) → P s → P (route_message s socket json)
  pub edits :
      (s : Server) (socket : Socket) (f : Client → Client)
      → ((c : Client) → client_at s socket ≡ some c → Keeps c (f c))
      → P s
      → P (update_client s socket f)
  pub accepts : (s : Server) (a : Socket × Bool) → P s → P (accept_client p s a)
  pub leaves : (s : Server) (socket : Socket) → P s → P (disconnect_client s socket)

module _ {p : Platform} (P : Server → Type 0) (i : IsInvariant p P) where
  handle_line_keeps :
      (s : Server) (socket : Socket) (line : Bytes) → P s → P (handle_line s socket line)
  unfolding handle_line
  handle_line_keeps s socket line v = elim (Bool-cases (is_empty (strip_cr line))) [
    | inl e ↦ rw e v
    | inr e ↦ rw e (i.routes s socket (strip_cr line) v)
  ]

  drain_keeps : (fuel : ℕ) (s : Server) (socket : Socket) → P s → P (drain fuel s socket)
  unfolding drain
  drain_keeps zero s socket v = v
  drain_keeps (suc fuel) s socket v = elim (Option-cases (client_at s socket)) [
    | inl e ↦ rw (e, drain) v
    | inr (c, e) ↦
        rw (e, drain)
          (elim (Option-cases (split_line c.receive_buffer)) [
            | inl n ↦ rw (n, drain) v
            | inr ((line, rest), n) ↦
                rw (n, drain)
                  (drain_keeps fuel _ socket (
                    handle_line_keeps _ socket line
                      (i.edits s socket (set_input rest) (λ d _. set_input-Keeps rest d) v)))
          ])
  ]

  drain_all_keeps : (s : Server) (socket : Socket) → P s → P (drain_all s socket)
  unfolding drain_all
  drain_all_keeps s socket v = elim (Option-cases (client_at s socket)) [
    | inl e ↦ rw (e, drain_all) v
    | inr (c, e) ↦ rw (e, drain_all) (drain_keeps (suc (length c.receive_buffer)) s socket v)
  ]

  pub read_client_keeps :
      (s : Server) (socket : Socket) (chunks : List Bytes) (last : Last)
      → P s
      → P (read_client s socket chunks last).0
  unfolding read_client
  read_client_keeps s socket [] last v = v
  read_client_keeps s socket (chunk ∷ chunks) last v =
      let w = i.edits s socket (add_input chunk) (λ d _. add_input-Keeps chunk d) v in
      let received = update_client s socket (add_input chunk) in
      elim (Bool-cases (too_long received socket)) [
        | inl e ↦ rw e w
        | inr e ↦ rw e (
            read_client_keeps (drain_all received socket) socket chunks last
              (drain_all_keeps received socket w))
      ]

  pub write_at_keeps :
      (s : Server) (socket : Socket) (counts : List ℕ) (b : Bool)
      → P s
      → P (write_at s socket counts b).0
  unfolding write_at
  write_at_keeps s socket counts b v = elim (Option-cases (client_at s socket)) [
    | inl e ↦ rw (e, write_at) v
    | inr (c, e) ↦
        rw (e, write_at)
          (i.edits s socket (λ d. (write_client c counts b []).client)
            (λ d ed.
              subst (λ x. Keeps x (write_client c counts b []).client) (cc)
                (write_client-Keeps c counts b []))
            v)
  ]

  accept_clients_keeps : (s : Server) (l : List (Socket × Bool)) → P s → P (accept_clients p s l)
  unfolding accept_clients
  accept_clients_keeps s [] v = v
  accept_clients_keeps s (a ∷ l) v = accept_clients_keeps (accept_client p s a) l (i.accepts s a v)

  read_ready_keeps :
      (s : Server) (socket : Socket) (o : Option (List Bytes × Last))
      → P s
      → P (read_ready s socket o).0
  read_ready_keeps s socket none v = v
  read_ready_keeps s socket (some (chunks, last)) v = read_client_keeps s socket chunks last v

  write_ready_keeps :
      (s : Server) (socket : Socket) (o : Option (List ℕ × Bool))
      → P s
      → P (write_ready s socket o).0
  write_ready_keeps s socket none v = v
  write_ready_keeps s socket (some (counts, b)) v = write_at_keeps s socket counts b v

  serve_client_keeps :
      (r : Ready) (s : Server) (socket : Socket) → P s → P (serve_client r s socket).0
  unfolding serve_client
  serve_client_keeps r s socket v =
      let read = read_ready s socket (r.readable socket) in
      let w = read_ready_keeps s socket (r.readable socket) v in
      elim (Bool-cases read.1) [
        | inl e ↦ rw e (write_ready_keeps read.0 socket (r.writable socket) w)
        | inr e ↦ rw e w
      ]

  serve_clients_keeps : (r : Ready) (s : Server) (l : List Socket) → P s → P (serve_clients r s l).0
  unfolding serve_clients
  serve_clients_keeps r s [] v = v
  serve_clients_keeps r s (socket ∷ l) v =
      serve_clients_keeps r (serve_client r s socket).0 l (serve_client_keeps r s socket v)

  pub disconnect_all_keeps : (s : Server) (l : List Socket) → P s → P (disconnect_all s l)
  unfolding disconnect_all
  disconnect_all_keeps s [] v = v
  disconnect_all_keeps s (socket ∷ l) v =
      disconnect_all_keeps (disconnect_client s socket) l (i.leaves s socket v)

  turn_keeps : (s : Server) (r : Ready) → P s → P (turn p s r)
  unfolding turn
  turn_keeps s r v =
      disconnect_all_keeps _
        (serve_clients r (accept_clients p s r.accepted)
          (sockets_of (accept_clients p s r.accepted))).1
        (serve_clients_keeps r _ (sockets_of (accept_clients p s r.accepted))
          (accept_clients_keeps s r.accepted v))

  pub run_keeps : (s : Server) (es : List Selected) → P s → P (run p s es)
  unfolding run
  run_keeps s [] v = v
  run_keeps s (error b ∷ es) v = elim (Bool-cases (not p.windows && b)) [
    | inl e ↦ rw e (run_keeps s es v)
    | inr e ↦ rw e v
  ]
  run_keeps s (timed_out ∷ es) v = run_keeps s es v
  run_keeps s (ready r ∷ es) v = run_keeps (turn p s r) es (turn_keeps s r v)
