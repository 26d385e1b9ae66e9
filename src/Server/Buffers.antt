-- ===== src/Server/Buffers.antt =====
-- What queueing lines may change in the state of RemoteControl_rtc/SignalingServer/main.cpp.
use mathlib.Core.Option
use webrtc_cpp_remote_contro.Base.{
  ◌+◌, ◌≤◌, ◌≡◌, refl, sym, ap, ◌∙◌, inl, inr, Bool, true, false, [], ◌∷◌, ◌++◌, append-nil,
  append_assoc, Option, none, some, arith, Bytes, length, length-append, ◌==◌, not, ◌&&◌, is_empty,
  bytes_eq, lookup-adjust, length-adjust, lookup-map_values, length-map_values, nat_eq, Bool-cases,
  Option-cases,
}
use webrtc_cpp_remote_contro.Server.State.{
  Socket, Client, Server, max_pending_send_bytes, client_at, overflows, append_line, update_client,
  queue_line, queue_line_at, announce, broadcast_presence, presence_message,
}

-- A client after lines were queued for it: nothing is taken back, and the buffer keeps its limit.
pub record Grows (c d : Client) : Type 0 where
  pub same_socket : d.socket ≡ c.socket
  pub same_user : d.user_id ≡ c.user_id
  pub same_input : d.receive_buffer ≡ c.receive_buffer
  pub added : Bytes
  pub appended : d.send_buffer ≡ c.send_buffer ++ added
  pub limited :
      length c.send_buffer ≤ max_pending_send_bytes → length d.send_buffer ≤ max_pending_send_bytes

pub Grows-refl : (c : Client) → Grows c c
Grows-refl c = record {
  same_socket = refl;
  same_user = refl;
  same_input = refl;
  added = [];
  appended = sym (append-nil _);
  limited = λ h. h;
}

pub Grows-trans : (c d e : Client) → Grows c d → Grows d e → Grows c e
Grows-trans c d e g h = record {
  same_socket = h.same_socket ∙ g.same_socket;
  same_user = h.same_user ∙ g.same_user;
  same_input = h.same_input ∙ g.same_input;
  added = g.added ++ h.added;
  appended =
      h.appended ∙ ap (λ b. b ++ h.added) g.appended ∙ append_assoc c.send_buffer g.added h.added;
  limited = λ l. h.limited (g.limited l);
}

-- While the buffer keeps its limit the difference in `QueueLine` does not wrap around, so a line
-- is refused exactly when it and its newline do not fit.
pub queue_line_fits :
    (c : Client) (json : Bytes)
    → length c.send_buffer ≤ max_pending_send_bytes
    → (length c.send_buffer + (length json + 1) ≤ max_pending_send_bytes)
    → queue_line c json ≡ (append_line c json, true)
unfolding queue_line
queue_line_fits c json h k = ground arith

pub queue_line_full :
    (c : Client) (json : Bytes)
    → length c.send_buffer ≤ max_pending_send_bytes
    → max_pending_send_bytes + 1 ≤ length c.send_buffer + (length json + 1)
    → queue_line c json ≡ (c, false)
unfolding queue_line
queue_line_full c json h k = ground arith

length-append_line :
    (c : Client) (json : Bytes)
    → length (append_line c json).send_buffer ≡ length c.send_buffer + (length json + 1)
length-append_line c json =
    omega (arith, length-append c.send_buffer (json ++ b'\n' ∷ []), length-append json (b'\n' ∷ []))

append_line-Grows :
    (c : Client) (json : Bytes) → overflows c json ≡ false → Grows c (append_line c json)
append_line-Grows c json h = record {
  same_socket = refl;
  same_user = refl;
  same_input = refl;
  added = json ++ b'\n' ∷ [];
  appended = refl;
  limited = λ l. ground (arith, length-append_line c json);
}

pub queue_line-Grows : (c : Client) (json : Bytes) → Grows c (queue_line c json).0
unfolding queue_line
queue_line-Grows c json = elim (Bool-cases (overflows c json)) [
  | inl full ↦ rw full (Grows-refl c)
  | inr fits ↦ rw fits (append_line-Grows c json fits)
]

-- Two states of `g_clients` agree at a key, or hold clients there that `R` relates.
abbrev pub Related {ℓ} : {A : Type ℓ} → (A → A → Type 0) → Option A → Option A → Type 0
Related R none none = Unit
Related R (some a) (some b) = R a b
Related R _ _ = ⊥

-- A state after lines were queued: the same users, the same clients, longer send buffers.
pub record Extends (s t : Server) : Type 0 where
  pub same_users : t.users ≡ s.users
  pub grown : (k : Socket) → Related Grows (client_at s k) (client_at t k)
  pub same_count : length t.clients ≡ length s.clients

Related-refl : (o : Option Client) → Related Grows o o
Related-refl none = tt
Related-refl (some c) = Grows-refl c

Related-trans : (o p q : Option Client) → Related Grows o p → Related Grows p q → Related Grows o q
Related-trans none none none g h = tt
Related-trans (some c) (some d) (some e) g h = Grows-trans c d e g h
Related-trans none none (some e) g h = h
Related-trans none (some d) q g h = absurd g
Related-trans (some c) none q g h = absurd g
Related-trans (some c) (some d) none g h = h

Related-map :
    (f : Client → Client)
    → ((c : Client) → Grows c (f c))
    → (o : Option Client) → Related Grows o (Option.map f o)
Related-map f h none = tt
Related-map f h (some c) = h c

pub Extends-refl : (s : Server) → Extends s s
Extends-refl s = record {
  same_users = refl;
  grown = λ k. Related-refl (client_at s k);
  same_count = refl;
}

pub Extends-trans : {s t u : Server} → Extends s t → Extends t u → Extends s u
Extends-trans {s} {t} {u} g h = record {
  same_users = h.same_users ∙ g.same_users;
  grown =
      λ k. Related-trans (client_at s k) (client_at t k) (client_at u k) (g.grown k) (h.grown k);
  same_count = h.same_count ∙ g.same_count;
}

update_client-Extends :
    (s : Server) (socket : Socket) (f : Client → Client)
    → ((c : Client) → Grows c (f c))
    → Extends s (update_client s socket f)
update_client-Extends s socket f h = record {
  same_users = refl;
  grown = λ k. rw (lookup-adjust socket k f s.clients) (elim (Bool-cases (socket == k)) [
    | inl hit ↦ rw hit (Related-map f h (client_at s k))
    | inr miss ↦ rw miss (Related-refl (client_at s k))
  ]);
  same_count = length-adjust socket f s.clients;
}

pub queue_line_at-Extends :
    (s : Server) (socket : Socket) (json : Bytes) → Extends s (queue_line_at s socket json).0
unfolding queue_line_at
queue_line_at-Extends s socket json = elim (Option-cases (client_at s socket)) [
  | inl e ↦ rw (e, queue_line_at) (Extends-refl s)
  | inr (c, e) ↦
      rw (e, queue_line_at)
        (update_client-Extends s socket (λ d. (queue_line d json).0) (λ d. queue_line-Grows d json))
]

announce-Grows : (user_id message : Bytes) (c : Client) → Grows c (announce user_id message c)
unfolding announce
announce-Grows user_id message c =
    elim (Bool-cases (not (is_empty c.user_id) && not (bytes_eq c.user_id user_id))) [
      | inl told ↦ rw told (queue_line-Grows c message)
      | inr skipped ↦ rw skipped (Grows-refl c)
    ]

pub broadcast_presence-Extends :
    (s : Server) (user_id : Bytes) (online : Bool) → Extends s (broadcast_presence s user_id online)
unfolding broadcast_presence
broadcast_presence-Extends s user_id online =
    let f = announce user_id (presence_message user_id online) in
    record {
      same_users = refl;
      grown = λ k. rw (lookup-map_values k f s.clients) (
          Related-map f (announce-Grows user_id (presence_message user_id online)) (client_at s k));
      same_count = length-map_values f s.clients;
    }
