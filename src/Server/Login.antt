-- ===== src/Server/Login.antt =====
-- `RegisterClient` of RemoteControl_rtc/SignalingServer/main.cpp, on every branch.
use mathlib.Core.Option
use webrtc_cpp_remote_contro.Base.{
  ℕ, ◌+◌, ◌≤◌, ◌<◌, ◌≡◌, ◌≢◌, ◌⊎◌, ◌++◌, [], ◌∷◌, is_empty, bytes_eq_iff, refl, ap, ◌∙◌, inl, inr,
  Bool, true, false, ◌==◌, ==_iff, Option, some, arith, Bytes, if◌then◌else◌, bytes_eq,
  bytes_eq_self, length, lookup, lookup-map_values, nat_eq, bytes_key, Bool-cases,
}
use webrtc_cpp_remote_contro.Server.State.{
  Socket, Client, Server, max_pending_send_bytes, client_at, append_line, queue_line_at,
  build_presence_snapshot, presence_message, announce, broadcast_presence, acceptable, go_online,
  register_client, printable,
}
use webrtc_cpp_remote_contro.Server.Buffers.{
  queue_line_fits, queue_line_at-Extends, broadcast_presence-Extends,
}
use webrtc_cpp_remote_contro.Server.News.{told, map-told}
use webrtc_cpp_remote_contro.Server.Registry.{
  IsConsistent, acceptable_facts, named, client_at-go_online, lookup-go_online,
}
use webrtc_cpp_remote_contro.Server.Routing.{client_at-queue_line_at, client_at-queue_line_at_self}

-- The list of users that a new user is sent.
abbrev pub welcome : Server → Socket → Client → Bytes → Bytes
welcome s socket client u = build_presence_snapshot (go_online s socket client u) u

-- A byte of a user id that JSON would have to escape.
abbrev pub IsUnprintable : ℕ → Type 0
IsUnprintable c = (c < 0x20) ⊎ ((c ≡ b'"') ⊎ (c ≡ b'\\'))

-- Why a user id is refused: it is empty, longer than 128 bytes, taken, or has a byte that is not
-- printable.
abbrev pub IsRefused : Server → Bytes → Type 0
IsRefused s u =
    (u ≡ [])
    ⊎ ((128 < length u)
        ⊎ (((k : Socket) × (lookup u s.users ≡ some k))
            ⊎ ((first : Bytes) × (c : ℕ) × (behind : Bytes) × (u ≡ first ++ c ∷ behind)
                × IsUnprintable c)))

printable-IsUnprintable :
    (first : Bytes) (c : ℕ) (behind : Bytes)
    → IsUnprintable c
    → printable (first ++ c ∷ behind) ≡ false
unfolding printable
printable-IsUnprintable [] c behind h = ground (arith, h)
printable-IsUnprintable (d ∷ first) c behind h =
    ground (arith, printable-IsUnprintable first c behind h)

IsRefused-acceptable : (s : Server) (u : Bytes) → IsRefused s u → acceptable s u ≡ false
unfolding acceptable
IsRefused-acceptable s u (inl e) = ground (arith, e)
IsRefused-acceptable s u (inr (inl h)) = ground (arith, h)
IsRefused-acceptable s u (inr (inr (inl (k, e)))) = ground (arith, e)
IsRefused-acceptable s u (inr (inr (inr (first, c, behind, e, h)))) =
    ground (arith, e, printable-IsUnprintable first c behind h)

-- A user id that is empty, longer than 128 bytes, taken by a client, or that has a byte below 0x20, a
-- quote or a backslash somewhere, is refused and changes nothing.
pub register_client_refused :
    (s : Server) (socket : Socket) (client : Client) (u : Bytes)
    → IsRefused s u
    → register_client s socket client u ≡ (s, false)
unfolding register_client
register_client_refused s socket client u h = rw (IsRefused-acceptable s u h)

client_at-broadcast_presence :
    (s : Server) (u : Bytes) (b : Bool) (k : Socket)
    → client_at (broadcast_presence s u b) k
      ≡ Option.map (announce u (presence_message u b)) (client_at s k)
unfolding broadcast_presence
client_at-broadcast_presence s u b k =
    lookup-map_values k (announce u (presence_message u b)) s.clients

else-told :
    (b : Bool) (x y z : Option Client)
    → (b ≡ false → y ≡ z)
    → (if b then x else y) ≡ (if b then x else z)
else-told true x y z h = refl
else-told false x y z h = h refl

announce_self : (u message : Bytes) (c : Client) → c.user_id ≡ u → announce u message c ≡ c
unfolding announce
announce_self u message c e = rw (e, bytes_eq_self u) (ground (arith))

module _ (s : Server) (socket : Socket) (client : Client) (u : Bytes)
    (here : client_at s socket ≡ some client) (fine : acceptable s u ≡ true) where
  online : Server
  online = go_online s socket client u

  at_self : client_at online socket ≡ some (named s socket client u here)
  unfolding online
  at_self = ground (arith, client_at-go_online s socket client u here socket, ==_iff socket socket)

  at_key :
      (k : Socket)
      → client_at (queue_line_at online socket (welcome s socket client u)).0 socket
        ≡ some (append_line (named s socket client u here) (welcome s socket client u))
      → Option.map
          (announce u (presence_message u true))
          (client_at (queue_line_at online socket (welcome s socket client u)).0 k)
        ≡ (if socket == k
            then some (append_line (named s socket client u here) (welcome s socket client u))
            else Option.map (announce u (presence_message u true)) (client_at s k))
  unfolding online
  at_key k q = elim (Bool-cases (socket == k)) [
    | inl hit ↦ rw (hit, ← (==_iff socket k).0 hit, q) (ap some (announce_self u _ _ refl))
    | inr miss ↦ rw miss (
        ap (Option.map (announce u (presence_message u true))) (
          client_at-queue_line_at online socket k (welcome s socket client u) (λ e. ground (arith))
          ∙ ground (arith, client_at-go_online s socket client u here k)))
  ]

  register_client_announces :
      (k : Socket) (j : Bytes)
      → length client.send_buffer + (length (welcome s socket client u) + 1)
        ≤ max_pending_send_bytes
      → let r = register_client s socket client u in
        (r.1 ≡ true)
        × (client_at r.0 k ≡ (
            if socket == k
            then some (append_line (named s socket client u here) (welcome s socket client u))
            else Option.map (announce u (presence_message u true)) (client_at s k)))
        × (lookup j r.0.users ≡ (if bytes_eq u j then some client.socket else lookup j s.users))
  unfolding register_client online
  register_client_announces k j fits =
      let snapshot = welcome s socket client u in
      let fresh = (acceptable_facts s u fine).1 in
      let (q_self, q_result) =
        client_at-queue_line_at_self online socket snapshot (named s socket client u here)
          at_self in
      let done = queue_line_fits (named s socket client u here) snapshot (omega arith) fits in
      let sent : (queue_line_at online socket snapshot).1 ≡ true = q_result ∙ ap (λ x. x.1) done in
      rw (fine, sent)
        (
          refl,
          client_at-broadcast_presence _ u true k ∙ at_key k (q_self ∙ ap (λ x. some x.0) done),
          rw (broadcast_presence-Extends _ u true).same_users (
              rw (queue_line_at-Extends online socket snapshot).same_users
                (lookup-go_online s socket client u here j fresh)),
        )

  -- The other clients with a name have another one.
  other_name :
      IsConsistent s
      → (k : Socket) (c : Client) → client_at s k ≡ some c
      → is_empty c.user_id ≡ false
      → bytes_eq c.user_id u ≡ false
  other_name v k c e n =
      ground (arith, bytes_eq_iff c.user_id u, v.online k c, (acceptable_facts s u fine).1, e, n)

  others_told :
      IsConsistent s
      → (k : Socket) → socket ≢ k
      → Option.map (announce u (presence_message u true)) (client_at s k)
        ≡ Option.map (told (presence_message u true)) (client_at s k)
  others_told v k n =
      map-told u (presence_message u true) (client_at s k)
        (λ c e. (v.bounded k c e, other_name v k c e))

  -- In a consistent state, with an acceptable user id and room for the list of users, the client is
  -- registered and gets the list; every other client that is logged in has the news queued as one whole
  -- line if it fits, and every other client stays as it is.
  pub register_client_lem :
      (k : Socket) (j : Bytes)
      → IsConsistent s
      → length client.send_buffer + (length (welcome s socket client u) + 1)
        ≤ max_pending_send_bytes
      → let r = register_client s socket client u in
        (r.1 ≡ true)
        × (client_at r.0 k ≡ (
            if socket == k
            then some (append_line (named s socket client u here) (welcome s socket client u))
            else Option.map (told (presence_message u true)) (client_at s k)))
        × (lookup j r.0.users ≡ (if bytes_eq u j then some client.socket else lookup j s.users))
  register_client_lem k j v fits =
      let (done, state, users) = register_client_announces k j fits in
      (
        done,
        state
            ∙ else-told (socket == k) _ _ _
                (λ e. others_told v k (λ q. ground (arith, ==_iff socket k, e, q))),
        users,
      )
