-- ===== src/Server/Departure.antt =====
-- `DisconnectClient` of RemoteControl_rtc/SignalingServer/main.cpp.
use mathlib.Core.Path.{subst}
use mathlib.Core.Option
use webrtc_cpp_remote_contro.Base.{
  ◌≡◌, ◌≢◌, refl, ap, ◌∙◌, ◌⊎◌, inl, inr, Bool, true, false, lookup-map_values, [], ◌==◌, Option,
  none, some, arith, Bytes, if◌then◌else◌, is_empty, bytes_eq, bytes_eq_iff, lookup, erase,
  lookup-erase, nat_eq, bytes_key, Bool-cases, Option-cases, ==_iff,
}
use webrtc_cpp_remote_contro.Server.State.{
  Socket, Client, Server, client_at, announce, presence_message, broadcast_presence,
}
use webrtc_cpp_remote_contro.Server.News.{told, map-told}
use webrtc_cpp_remote_contro.Server.Route.{forget_user, remove_client, disconnect_client}
use webrtc_cpp_remote_contro.Server.Buffers.{
  Grows, Related, Extends, Extends-refl, broadcast_presence-Extends,
}
use webrtc_cpp_remote_contro.Server.Registry.{IsConsistent, Extends-IsConsistent}

if-both :
    (b : Bool) (s t : Server) (k : Socket) (o p : Option Client)
    → client_at s k ≡ o
    → client_at t k ≡ p
    → client_at (if b then s else t) k ≡ (if b then o else p)
if-both true s t k o p h g = h
if-both false s t k o p h g = g

module _ (s : Server) (socket : Socket) (client : Client) (v : IsConsistent s)
    (here : client_at s socket ≡ some client) where
  known : Server
  known = if is_empty client.user_id then s else forget_user s client.user_id socket

  gone : Server
  unfolding known
  gone = record known { clients = erase socket known.clients }

  known_cases :
      ((client.user_id ≡ []) × (known ≡ s))
      ⊎ ((client.user_id ≢ []) × (known ≡ record s { users = erase client.user_id s.users }))
  unfolding known forget_user
  known_cases = ground (arith, v.online socket client here)

  lookup-gone :
      (j : Bytes)
      → lookup j gone.users ≡ (if bytes_eq client.user_id j then none else lookup j s.users)
  unfolding gone
  lookup-gone j = elim known_cases [
    | inl (e, k) ↦ rw (k, known) (ground (arith, bytes_eq_iff client.user_id j, v.nameless))
    | inr (n, k) ↦ rw k (lookup-erase client.user_id j s.users)
  ]

  client_at-gone : (k : Socket) → client_at gone k ≡ (if socket == k then none else client_at s k)
  unfolding gone
  client_at-gone k = elim known_cases [
    | inl (e, q) ↦ rw q (lookup-erase socket k s.clients)
    | inr (n, q) ↦ rw q (lookup-erase socket k s.clients)
  ]

  gone_listed :
      (u : Bytes) (k : Socket)
      → lookup u gone.users ≡ some k
      → (c : Client) × (client_at gone k ≡ some c) × (c.user_id ≡ u)
  gone_listed u k e =
      let old : lookup u s.users ≡ some k = ground (arith, lookup-gone u) in
      let (c, ec, eu) = v.listed u k old in
      (
        c,
        ground (
          arith,
          client_at-gone k,
          ==_iff socket k,
          lookup-gone u,
          bytes_eq_iff client.user_id u,
        ),
        eu,
      )

  gone-IsConsistent : IsConsistent gone
  gone-IsConsistent = record {
    keyed = λ k c e. ground (arith, client_at-gone k, v.keyed k c);
    bounded = λ k c e. ground (arith, client_at-gone k, v.bounded k c);
    listed = gone_listed;
    online = λ k c e n. ground (
      arith,
      client_at-gone k,
      lookup-gone c.user_id,
      ==_iff socket k,
      bytes_eq_iff client.user_id c.user_id,
      v.online k c,
      v.online socket client here,
    );
    nameless = ground (arith, lookup-gone [], v.nameless);
  }

  remove_client-Extends : Extends gone (remove_client s socket client)
  unfolding remove_client gone known
  remove_client-Extends = elim (Bool-cases (is_empty client.user_id)) [
    | inl e ↦ rw e (Extends-refl _)
    | inr e ↦ rw e (broadcast_presence-Extends _ client.user_id false)
  ]

  other_name :
      (k : Socket) (c : Client)
      → socket ≢ k
      → client_at s k ≡ some c
      → is_empty c.user_id ≡ false
      → bytes_eq c.user_id client.user_id ≡ false
  other_name k c n e h = ground (
    arith,
    bytes_eq_iff c.user_id client.user_id,
    v.online k c,
    v.online socket client here,
    e,
    h,
    n,
  )

  client_at-other : (k : Socket) → socket ≢ k → client_at gone k ≡ client_at s k
  client_at-other k n = ground (arith, client_at-gone k, ==_iff socket k)

  broadcast-other :
      (k : Socket)
      → socket ≢ k
      → client_at (broadcast_presence gone client.user_id false) k
        ≡ Option.map (told (presence_message client.user_id false)) (client_at s k)
  unfolding broadcast_presence
  broadcast-other k n =
      lookup-map_values k (announce client.user_id (presence_message client.user_id false))
        gone.clients
      ∙ ap (Option.map (announce client.user_id (presence_message client.user_id false)))
          (client_at-other k n)
      ∙ map-told client.user_id (presence_message client.user_id false) (client_at s k)
          (λ c e. (v.bounded k c e, other_name k c n e))

  remove_client-told :
      (k : Socket)
      → socket ≢ k
      → client_at (remove_client s socket client) k ≡ (
          if is_empty client.user_id
          then client_at s k
          else Option.map (told (presence_message client.user_id false)) (client_at s k))
  unfolding remove_client gone known
  remove_client-told k n =
      if-both (is_empty client.user_id) gone (broadcast_presence gone client.user_id false) k _ _
        (client_at-other k n) (broadcast-other k n)

Related-none : (p : Option Client) → Related Grows none p → p ≡ none
Related-none none r = refl
Related-none (some c) r = absurd r

module _ (s : Server) (socket : Socket) (client : Client) (v : IsConsistent s)
    (here : client_at s socket ≡ some client) where
  disconnect_client-Extends : Extends (gone s socket client v here) (disconnect_client s socket)
  unfolding disconnect_client
  disconnect_client-Extends =
      rw (here, disconnect_client) (remove_client-Extends s socket client v here)

  -- A disconnected client is gone, its user id is free again, and every other user id stays
  -- registered under its socket.
  pub disconnect_client_frees :
      (u : Bytes)
      → let t = disconnect_client s socket in
        (client_at t socket ≡ none)
        × (lookup u t.users ≡ (if bytes_eq client.user_id u then none else lookup u s.users))
  disconnect_client_frees u =
      let x = disconnect_client-Extends in
      let self : client_at (gone s socket client v here) socket ≡ none =
        ground (arith, client_at-gone s socket client v here socket) in
      (
        Related-none _ (
            subst (λ o. Related Grows o (client_at (disconnect_client s socket) socket)) self
              (x.grown socket)),
        rw x.same_users (lookup-gone s socket client v here u),
      )

  pub disconnect_client-Grows :
      (k : Socket)
      → socket ≢ k
      → Related Grows (client_at s k) (client_at (disconnect_client s socket) k)
  disconnect_client-Grows k n =
      let other : client_at (gone s socket client v here) k ≡ client_at s k =
        ground (arith, client_at-gone s socket client v here k, ==_iff socket k) in
      subst (λ o. Related Grows o (client_at (disconnect_client s socket) k)) other
        (disconnect_client-Extends.grown k)

  -- In a consistent state, when a client is disconnected, every other client that is logged in has the
  -- news that the user left queued as one whole line, if the client had a user id and the line fits;
  -- nothing else happens to any other client.
  pub disconnect_client_others :
      (k : Socket)
      → socket ≢ k
      → client_at (disconnect_client s socket) k ≡ (
          if is_empty client.user_id
          then client_at s k
          else Option.map (told (presence_message client.user_id false)) (client_at s k))
  unfolding disconnect_client
  disconnect_client_others k n =
      rw (here, disconnect_client) (remove_client-told s socket client v here k n)

-- Disconnecting keeps the registry consistent.
pub disconnect_client-IsConsistent :
    (s : Server) (socket : Socket) → IsConsistent s → IsConsistent (disconnect_client s socket)
unfolding disconnect_client
disconnect_client-IsConsistent s socket v = elim (Option-cases (client_at s socket)) [
  | inl e ↦ rw (e, disconnect_client) v
  | inr (client, e) ↦
      rw (e, disconnect_client)
        (Extends-IsConsistent (remove_client-Extends s socket client v e)
          (gone-IsConsistent s socket client v e))
]
