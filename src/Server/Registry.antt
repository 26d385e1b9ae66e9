-- ===== src/Server/Registry.antt =====
-- The invariant that ties `g_users` to `g_clients` in RemoteControl_rtc/SignalingServer/main.cpp.
use mathlib.Core.Path.{subst}
use webrtc_cpp_remote_contro.Base.{
  ◌≤◌, ◌≡◌, ◌≢◌, refl, ◌∙◌, inl, inr, true, false, [], ◌∷◌, ◌==◌, Option, none, some, arith, Bytes,
  if◌then◌else◌, bytes_eq, bytes_eq_iff, length, lookup, lookup-cons, emplace_new, lookup-adjust,
  nat_eq, bytes_key, Bool-cases, ==_iff,
}
use webrtc_cpp_remote_contro.Server.State.{
  Socket, Client, Server, max_pending_send_bytes, client_at, acceptable, go_online,
}
use webrtc_cpp_remote_contro.Server.Buffers.{Grows, Related, Extends}

-- Every key holds the client of that socket, with its send buffer within the limit; the registered
-- users are exactly the user ids of the clients that are logged in, each under its own socket.
pub record IsConsistent (s : Server) : Type 0 where
  pub keyed : (k : Socket) (c : Client) → client_at s k ≡ some c → c.socket ≡ k
  pub bounded :
      (k : Socket) (c : Client)
      → client_at s k ≡ some c
      → length c.send_buffer ≤ max_pending_send_bytes
  pub listed :
      (u : Bytes) (k : Socket)
      → lookup u s.users ≡ some k
      → (c : Client) × (client_at s k ≡ some c) × (c.user_id ≡ u)
  pub online :
      (k : Socket) (c : Client)
      → client_at s k ≡ some c
      → c.user_id ≢ []
      → lookup c.user_id s.users ≡ some k
  pub nameless : lookup [] s.users ≡ none

-- What a client keeps while its buffers change.
pub record Keeps (c d : Client) : Type 0 where
  pub same_socket : d.socket ≡ c.socket
  pub same_user : d.user_id ≡ c.user_id
  pub limited :
      length c.send_buffer ≤ max_pending_send_bytes → length d.send_buffer ≤ max_pending_send_bytes

pub Grows-Keeps : (c d : Client) → Grows c d → Keeps c d
Grows-Keeps c d g = record {
  same_socket = g.same_socket;
  same_user = g.same_user;
  limited = g.limited;
}

-- A state after buffers changed: the same users, the same clients under the same names.
pub record Preserves (s t : Server) : Type 0 where
  pub same_users : t.users ≡ s.users
  pub kept : (k : Socket) → Related Keeps (client_at s k) (client_at t k)

Related-Keeps : (o p : Option Client) → Related Grows o p → Related Keeps o p
Related-Keeps none none r = tt
Related-Keeps none (some d) r = r
Related-Keeps (some c) none r = r
Related-Keeps (some c) (some d) r = Grows-Keeps c d r

Extends-Preserves : {s t : Server} → Extends s t → Preserves s t
Extends-Preserves {s} {t} x = record {
  same_users = x.same_users;
  kept = λ k. Related-Keeps (client_at s k) (client_at t k) (x.grown k);
}

-- A client of the later state, with the client of the earlier one, and the other way round.
pub Related-back :
    (R : Client → Client → Type 0) (o p : Option Client) (d : Client)
    → Related R o p
    → p ≡ some d
    → (c : Client) × (o ≡ some c) × R c d
Related-back R none none d r e = cc
Related-back R (some c) none d r e = cc
Related-back R none (some d') d r e = absurd r
Related-back R (some c) (some d') d r e = (c, refl, subst (R c) (ground arith) r)

pub Related-on :
    (R : Client → Client → Type 0) (o p : Option Client) (c : Client)
    → Related R o p
    → o ≡ some c
    → (d : Client) × (p ≡ some d) × R c d
Related-on R none none d r e = cc
Related-on R none (some c) d r e = cc
Related-on R (some c') none d r e = absurd r
Related-on R (some c') (some d) c r e = (d, refl, subst (λ x. R x d) (ground arith) r)

-- Changes of the buffers keep the invariant.
pub Preserves-IsConsistent : {s t : Server} → Preserves s t → IsConsistent s → IsConsistent t
Preserves-IsConsistent {s} {t} x v = record {
  keyed = λ k d e. let (c, ec, g) = back k d e in g.same_socket ∙ v.keyed k c ec;
  bounded = λ k d e. let (c, ec, g) = back k d e in g.limited (v.bounded k c ec);
  listed = λ u k e.
      let (c, ec, eu) = v.listed u k (rw x.same_users at e) in
      let (d, ed, g) = Related-on Keeps (client_at s k) (client_at t k) c (x.kept k) ec in
      (d, ed, g.same_user ∙ eu);
  online = λ k d e n.
      let (c, ec, g) = back k d e in
      rw (x.same_users, g.same_user) (v.online k c ec (λ z. n (g.same_user ∙ z)));
  nameless = rw x.same_users v.nameless;
}
  where
    back :
        (k : Socket) (d : Client)
        → client_at t k ≡ some d
        → (c : Client) × (client_at s k ≡ some c) × Keeps c d
    back k d e = Related-back Keeps (client_at s k) (client_at t k) d (x.kept k) e

pub Extends-IsConsistent : {s t : Server} → Extends s t → IsConsistent s → IsConsistent t
Extends-IsConsistent x v = Preserves-IsConsistent (Extends-Preserves x) v

pub acceptable_facts :
    (s : Server) (u : Bytes) → acceptable s u ≡ true → (u ≢ []) × (lookup u s.users ≡ none)
unfolding acceptable
acceptable_facts s [] h = cc
acceptable_facts s (c ∷ u) h = (cc, ground arith)

-- A user id is set for one client, and is entered under the socket of that client.
module _ (s : Server) (socket : Socket) (client : Client) (u : Bytes)
    (here : client_at s socket ≡ some client) where
  abbrev pub named : Client
  named = record client { user_id = u }

  pub client_at-go_online :
      (k : Socket)
      → client_at (go_online s socket client u) k
        ≡ (if socket == k then some named else client_at s k)
  unfolding go_online
  client_at-go_online k = elim (Bool-cases (socket == k)) [
    | inl hit ↦
        rw (lookup-adjust socket k (λ c. record c { user_id = u }) s.clients, hit)
          (rw (← (==_iff socket k).0 hit, here))
    | inr miss ↦ rw (lookup-adjust socket k (λ c. record c { user_id = u }) s.clients, miss)
  ]

  pub lookup-go_online :
      (j : Bytes)
      → lookup u s.users ≡ none
      → lookup j (go_online s socket client u).users
        ≡ (if bytes_eq u j then some client.socket else lookup j s.users)
  unfolding go_online
  lookup-go_online j h =
      rw (emplace_new u client.socket s.users h) (lookup-cons u j client.socket s.users)

  go_online_listed :
      IsConsistent s
      → client.user_id ≡ []
      → lookup u s.users ≡ none
      → (j : Bytes) (k : Socket) → lookup j (go_online s socket client u).users ≡ some k
      → (c : Client) × (client_at (go_online s socket client u) k ≡ some c) × (c.user_id ≡ j)
  go_online_listed v anonymous fresh j k e = elim (Bool-cases (bytes_eq u j)) [
    | inl hit ↦
        let at_k : socket ≡ k =
          ground (arith, lookup-go_online j fresh, v.keyed socket client here) in
        (named, ground (arith, client_at-go_online k, ==_iff socket k), (bytes_eq_iff u j).0 hit)
    | inr miss ↦
        let old : lookup j s.users ≡ some k = ground (arith, lookup-go_online j fresh) in
        let (c, ec, eu) = v.listed j k old in
        let other : (socket == k) ≡ false = elim (Bool-cases (socket == k)) [
          | inl same ↦
              let j_empty : j ≡ [] = ground (arith, ==_iff socket k) in
              absurd (grind (arith, v.nameless))
          | inr d ↦ d
        ] in
        (c, ground (arith, client_at-go_online k), eu)
  ]

  pub go_online-IsConsistent :
      IsConsistent s
      → client.user_id ≡ []
      → u ≢ []
      → lookup u s.users ≡ none
      → IsConsistent (go_online s socket client u)
  go_online-IsConsistent v anonymous nonempty fresh = record {
    keyed = λ k c e.
        ground
          (arith, client_at-go_online k, ==_iff socket k, v.keyed k c, v.keyed socket client here);
    bounded = λ k c e. ground (
      arith,
      client_at-go_online k,
      ==_iff socket k,
      v.bounded k c,
      v.bounded socket client here,
    );
    listed = λ j k e. go_online_listed v anonymous fresh j k e;
    online = λ k c e n. ground (
      arith,
      client_at-go_online k,
      ==_iff socket k,
      lookup-go_online c.user_id fresh,
      bytes_eq_iff u c.user_id,
      v.keyed socket client here,
      v.online k c,
    );
    nameless = ground (arith, lookup-go_online [] fresh, bytes_eq_iff u [], v.nameless);
  }
