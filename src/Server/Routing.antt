-- ===== src/Server/Routing.antt =====
-- Who receives what in `RouteMessage` of RemoteControl_rtc/SignalingServer/main.cpp.
use mathlib.Core.Path.{subst}
use webrtc_cpp_remote_contro.Base.{
  ◌+◌, ◌≤◌, ◌≡◌, ◌≢◌, refl, sym, ap, ◌∙◌, ◌⊎◌, inl, inr, Bool, true, false, ◌==◌, ==_iff, some,
  arith, Bytes, codes, if◌then◌else◌, is_empty, bytes_eq, bytes_eq_iff, length, lookup-adjust,
  nat_eq, bytes_key, Bool-cases, Option-cases,
}
use webrtc_cpp_remote_contro.Server.Text.{string_field, add_sender}
use webrtc_cpp_remote_contro.Server.State.{
  Socket, Client, Server, max_pending_send_bytes, client_at, overflows, append_line, queue_line,
  queue_line_at,
}
use webrtc_cpp_remote_contro.Server.Route.{
  reply, error_line, routable, find_target, deliver, forward, route_from, route_message,
}
use webrtc_cpp_remote_contro.Server.Safety.{forward_cases}

pub client_at-queue_line_at :
    (s : Server) (socket k : Socket) (json : Bytes)
    → socket ≢ k
    → client_at (queue_line_at s socket json).0 k ≡ client_at s k
unfolding queue_line_at
client_at-queue_line_at s socket k json n = elim (Option-cases (client_at s socket)) [
  | inl e ↦ rw (e, queue_line_at)
  | inr (c, e) ↦
      rw (e, queue_line_at)
        (ground
          (arith, lookup-adjust socket k (λ c. (queue_line c json).0) s.clients, ==_iff socket k))
]

pub client_at-queue_line_at_self :
    (s : Server) (socket : Socket) (json : Bytes) (c : Client)
    → client_at s socket ≡ some c
    → (client_at (queue_line_at s socket json).0 socket ≡ some (queue_line c json).0)
      × ((queue_line_at s socket json).1 ≡ (queue_line c json).1)
unfolding queue_line_at
client_at-queue_line_at_self s socket json c e =
    rw (e, queue_line_at)
      (
        ground (
          arith,
          lookup-adjust socket socket (λ c. (queue_line c json).0) s.clients,
          ==_iff socket socket,
        ),
        refl,
      )

-- What a client other than the sender finds after a message that is not a login: nothing new; or one
-- line, the message with the sender's registered user id, and then it was the named target of an
-- offer, an answer, a candidate or a hangup of a logged-in sender, and StringField read fromUserId of
-- the message as empty.
abbrev pub Receives : Server → Client → Bytes → Socket → Server → Type 0
Receives s sender json k t =
    (client_at t k ≡ client_at s k)
    ⊎ ((c : Client) × (client_at s k ≡ some c)
        × (client_at t k ≡ some (append_line c (add_sender json sender.user_id)))
        × (find_target s (string_field json (codes "toUserId")) ≡ some k)
        × (is_empty sender.user_id ≡ false)
        × (routable (string_field json (codes "type")) ≡ true)
        × (is_empty (string_field json (codes "fromUserId")) ≡ true))

module _ (s : Server) (socket k : Socket) (sender : Client) (json : Bytes)
    (other : socket ≢ k) where
  reply-Receives : (line : Bytes) → Receives s sender json k (reply s socket line)
  reply-Receives line = inl (client_at-queue_line_at s socket k line other)

  queued_or_not :
      (c : Client)
      → client_at s k ≡ some c
      → let q = queue_line_at s k (add_sender json sender.user_id) in
        ((q.1 ≡ true) × (client_at q.0 k ≡ some (append_line c (add_sender json sender.user_id))))
        ⊎ ((q.1 ≡ false) × (client_at q.0 k ≡ client_at s k))
  unfolding queue_line
  queued_or_not c e =
      let routed = add_sender json sender.user_id in
      let (at_k, result) = client_at-queue_line_at_self s k routed c e in
      elim (Bool-cases (overflows c routed)) [
        | inl f ↦ inr (ground (arith), ground (arith))
        | inr f ↦ inl (ground (arith), ground (arith))
      ]

  find_target_client :
      (target_id : Bytes)
      → find_target s target_id ≡ some k
      → (c : Client) × (client_at s k ≡ some c)
  unfolding find_target
  find_target_client target_id e = elim (Option-cases (client_at s k)) [
    | inr found ↦ found
    | inl e' ↦ absurd (ground arith)
  ]

  deliver_here :
      (c : Client)
      → client_at s k ≡ some c
      → (find_target s (string_field json (codes "toUserId")) ≡ some k)
      → (is_empty sender.user_id ≡ false)
      → (routable (string_field json (codes "type")) ≡ true)
      → (is_empty (string_field json (codes "fromUserId")) ≡ true)
      → Receives s sender json k (deliver s socket sender json k)
  unfolding deliver
  deliver_here c e found logged_in allowed unsigned =
      let routed = add_sender json sender.user_id in
      let failed = error_line (codes "route_failed") in
      elim (Bool-cases (is_empty routed)) [
        | inl f ↦ rw f (reply-Receives failed)
        | inr f ↦ rw f (elim (queued_or_not c e) [
          | inl (sent, at_k) ↦ rw sent (inr (c, e, at_k, found, logged_in, allowed, unsigned))
          | inr (full, at_k) ↦ rw full (
              inl
                (client_at-queue_line_at (queue_line_at s k routed).0 socket k failed other ∙ at_k))
        ])
      ]

  deliver_elsewhere :
      (target : Socket)
      → target ≢ k
      → client_at (deliver s socket sender json target) k ≡ client_at s k
  unfolding deliver
  deliver_elsewhere target n =
      let routed = add_sender json sender.user_id in
      let failed = error_line (codes "route_failed") in
      let kept = client_at-queue_line_at s target k routed n in
      elim (Bool-cases (is_empty routed)) [
        | inl f ↦ rw f (client_at-queue_line_at s socket k failed other)
        | inr f ↦ rw f (elim (Bool-cases (queue_line_at s target routed).1) [
          | inl sent ↦ rw sent kept
          | inr full ↦ rw full (
              client_at-queue_line_at (queue_line_at s target routed).0 socket k failed other
              ∙ kept)
        ])
      ]

  deliver-Receives :
      (target : Socket)
      → is_empty sender.user_id ≡ false
      → routable (string_field json (codes "type")) ≡ true
      → is_empty (string_field json (codes "fromUserId")) ≡ true
      → find_target s (string_field json (codes "toUserId")) ≡ some target
      → Receives s sender json k (deliver s socket sender json target)
  deliver-Receives target logged_in allowed unsigned found = elim (Bool-cases (target == k)) [
    | inr miss ↦ inl (deliver_elsewhere target (λ e. ground (arith)))
    | inl hit ↦
        let same = (==_iff target k).0 hit in
        let found_k : find_target s (string_field json (codes "toUserId")) ≡ some k =
          found ∙ ap some same in
        let (c, e) = find_target_client (string_field json (codes "toUserId")) found_k in
        rw same (deliver_here c e found_k logged_in allowed unsigned)
  ]

  route_from-Receives :
      bytes_eq (string_field json (codes "type")) (codes "login") ≡ false
      → Receives s sender json k (route_from s socket sender json)
  unfolding route_from
  route_from-Receives no_login =
      elim (Bool-cases (bytes_eq (string_field json (codes "type")) (codes "ping"))) [
        | inl e ↦ rw e (reply-Receives _)
        | inr e ↦
            rw (e, no_login)
              (elim (Bool-cases (is_empty sender.user_id)) [
                | inl f ↦ choose f (reply-Receives (error_line (codes "not_logged_in")))
                | inr f ↦ choose f (
                    forward_cases (Receives s sender json k) s socket sender json reply-Receives
                      (λ target allowed unsigned found.
                        deliver-Receives target f allowed unsigned found))
              ])
      ]
    where
      choose :
          {b : Bool}
          → is_empty sender.user_id ≡ b
          → Receives s sender json k (
              if b
              then reply s socket (error_line (codes "not_logged_in"))
              else forward s socket sender json)
          → Receives s sender json k (
              if is_empty sender.user_id
              then reply s socket (error_line (codes "not_logged_in"))
              else forward s socket sender json)
      choose f h =
          subst
            (λ c. Receives s sender json k (
              if c
              then reply s socket (error_line (codes "not_logged_in"))
              else forward s socket sender json))
            (sym f) h

-- A message that is not a login changes no client but its sender, except that the one it names gets
-- it as one line with the sender's registered user id appended, and then only if the sender is logged
-- in, the message is an offer, an answer, a candidate or a hangup, and the server's StringField reads
-- its fromUserId as empty. (It reads as empty a value with an unknown escape, too.)
pub route_message-Receives :
    (s : Server) (socket k : Socket) (sender : Client) (json : Bytes)
    → client_at s socket ≡ some sender
    → socket ≢ k
    → bytes_eq (string_field json (codes "type")) (codes "login") ≡ false
    → Receives s sender json k (route_message s socket json)
unfolding route_message
route_message-Receives s socket k sender json e other no_login =
    rw (e, route_message) (route_from-Receives s socket k sender json other no_login)

routable_lem :
    (type : Bytes)
    → routable type ≡ true
    → (bytes_eq type (codes "ping") ≡ false) × (bytes_eq type (codes "login") ≡ false)
unfolding routable bytes_eq
routable_lem type h = ground (
  arith,
  bytes_eq_iff type (codes "offer"),
  bytes_eq_iff type (codes "answer"),
  bytes_eq_iff type (codes "ice-candidate"),
  bytes_eq_iff type (codes "hangup"),
)

-- If a logged-in client sends an offer, an answer, a candidate or a hangup whose fromUserId the server's
-- StringField reads as empty, its toUserId is a user who is online, there is a brace for the sender to
-- be put before, and the line fits into the buffer of that user, then this user gets exactly that line.
pub route_message_delivers :
    (s : Server) (socket k : Socket) (sender target : Client) (json : Bytes)
    → client_at s socket ≡ some sender
    → is_empty sender.user_id ≡ false
    → routable (string_field json (codes "type")) ≡ true
    → is_empty (string_field json (codes "fromUserId")) ≡ true
    → find_target s (string_field json (codes "toUserId")) ≡ some k
    → client_at s k ≡ some target
    → is_empty (add_sender json sender.user_id) ≡ false
    → length target.send_buffer + (length (add_sender json sender.user_id) + 1)
      ≤ max_pending_send_bytes
    → client_at (route_message s socket json) k
      ≡ some (append_line target (add_sender json sender.user_id))
unfolding route_message route_from forward deliver queue_line
route_message_delivers s socket k sender target json e logged_in allowed unsigned found there
      some_text fits =
    let (no_ping, no_login) = routable_lem (string_field json (codes "type")) allowed in
    let (at_k, result) =
      client_at-queue_line_at_self s k (add_sender json sender.user_id) target there in
    rw (e, route_message)
      (rw (no_ping, no_login, logged_in, allowed, unsigned, found, forward) (ground arith))
