-- ===== src/Server/Safety.antt =====
-- `RouteMessage` and `DisconnectClient` of RemoteControl_rtc/SignalingServer/main.cpp keep the
-- invariant of the registry.
use webrtc_cpp_remote_contro.Base.{
  ◌≡◌, refl, inl, inr, true, false, not, [], ◌∷◌, Option, none, some, Bytes, codes, is_empty,
  bytes_eq, nat_eq, bytes_key, Bool-cases, Option-cases,
}
use webrtc_cpp_remote_contro.Server.Text.{string_field, add_sender}
use webrtc_cpp_remote_contro.Server.State.{
  Socket, Client, Server, client_at, queue_line_at, acceptable, go_online, build_presence_snapshot,
  register_client,
}
use webrtc_cpp_remote_contro.Server.Route.{
  reply, pong, error_line, offline_line, login, routable, find_target, deliver, forward, route_from,
  route_message,
}
use webrtc_cpp_remote_contro.Server.Buffers.{
  Extends, Extends-trans, queue_line_at-Extends, broadcast_presence-Extends,
}
use webrtc_cpp_remote_contro.Server.Registry.{
  IsConsistent, Extends-IsConsistent, acceptable_facts, go_online-IsConsistent,
}

pub reply-Extends : (s : Server) (socket : Socket) (json : Bytes) → Extends s (reply s socket json)
reply-Extends s socket json = queue_line_at-Extends s socket json

pub deliver-Extends :
    (s : Server) (socket : Socket) (sender : Client) (json : Bytes) (target : Socket)
    → Extends s (deliver s socket sender json target)
unfolding deliver
deliver-Extends s socket sender json target =
    let routed = add_sender json sender.user_id in
    let queued = queue_line_at-Extends s target routed in
    let failed = error_line (codes "route_failed") in
    elim (Bool-cases (is_empty routed)) [
      | inl e ↦ rw e (reply-Extends s socket failed)
      | inr e ↦ rw e (elim (Bool-cases (queue_line_at s target routed).1) [
        | inl sent ↦ rw sent queued
        | inr full ↦ rw full (Extends-trans queued (reply-Extends _ socket failed))
      ])
    ]

find_target_cases :
    (P : Server → Type 0) (s : Server) (socket : Socket) (sender : Client) (json : Bytes)
    (o : Option Socket)
    → ((line : Bytes) → P (reply s socket line))
    → ((target : Socket) → o ≡ some target → P (deliver s socket sender json target))
    → P (
        let sent : Server = elim o [
          | none ↦ reply s socket (offline_line (string_field json (codes "toUserId")))
          | some target ↦ deliver s socket sender json target
        ] in
        sent)
find_target_cases P s socket sender json none r d = r _
find_target_cases P s socket sender json (some target) r d = d target refl

-- What `forward` does: it replies to the sender, or delivers to the target.
pub forward_cases :
    (P : Server → Type 0) (s : Server) (socket : Socket) (sender : Client) (json : Bytes)
    → ((line : Bytes) → P (reply s socket line))
    → ((target : Socket)
        → routable (string_field json (codes "type")) ≡ true
        → is_empty (string_field json (codes "fromUserId")) ≡ true
        → find_target s (string_field json (codes "toUserId")) ≡ some target
        → P (deliver s socket sender json target))
    → P (forward s socket sender json)
unfolding forward
forward_cases P s socket sender json r d =
    elim (Bool-cases (routable (string_field json (codes "type")))) [
      | inr e ↦ rw e (r _)
      | inl e ↦ rw e (elim (Bool-cases (is_empty (string_field json (codes "fromUserId")))) [
        | inr f ↦ rw f (r _)
        | inl f ↦ rw f (
            find_target_cases P s socket sender json
              (find_target s (string_field json (codes "toUserId"))) r λ target t. d target e f t)
      ])
    ]

pub forward-Extends :
    (s : Server) (socket : Socket) (sender : Client) (json : Bytes)
    → Extends s (forward s socket sender json)
forward-Extends s socket sender json =
    forward_cases (Extends s) s socket sender json (λ line. reply-Extends s socket line)
      λ target _ _ _. deliver-Extends s socket sender json target

register_client-IsConsistent :
    (s : Server) (socket : Socket) (client : Client) (u : Bytes)
    → client_at s socket ≡ some client
    → client.user_id ≡ []
    → IsConsistent s
    → IsConsistent (register_client s socket client u).0
unfolding register_client
register_client-IsConsistent s socket client u here anonymous v =
    let o = go_online s socket client u in
    let snapshot = build_presence_snapshot o u in
    elim (Bool-cases (acceptable s u)) [
      | inr e ↦ rw e v
      | inl e ↦
          let (nonempty, fresh) = acceptable_facts s u e in
          let w = go_online-IsConsistent s socket client u here v anonymous nonempty fresh in
          let queued = queue_line_at-Extends o socket snapshot in
          rw e (elim (Bool-cases (queue_line_at o socket snapshot).1) [
            | inr full ↦ rw full (Extends-IsConsistent queued w)
            | inl sent ↦ rw sent (
                Extends-IsConsistent (Extends-trans queued (broadcast_presence-Extends _ u true)) w)
          ])
    ]

empty_eq : (u : Bytes) → not (is_empty u) ≡ false → u ≡ []
empty_eq [] h = refl
empty_eq (c ∷ u) h = cc

login-IsConsistent :
    (s : Server) (socket : Socket) (client : Client) (json : Bytes)
    → client_at s socket ≡ some client
    → IsConsistent s
    → IsConsistent (login s socket client json)
unfolding login
login-IsConsistent s socket client json here v =
    let u = string_field json (codes "userId") in
    let line = error_line (codes "login_failed") in
    elim (Bool-cases (not (is_empty client.user_id))) [
      | inl e ↦ rw e (Extends-IsConsistent (reply-Extends s socket line) v)
      | inr e ↦
          let w =
            register_client-IsConsistent s socket client u here (empty_eq client.user_id e) v in
          rw e (elim (Bool-cases (not (register_client s socket client u).1)) [
            | inl f ↦ rw f (Extends-IsConsistent (reply-Extends _ socket line) w)
            | inr f ↦ rw f w
          ])
    ]

route_from-IsConsistent :
    (s : Server) (socket : Socket) (client : Client) (json : Bytes)
    → client_at s socket ≡ some client
    → IsConsistent s
    → IsConsistent (route_from s socket client json)
unfolding route_from
route_from-IsConsistent s socket client json here v =
    let type = string_field json (codes "type") in
    elim (Bool-cases (bytes_eq type (codes "ping"))) [
      | inl e ↦ rw e (Extends-IsConsistent (reply-Extends s socket pong) v)
      | inr e ↦ rw e (elim (Bool-cases (bytes_eq type (codes "login"))) [
        | inl f ↦ rw f (login-IsConsistent s socket client json here v)
        | inr f ↦ rw f (elim (Bool-cases (is_empty client.user_id)) [
          | inl g ↦ rw g (Extends-IsConsistent (reply-Extends s socket _) v)
          | inr g ↦ rw g (Extends-IsConsistent (forward-Extends s socket client json) v)
        ])
      ])
    ]

-- Every message keeps the registry consistent, whatever the message holds and whoever sends it.
pub route_message-IsConsistent :
    (s : Server) (socket : Socket) (json : Bytes)
    → IsConsistent s
    → IsConsistent (route_message s socket json)
unfolding route_message
route_message-IsConsistent s socket json v = elim (Option-cases (client_at s socket)) [
  | inl e ↦ rw (e, route_message) v
  | inr (client, e) ↦ rw (e, route_message) (route_from-IsConsistent s socket client json e v)
]
