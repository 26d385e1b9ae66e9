-- ===== src/Tests/Login.antt =====
-- Logins at RemoteControl_rtc/SignalingServer/main.cpp on small inputs.
use mathlib.Core.Option
use webrtc_cpp_remote_contro.Base.{
  inr, inl, refl, ℕ, ◌≡◌, refl, true, false, [], ◌∷◌, none, some, arith, Bytes, codes, ◌==◌,
  if◌then◌else◌, zero, suc, ◌-◌, emplace, adjust, bytes_eq, bytes_eq_iff, lookup, nat_eq, bytes_key,
}
use webrtc_cpp_remote_contro.Server.Text.{escape_json}
use webrtc_cpp_remote_contro.Server.State.{
  Client, Server, max_pending_send_bytes, client_at, go_online, presence_message,
  build_presence_snapshot, acceptable, register_client,
}
use webrtc_cpp_remote_contro.Server.Registry.{IsConsistent}
use webrtc_cpp_remote_contro.Server.News.{told}
use webrtc_cpp_remote_contro.Server.Login.{welcome, register_client_refused, register_client_lem}
use webrtc_cpp_remote_contro.Tests.Server.{client_of, ann}

-- A client that is connected, and not logged in.
abbrev lobby : Server
lobby = record { clients = (3, ann) ∷ (7, client_of 7 []) ∷ []; users = (codes "ann", 3) ∷ [] }

guest_here : client_at lobby 7 ≡ some (client_of 7 [])
unfolding lookup
guest_here = refl

ann_taken : lookup (codes "ann") lobby.users ≡ some 3
unfolding lookup bytes_eq
ann_taken = refl

client_at-lobby :
    (k : ℕ)
    → client_at lobby k
      ≡ (if 3 == k then some ann else if 7 == k then some (client_of 7 []) else none)
unfolding lookup
client_at-lobby k = refl

lookup-lobby :
    (u : Bytes) → lookup u lobby.users ≡ (if bytes_eq (codes "ann") u then some 3 else none)
unfolding lookup
lookup-lobby u = refl

no_empty_name : lookup [] lobby.users ≡ none
unfolding lookup bytes_eq
no_empty_name = refl

lobby-IsConsistent : IsConsistent lobby
lobby-IsConsistent = record {
  keyed = λ k c e. ground (arith, client_at-lobby k);
  bounded = λ k c e. ground (arith, client_at-lobby k);
  listed = λ u k e. ground (arith, client_at-lobby k, lookup-lobby u, bytes_eq_iff (codes "ann") u);
  online = λ k c e n.
      ground
        (arith, client_at-lobby k, lookup-lobby c.user_id, bytes_eq_iff (codes "ann") c.user_id);
  nameless = no_empty_name;
}

eve_free : acceptable lobby (codes "eve") ≡ true
unfolding acceptable lookup bytes_eq
eve_free = refl

eve_welcome :
    welcome lobby 7 (client_of 7 []) (codes "eve")
    ≡ codes "{\"type\":\"presence.snapshot\",\"users\":[{\"userId\":\"ann\"}]}"
unfolding build_presence_snapshot go_online emplace lookup bytes_eq adjust escape_json
eve_welcome = refl

register_client_refused_example :
    register_client lobby 7 (client_of 7 []) (codes "ann") ≡ (lobby, false)
register_client_refused_example =
    register_client_refused lobby 7 (client_of 7 []) (codes "ann") (inr (inr (inl (3, ann_taken))))

register_client_lem_example :
    let r = register_client lobby 7 (client_of 7 []) (codes "eve") in
    (r.1 ≡ true)
    × (client_at r.0 3
        ≡ Option.map (told (presence_message (codes "eve") true)) (client_at lobby 3))
    × (lookup (codes "eve") r.0.users ≡ (
        if bytes_eq (codes "eve") (codes "eve") then some 7 else lookup (codes "eve") lobby.users))
register_client_lem_example =
    register_client_lem lobby 7 (client_of 7 []) (codes "eve") guest_here eve_free 3 (codes "eve")
      lobby-IsConsistent (rw eve_welcome (omega arith))

fill : ℕ → Bytes
fill zero = []
fill (suc n) = b'x' ∷ fill n

-- A client whose peer has stopped reading: the buffer is full but for ten bytes.
abbrev stuck : Client
stuck = record (client_of 7 []) { send_buffer = fill (max_pending_send_bytes - 10) }

abbrev jam : Server
jam = record { clients = (7, stuck) ∷ []; users = [] }
