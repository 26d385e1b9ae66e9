-- ===== src/Server/Shutdown.antt =====
-- The cleanup behind the loop of RemoteControl_rtc/SignalingServer/main.cpp.
use webrtc_cpp_remote_contro.Base.{
  ◌≡◌, ◌≢◌, refl, inl, inr, Bool, true, false, List, [], ◌∷◌, map, none, some, arith, Bytes, ◌==◌,
  ==_iff, if◌then◌else◌, Eq, beq_self, lookup, nat_eq, bytes_key, Bool-cases, Option-cases,
}
use webrtc_cpp_remote_contro.Server.State.{Socket, Client, Server, client_at}
use webrtc_cpp_remote_contro.Server.Route.{disconnect_client}
use webrtc_cpp_remote_contro.Server.Buffers.{Grows}
use webrtc_cpp_remote_contro.Server.Registry.{IsConsistent, Related-back}
use webrtc_cpp_remote_contro.Server.Departure.{
  disconnect_client_frees, disconnect_client-Grows, disconnect_client-IsConsistent,
}
use webrtc_cpp_remote_contro.Server.Reachable.{run-initial-IsConsistent, IsConsistent-IsInvariant}
use webrtc_cpp_remote_contro.Server.Invariant.{disconnect_all_keeps}
use webrtc_cpp_remote_contro.Server.Loop.{
  Platform, Selected, disconnect_all, sockets_of, run, initial, main_loop,
}

has : Socket → List Socket → Bool
has k [] = false
has k (socket ∷ l) = if socket == k then true else has k l

disconnected_none :
    (s : Server) (socket : Socket)
    → IsConsistent s
    → client_at (disconnect_client s socket) socket ≡ none
disconnected_none s socket v = elim (Option-cases (client_at s socket)) [
  | inl e ↦ unfold disconnect_client in rw (e, disconnect_client) e
  | inr (c, e) ↦ (disconnect_client_frees s socket c v e []).0
]

disconnected_back :
    (s : Server) (socket k : Socket) (d : Client)
    → IsConsistent s
    → socket ≢ k
    → client_at (disconnect_client s socket) k ≡ some d
    → (c : Client) × (client_at s k ≡ some c)
disconnected_back s socket k d v n e = elim (Option-cases (client_at s socket)) [
  | inl f ↦ (d, unfold disconnect_client in rw (f, disconnect_client) at e)
  | inr (c, f) ↦
      let (b, eb, _) =
        Related-back Grows (client_at s k) (client_at (disconnect_client s socket) k) d
          (disconnect_client-Grows s socket c v f k n) e in
      (b, eb)
]

cleared :
    (s : Server) (l : List Socket) (k : Socket)
    → IsConsistent s
    → ((c : Client) → client_at s k ≡ some c → has k l ≡ true)
    → client_at (disconnect_all s l) k ≡ none
unfolding has disconnect_all
cleared s [] k v h = elim (Option-cases (client_at s k)) [ inl e ↦ e | inr (c, e) ↦ cc (h c e) ]
cleared s (socket ∷ l) k v h =
    cleared (disconnect_client s socket) l k (disconnect_client-IsConsistent s socket v) (λ d e.
      elim (Bool-cases (socket == k)) [
        | inl hit ↦
            let gone = disconnected_none s socket v in
            let same = (==_iff socket k).0 hit in cc (gone, same, e)
        | inr miss ↦
            let (c, ec) = disconnected_back s socket k d v (λ q. ground (arith)) e in
            ground (arith, h c ec)
      ])

has-sockets :
    (m : List (Socket × Client)) (k : Socket) (c : Client)
    → lookup k m ≡ some c
    → has k (map (λ e. e.0) m) ≡ true
unfolding has lookup
has-sockets [] k c h = cc
has-sockets ((j, d) ∷ m) k c h = ground (arith, has-sockets m k c)

no_entries {ℓ κ} :
    {K : Type ℓ} {V : Type κ} ⦃e : Eq K⦄ (m : List (K × V)) → ((k : K) → lookup k m ≡ none) → m ≡ []
unfolding lookup
no_entries [] h = refl
no_entries ((k, v) ∷ m) h = ground (arith, h k, beq_self k)

-- Whatever happened before, the cleanup closes every client and forgets every user.
pub main_loop-empty : (p : Platform) (es : List Selected) → main_loop p es ≡ initial
unfolding main_loop
main_loop-empty p es =
    let s = run p initial es in
    let v = run-initial-IsConsistent p es in
    let t = disconnect_all s (sockets_of s) in
    let w = disconnect_all_keeps IsConsistent (IsConsistent-IsInvariant p) s (sockets_of s) v in
    let closed : (k : Socket) → client_at t k ≡ none =
      λ k. cleared s (sockets_of s) k v (has-sockets s.clients k) in
    let forgotten : (u : Bytes) → lookup u t.users ≡ none = λ u.
      elim (Option-cases (lookup u t.users)) [
        | inl e ↦ e
        | inr (k, e) ↦ let (c, ec, _) = w.listed u k e in cc (closed k, ec)
      ] in
    λ i. record { clients = no_entries t.clients closed i; users = no_entries t.users forgotten i }
