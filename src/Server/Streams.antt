-- ===== src/Server/Streams.antt =====
-- `ReadClient` and `WriteClient` of RemoteControl_rtc/SignalingServer/main.cpp keep the registry
-- consistent, and neither loses nor repeats a byte.
use mathlib.Core.Option
use Prim.Native.Nat.{min}
use webrtc_cpp_remote_contro.Base.{
  ℕ, zero, suc, ◌≤◌, ◌≡◌, refl, ◌∙◌, inl, inr, Bool, List, [], ◌∷◌, ◌++◌, append_assoc, Option,
  none, some, arith, Bytes, ◌==◌, ==_iff, length, take, drop, is_empty, take-append-drop,
  lookup-adjust, nat_eq, Bool-cases,
}
use webrtc_cpp_remote_contro.Server.State.{Socket, Client, Server, client_at, update_client}
use webrtc_cpp_remote_contro.Server.Buffers.{Related}
use webrtc_cpp_remote_contro.Server.Registry.{IsConsistent, Keeps, Preserves-IsConsistent}
use webrtc_cpp_remote_contro.Server.Connection.{
  set_input, add_input, max_send, drop_sent, write_client,
}

pub Keeps-refl : (c : Client) → Keeps c c
Keeps-refl c = record { same_socket = refl; same_user = refl; limited = λ h. h }

pub Keeps-trans : {c d e : Client} → Keeps c d → Keeps d e → Keeps c e
Keeps-trans g h = record {
  same_socket = h.same_socket ∙ g.same_socket;
  same_user = h.same_user ∙ g.same_user;
  limited = λ l. h.limited (g.limited l);
}

Related-Keeps-refl : (o : Option Client) → Related Keeps o o
Related-Keeps-refl none = tt
Related-Keeps-refl (some c) = Keeps-refl c

Related-Keeps-map :
    (f : Client → Client) (o : Option Client)
    → ((c : Client) → o ≡ some c → Keeps c (f c))
    → Related Keeps o (Option.map f o)
Related-Keeps-map f none h = tt
Related-Keeps-map f (some c) h = h c refl

pub update_client-IsConsistent :
    (s : Server) (socket : Socket) (f : Client → Client)
    → ((c : Client) → client_at s socket ≡ some c → Keeps c (f c))
    → IsConsistent s
    → IsConsistent (update_client s socket f)
update_client-IsConsistent s socket f h = Preserves-IsConsistent (record {
  same_users = refl;
  kept = λ k. rw (lookup-adjust socket k f s.clients) (elim (Bool-cases (socket == k)) [
    | inl hit ↦
        rw hit (Related-Keeps-map f (client_at s k) λ c e. h c (rw ((==_iff socket k).0 hit) e))
    | inr miss ↦ rw miss (Related-Keeps-refl (client_at s k))
  ]);
})

pub set_input-Keeps : (rest : Bytes) (c : Client) → Keeps c (set_input rest c)
set_input-Keeps rest c = record { same_socket = refl; same_user = refl; limited = λ h. h }

pub add_input-Keeps : (chunk : Bytes) (c : Client) → Keeps c (add_input chunk c)
add_input-Keeps chunk c = record { same_socket = refl; same_user = refl; limited = λ h. h }

length-drop-le : (n : ℕ) (xs : Bytes) → length (drop n xs) ≤ length xs
length-drop-le zero xs = omega arith
length-drop-le (suc n) [] = omega arith
length-drop-le (suc n) (x ∷ xs) = omega (arith, length-drop-le n xs)

pub write_client-Keeps :
    (c : Client) (counts : List ℕ) (b : Bool) (wire : Bytes)
    → Keeps c (write_client c counts b wire).client
unfolding write_client
write_client-Keeps c [] b wire = Keeps-refl c
write_client-Keeps c (sent ∷ counts) b wire =
    let step : Keeps c (drop_sent sent c) = record {
      same_socket = refl;
      same_user = refl;
      limited = λ h. omega (arith, length-drop-le sent c.send_buffer);
    } in
    elim (Bool-cases (is_empty c.send_buffer)) [
      | inl e ↦ rw e (Keeps-refl c)
      | inr e ↦ rw e (elim (Bool-cases (sent == 0)) [
        | inl z ↦ rw z (Keeps-refl c)
        | inr z ↦ rw z (Keeps-trans step (write_client-Keeps (drop_sent sent c) counts b _))
      ])
    ]

-- What `send` promises: it never counts more bytes than it was offered.
abbrev pub Honest : Bytes → List ℕ → Type 0
Honest buffer [] = Unit {0}
Honest buffer (sent ∷ counts) =
    (sent ≤ min (length buffer) max_send) × Honest (drop sent buffer) counts

take-take : (n m : ℕ) (xs : Bytes) → n ≤ m → take n (take m xs) ≡ take n xs
take-take zero m xs h = refl
take-take (suc n) zero xs h = absurd (omega arith)
take-take (suc n) (suc m) [] h = refl
take-take (suc n) (suc m) (x ∷ xs) h = rw (take-take n m xs (omega arith))

-- The bytes sent and the bytes still queued are the bytes that were queued, in their order.
pub write_client_lem :
    (c : Client) (counts : List ℕ) (b : Bool) (wire : Bytes)
    → Honest c.send_buffer counts
    → let w = write_client c counts b wire in w.wire ++ w.client.send_buffer ≡ wire ++ c.send_buffer
unfolding write_client
write_client_lem c [] b wire h = refl
write_client_lem c (sent ∷ counts) b wire (h, hs) = elim (Bool-cases (is_empty c.send_buffer)) [
  | inl e ↦ rw e
  | inr e ↦ rw e (elim (Bool-cases (sent == 0)) [
    | inl z ↦ rw z
    | inr z ↦ rw z (
        rw (write_client_lem (drop_sent sent c) counts b _ hs) (
          rw (take-take sent _ c.send_buffer h, append_assoc, take-append-drop sent c.send_buffer)))
  ])
]
