-- ===== src/Tests/Presence.antt =====
-- The list box of online users on a small conversation with the server.
use webrtc_cpp_remote_contro.Base.{
  ◌≡◌, ◌⊎◌, inl, inr, refl, arith, false, List, [], ◌∷◌, Bytes, codes, bytes_eq, none,
}
use webrtc_cpp_remote_contro.Client.Protocol.{string_field, user_ids}
use webrtc_cpp_remote_contro.Peer.Codecs.{stricmp_eq}
use webrtc_cpp_remote_contro.Dialog.Dispatch.{is_listed}
use webrtc_cpp_remote_contro.Dialog.Sessions.{Answers}
use webrtc_cpp_remote_contro.Dialog.Roster.{IsSharp, IsRoster, IsKeptAs}
use webrtc_cpp_remote_contro.Dialog.Presence.{
  IsAnnouncement, dispatch_all, online_after_all, online_users_refine,
}
use webrtc_cpp_remote_contro.Tests.Dialog.{bob, idle, willing}

abbrev eve : Bytes
eve = codes "eve"

abbrev IsGuest : Bytes → Type 0
IsGuest u = (u ≡ bob) ⊎ (u ≡ eve)

guests-IsSharp : IsSharp stricmp_eq IsGuest
unfolding bytes_eq stricmp_eq
guests-IsSharp a b (inl p) (inl q) = rw (p, q) refl
guests-IsSharp a b (inl p) (inr q) = rw (p, q) refl
guests-IsSharp a b (inr p) (inl q) = rw (p, q) refl
guests-IsSharp a b (inr p) (inr q) = rw (p, q) refl

abbrev snapshot : Bytes
snapshot =
    codes "{\"type\":\"presence.snapshot\",\"users\":[{\"userId\":\"bob\"},{\"userId\":\"eve\"}]}"

abbrev bob_leaves : Bytes
bob_leaves = codes "{\"type\":\"presence.changed\",\"userId\":\"bob\",\"online\":false}"

snapshot_only : bytes_eq (string_field snapshot (codes "type")) (codes "presence.changed") ≡ false
unfolding string_field bytes_eq
snapshot_only = refl

snapshot_users : user_ids snapshot ≡ bob ∷ eve ∷ []
unfolding user_ids
snapshot_users = refl

guests-IsRoster : IsRoster IsGuest (bob ∷ eve ∷ [])
unfolding is_listed bytes_eq
guests-IsRoster = (inl refl, refl, (inr refl, refl, tt))

snapshot-IsAnnouncement : IsAnnouncement IsGuest snapshot
snapshot-IsAnnouncement =
    (λ _. rw snapshot_users guests-IsRoster, λ e. ground (arith, snapshot_only, e))

leaving_only : bytes_eq (string_field bob_leaves (codes "type")) (codes "presence.snapshot") ≡ false
unfolding string_field bytes_eq
leaving_only = refl

leaving_user : string_field bob_leaves (codes "userId") ≡ bob
unfolding string_field
leaving_user = refl

bob_leaves-IsAnnouncement : IsAnnouncement IsGuest bob_leaves
bob_leaves-IsAnnouncement = (λ e. ground (arith, leaving_only, e), λ _. inl leaving_user)

bob_alone : IsKeptAs IsGuest (bob ∷ []) (bytes_eq bob)
unfolding is_listed
bob_alone = ((inl refl, refl, tt), λ u. ground arith)

abbrev messages : List (Answers × Bytes)
messages = (willing, snapshot) ∷ (willing, bob_leaves) ∷ []

online_users_refine_example :
    IsKeptAs IsGuest
      (dispatch_all stricmp_eq (λ _. none) messages idle).online_users
      (online_after_all messages (bytes_eq bob))
online_users_refine_example =
    online_users_refine stricmp_eq (λ _. none) IsGuest guests-IsSharp messages idle (bytes_eq bob)
      (snapshot-IsAnnouncement, (bob_leaves-IsAnnouncement, tt)) bob_alone
