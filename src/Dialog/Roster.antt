-- ===== src/Dialog/Roster.antt =====
-- The list box of online users as a set: looking up, adding and deleting in the list of
-- DispatchSignalingMessage of RemoteControl_rtc/RemoteControl_rtc/RemoteControl_rtcDlg.cpp.
use webrtc_cpp_remote_contro.Base.{
  ◌≡◌, inl, inr, refl, sym, ap, ◌∙◌, arith, Bool, true, false, not, ◌||◌, ◌&&◌, List, [], ◌∷◌, ◌++◌,
  Bytes, if◌then◌else◌, is_empty, bytes_eq, bytes_eq_iff, Bool-cases,
}
use webrtc_cpp_remote_contro.Dialog.Dispatch.{is_listed, delete_listed, presence_changed}

-- On these user ids the comparison of the list box is equality; it ignores the case of letters, so no
-- two of them differ only in that.
abbrev pub IsSharp : (Bytes → Bytes → Bool) → (Bytes → Type 0) → Type 0
IsSharp same Known = (a b : Bytes) → Known a → Known b → same a b ≡ bytes_eq a b

-- The users of a list are known, and each stands there once.
abbrev pub IsRoster : (Bytes → Type 0) → List Bytes → Type 0
IsRoster Known [] = Unit {0}
IsRoster Known (u ∷ users) = Known u × (is_listed bytes_eq u users ≡ false) × IsRoster Known users

module _ (same : Bytes → Bytes → Bool) (Known : Bytes → Type 0) (sharp : IsSharp same Known) where
  is_listed-sharp :
      (u : Bytes) (users : List Bytes)
      → Known u
      → IsRoster Known users
      → is_listed same u users ≡ is_listed bytes_eq u users
  unfolding is_listed
  is_listed-sharp u [] k r = refl
  is_listed-sharp u (v ∷ users) k r = λ i. sharp v u r.0 k i || is_listed-sharp u users k r.2 i

  delete-sharp :
      (u : Bytes) (users : List Bytes)
      → Known u
      → IsRoster Known users
      → delete_listed same u users ≡ delete_listed bytes_eq u users
  unfolding delete_listed
  delete-sharp u [] k r = refl
  delete-sharp u (v ∷ users) k r =
      λ i. if sharp v u r.0 k i then users else v ∷ delete-sharp u users k r.2 i

is_listed-delete :
    (Known : Bytes → Type 0) (u v : Bytes) (users : List Bytes)
    → IsRoster Known users
    → is_listed bytes_eq u (delete_listed bytes_eq v users)
      ≡ (if bytes_eq v u then false else is_listed bytes_eq u users)
unfolding is_listed delete_listed
is_listed-delete Known u v [] r = ground arith
is_listed-delete Known u v (x ∷ users) r = ground (
  arith,
  bytes_eq_iff x v,
  bytes_eq_iff x u,
  bytes_eq_iff v u,
  is_listed-delete Known u v users r.2,
  r.1,
)

is_listed-append :
    (u v : Bytes) (users : List Bytes)
    → is_listed bytes_eq u (users ++ v ∷ [])
      ≡ (if bytes_eq v u then true else is_listed bytes_eq u users)
unfolding is_listed
is_listed-append u v [] = ground arith
is_listed-append u v (x ∷ users) = ground (arith, is_listed-append u v users)

-- Which entry of a list the first one was: it is not there again after a deletion or an addition.
still_absent-delete :
    (Known : Bytes → Type 0) (x v : Bytes) (users : List Bytes)
    → IsRoster Known users
    → is_listed bytes_eq x users ≡ false
    → is_listed bytes_eq x (delete_listed bytes_eq v users) ≡ false
still_absent-delete Known x v users r n = is_listed-delete Known x v users r ∙ ground (arith, n)

still_absent-append :
    (x v : Bytes) (users : List Bytes)
    → bytes_eq v x ≡ false
    → is_listed bytes_eq x users ≡ false
    → is_listed bytes_eq x (users ++ v ∷ []) ≡ false
still_absent-append x v users e n = is_listed-append x v users ∙ ground (arith, e, n)

delete-IsRoster :
    (Known : Bytes → Type 0) (v : Bytes) (users : List Bytes)
    → IsRoster Known users
    → IsRoster Known (delete_listed bytes_eq v users)
unfolding delete_listed
delete-IsRoster Known v [] r = tt
delete-IsRoster Known v (x ∷ users) r = elim (Bool-cases (bytes_eq x v)) [
  | inl e ↦ rw (e, delete_listed) r.2
  | inr e ↦
      rw (e, delete_listed)
        (r.0, still_absent-delete Known x v users r.2 r.1, delete-IsRoster Known v users r.2)
]

append-IsRoster :
    (Known : Bytes → Type 0) (v : Bytes) (users : List Bytes)
    → Known v
    → is_listed bytes_eq v users ≡ false
    → IsRoster Known users
    → IsRoster Known (users ++ v ∷ [])
unfolding is_listed
append-IsRoster Known v [] k n r = (k, refl, tt)
append-IsRoster Known v (x ∷ users) k n r = (
  r.0,
  still_absent-append x v users (ground (arith, n, bytes_eq_iff x v, bytes_eq_iff v x)) r.1,
  append-IsRoster Known v users k (ground (arith, n)) r.2,
)

-- What a list of users becomes: it is a roster again, and holds the users that `holds` says.
abbrev pub IsKeptAs : (Bytes → Type 0) → List Bytes → (Bytes → Bool) → Type 0
IsKeptAs Known users holds =
    IsRoster Known users × ((u : Bytes) → is_listed bytes_eq u users ≡ holds u)

listed_exactly :
    (v : Bytes) (users : List Bytes)
    → is_listed bytes_eq v users ≡ true
    → (u : Bytes)
    → is_listed bytes_eq u users ≡ (if bytes_eq v u then true else is_listed bytes_eq u users)
listed_exactly v users e u = elim (Bool-cases (bytes_eq v u)) [
  | inl q ↦ rw (q) (ap (λ w. is_listed bytes_eq w users) (sym ((bytes_eq_iff v u).0 q)) ∙ e)
  | inr q ↦ rw (q) refl
]

added_exactly :
    (Known : Bytes → Type 0) (v : Bytes) (users : List Bytes)
    → Known v
    → IsRoster Known users
    → IsKeptAs Known
        (if is_listed bytes_eq v users then users else users ++ v ∷ [])
        (λ u. if bytes_eq v u then true else is_listed bytes_eq u users)
added_exactly Known v users k r = elim (Bool-cases (is_listed bytes_eq v users)) [
  | inl e ↦ rw (e) (r, listed_exactly v users e)
  | inr e ↦ rw (e) (append-IsRoster Known v users k e r, λ u. is_listed-append u v users)
]

present_exactly :
    (Known : Bytes → Type 0) (v : Bytes) (online : Bool) (users : List Bytes)
    → Known v
    → IsRoster Known users
    → IsKeptAs Known
        (if online
          then (if is_listed bytes_eq v users then users else users ++ v ∷ [])
          else delete_listed bytes_eq v users)
        (λ u. if bytes_eq v u then online else is_listed bytes_eq u users)
present_exactly Known v true users k r = added_exactly Known v users k r
present_exactly Known v false users k r =
    (delete-IsRoster Known v users r, λ u. is_listed-delete Known u v users r)

pub changed_exactly :
    (Known : Bytes → Type 0) (v : Bytes) (online : Bool) (users : List Bytes)
    → Known v
    → IsRoster Known users
    → IsKeptAs Known
        (presence_changed bytes_eq v online users)
        (λ u. if not (is_empty v) && bytes_eq v u then online else is_listed bytes_eq u users)
unfolding presence_changed
changed_exactly Known v online users k r = elim (Bool-cases (is_empty v)) [
  | inl e ↦ rw (e) (r, λ u. refl)
  | inr e ↦ rw (e) (present_exactly Known v online users k r)
]

pub changed-sharp :
    (same : Bytes → Bytes → Bool) (Known : Bytes → Type 0)
    → IsSharp same Known
    → (v : Bytes) (online : Bool) (users : List Bytes) → Known v
    → IsRoster Known users
    → presence_changed same v online users ≡ presence_changed bytes_eq v online users
unfolding presence_changed
changed-sharp same Known sharp v online users k r =
    rw (is_listed-sharp same Known sharp v users k r, delete-sharp same Known sharp v users k r)
      refl

-- Equal lists hold the same users.
pub IsKeptAs-along :
    (Known : Bytes → Type 0) (users users' : List Bytes) (holds : Bytes → Bool)
    → users' ≡ users
    → IsKeptAs Known users holds
    → IsKeptAs Known users' holds
IsKeptAs-along Known users users' holds p k = rw (p) k
