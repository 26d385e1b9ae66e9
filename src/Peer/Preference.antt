-- ===== src/Peer/Preference.antt =====
-- What the preferred order of codecs keeps and how it is sorted.
use mathlib.Core.List.{Perm, perm_middle}
use mathlib.Core.List.Perm
use webrtc_cpp_remote_contro.Base.{
  ℕ, ◌≤◌, ◌≡◌, refl, ap, ◌∙◌, arith, All, Bool, true, not, List, [], ◌∷◌, ◌++◌, Option, some, Bytes,
  codes, ltb, ◌==◌, if◌then◌else◌, Bool-cases, inl, inr,
}
use webrtc_cpp_remote_contro.Peer.Codecs.{
  Codec, stricmp_eq, is_codec, select, insert_by, stable_sort, h264_score, preferred_order,
}

select-All :
    (test : Option Codec → Bool) (codecs : List (Option Codec))
    → All (λ c. test c ≡ true) (select test codecs)
unfolding select
select-All test [] = tt
select-All test (c ∷ codecs) = ground (arith, select-All test codecs)

-- The selected ones and the others together are all.
select-perm :
    (test : Option Codec → Bool) (codecs : List (Option Codec))
    → Perm (select test codecs ++ select (λ c. not (test c)) codecs) codecs
unfolding select
select-perm test [] = Perm.rfl
select-perm test (c ∷ codecs) = elim (Bool-cases (test c)) [
  | inl e ↦ rw (e, select) (Perm.cons c (select-perm test codecs))
  | inr e ↦
      rw (e, select)
        (Perm.trans (perm_middle (select test codecs) (select (λ c. not (test c)) codecs))
          (Perm.cons c (select-perm test codecs)))
]

module _ (score : Option Codec → ℕ) where
  insert_by-perm :
      (x : Option Codec) (xs : List (Option Codec)) → Perm (insert_by score x xs) (x ∷ xs)
  unfolding insert_by
  insert_by-perm x [] = Perm.rfl
  insert_by-perm x (y ∷ ys) = elim (Bool-cases (ltb (score y) (score x))) [
    | inl e ↦ rw (e, insert_by) (Perm.trans (Perm.cons y (insert_by-perm x ys)) (Perm.swap x y ys))
    | inr e ↦ rw (e, insert_by) Perm.rfl
  ]

  stable_sort-perm : (xs : List (Option Codec)) → Perm (stable_sort score xs) xs
  unfolding stable_sort
  stable_sort-perm [] = Perm.rfl
  stable_sort-perm (x ∷ xs) =
      Perm.trans (insert_by-perm x (stable_sort score xs)) (Perm.cons x (stable_sort-perm xs))

  -- No score is above a later one.
  abbrev pub IsAscending : List (Option Codec) → Type 0
  IsAscending [] = Unit {0}
  IsAscending (x ∷ xs) = All (λ y. score x ≤ score y) xs × IsAscending xs

  insert_by-All :
      (P : Option Codec → Type 0) (x : Option Codec) (xs : List (Option Codec))
      → P x
      → All P xs
      → All P (insert_by score x xs)
  unfolding insert_by
  insert_by-All P x [] p h = (p, tt)
  insert_by-All P x (y ∷ ys) p h = elim (Bool-cases (ltb (score y) (score x))) [
    | inl e ↦ rw (e, insert_by) (h.0, insert_by-All P x ys p h.1)
    | inr e ↦ rw (e, insert_by) (p, h)
  ]

  stable_sort-All :
      (P : Option Codec → Type 0) (xs : List (Option Codec))
      → All P xs
      → All P (stable_sort score xs)
  unfolding stable_sort
  stable_sort-All P [] h = tt
  stable_sort-All P (x ∷ xs) h =
      insert_by-All P x (stable_sort score xs) h.0 (stable_sort-All P xs h.1)

  All-weaken :
      (m n : ℕ) (xs : List (Option Codec))
      → m ≤ n
      → All (λ y. n ≤ score y) xs
      → All (λ y. m ≤ score y) xs
  All-weaken m n [] p h = tt
  All-weaken m n (y ∷ ys) p h = (omega arith, All-weaken m n ys p h.1)

  insert_by-IsAscending :
      (x : Option Codec) (xs : List (Option Codec))
      → IsAscending xs
      → IsAscending (insert_by score x xs)
  unfolding insert_by
  insert_by-IsAscending x [] h = (tt, tt)
  insert_by-IsAscending x (y ∷ ys) h = elim (Bool-cases (ltb (score y) (score x))) [
    | inl e ↦
        rw (e, insert_by)
          (
            insert_by-All (λ z. score y ≤ score z) x ys (ground arith) h.0,
            insert_by-IsAscending x ys h.1,
          )
    | inr e ↦
        rw (e, insert_by) ((ground arith, All-weaken (score x) (score y) ys (ground arith) h.0), h)
  ]

  stable_sort-IsAscending : (xs : List (Option Codec)) → IsAscending (stable_sort score xs)
  unfolding stable_sort
  stable_sort-IsAscending [] = tt
  stable_sort-IsAscending (x ∷ xs) =
      insert_by-IsAscending x (stable_sort score xs) (stable_sort-IsAscending xs)

  -- Those of one score stay in order.
  insert_by-select :
      (k : ℕ) (x : Option Codec) (xs : List (Option Codec))
      → select (λ c. score c == k) (insert_by score x xs) ≡ select (λ c. score c == k) (x ∷ xs)
  unfolding insert_by select
  insert_by-select k x [] = refl
  insert_by-select k x (y ∷ ys) = ground (arith, insert_by-select k x ys)

  stable_sort-select :
      (k : ℕ) (xs : List (Option Codec))
      → select (λ c. score c == k) (stable_sort score xs) ≡ select (λ c. score c == k) xs
  unfolding stable_sort select
  stable_sort-select k [] = refl
  stable_sort-select k (x ∷ xs) =
      insert_by-select k x (stable_sort score xs)
      ∙ ap (λ l. if score x == k then x ∷ l else l) (stable_sort-select k xs)

-- The preferred codecs, in the order in which they come.
abbrev preferred_first : Bytes → List (Option Codec) → List (Option Codec)
preferred_first mime_type codecs =
    let preferred = select (is_codec mime_type) codecs in
    if stricmp_eq mime_type (codes "video/H264")
    then stable_sort h264_score preferred
    else preferred

preferred_order-eq :
    (mime_type : Bytes) (codecs ordered : List (Option Codec))
    → preferred_order mime_type codecs ≡ some ordered
    → ordered ≡ preferred_first mime_type codecs ++ select (λ c. not (is_codec mime_type c)) codecs
unfolding preferred_order
preferred_order-eq mime_type codecs ordered h = ground arith

-- When an order of codecs is set for H.264, however that is spelled in letter case, the order is a
-- permutation of the sender's capabilities: first the H.264 codecs, with ascending scores and those
-- of equal score in their old order, and behind them all the others in their old order.
pub preferred_order_lem :
    (mime_type : Bytes) (codecs ordered : List (Option Codec)) (k : ℕ)
    → stricmp_eq mime_type (codes "video/H264") ≡ true
    → preferred_order mime_type codecs ≡ some ordered
    → Perm ordered codecs
      × ((first : List (Option Codec)) × (ordered
            ≡ first ++ select (λ c. not (is_codec mime_type c)) codecs)
          × All (λ c. is_codec mime_type c ≡ true) first
          × IsAscending h264_score first
          × (select (λ c. h264_score c == k) first
              ≡ select (λ c. h264_score c == k) (select (is_codec mime_type) codecs)))
preferred_order_lem mime_type codecs ordered k h264 h =
    let preferred = select (is_codec mime_type) codecs in
    let e =
      preferred_order-eq mime_type codecs ordered h
      ∙ ap
          (λ b.
            (if b then stable_sort h264_score preferred else preferred)
            ++ select (λ c. not (is_codec mime_type c)) codecs)
          h264 in
    (
      rw e (
          Perm.trans (Perm.append_right _ (stable_sort-perm h264_score preferred))
            (select-perm (is_codec mime_type) codecs)),
      (
        stable_sort h264_score preferred,
        e,
        stable_sort-All h264_score _ preferred (select-All (is_codec mime_type) codecs),
        stable_sort-IsAscending h264_score preferred,
        stable_sort-select h264_score k preferred,
      ),
    )
