-- ===== src/Peer/Reports.antt =====
-- The members of a statistics report, in RemoteControl_rtc/RemoteControl_rtc/PeerSession.cpp. The
-- floating-point numbers and their operations are parameters.
use webrtc_cpp_remote_contro.Base.{
  ℕ, ◌≡◌, ◌≤◌, All, arith, inl, inr, Bool-cases, Bool, true, false, not, ◌&&◌, ◌||◌, List, [], ◌∷◌,
  ◌++◌, Option, none, some, Bytes, codes, ltb, if◌then◌else◌, is_empty, bytes_eq, lookup, emplace,
  nat_eq, bytes_key,
}

-- The operations of `double` that the source uses.
pub record Doubles : Type 1 where
  pub Num : Type 0
  pub nil : Num
  pub positive : Num → Bool
  pub to_unsigned : Num → ℕ

-- A member's value by its type; all numeric types are read as `double`.
pub data Value (Num : Type 0) : Type 0 where
  number : Num → Value Num
  string : Bytes → Value Num
  bool : Bool → Value Num
  other : Value Num

pub record Member (Num : Type 0) : Type 0 where
  pub name : Bytes
  pub defined : Bool
  pub value : Value Num

pub record Report (Num : Type 0) : Type 0 where
  pub type : Bytes
  pub id : Bytes
  pub members : List (Option (Member Num))

module _ (d : Doubles) where
  -- The first defined member of that name decides.
  unfoldable pub numeric_member : List (Option (Member d.Num)) → Bytes → d.Num × Bool
  numeric_member [] name = (d.nil, false)
  numeric_member (none ∷ ms) name = numeric_member ms name
  numeric_member (some m ∷ ms) name =
      let rest = numeric_member ms name in
      let here : d.Num × Bool = elim m.value [
        | number x ↦ (x, true)
        | string x ↦ (d.nil, false)
        | bool x ↦ (d.nil, false)
        | other ↦ (d.nil, false)
      ] in
      if not m.defined || not (bytes_eq m.name name) then rest else here

  unfoldable pub numeric_member_fallback :
      List (Option (Member d.Num)) → Bytes → Bytes → d.Num × Bool
  unfolding numeric_member
  numeric_member_fallback ms primary_name fallback_name =
      let primary = numeric_member ms primary_name in
      if primary.1 then (primary.0, true) else numeric_member ms fallback_name

  unfoldable pub unsigned_member : List (Option (Member d.Num)) → Bytes → ℕ × Bool
  unfolding numeric_member
  unsigned_member ms name =
      let found = numeric_member ms name in
      (if found.1 && d.positive found.0 then d.to_unsigned found.0 else 0, found.1)

  -- The first defined member of that name that is a string.
  unfoldable pub string_member : List (Option (Member d.Num)) → Bytes → Bytes
  string_member [] name = []
  string_member (none ∷ ms) name = string_member ms name
  string_member (some m ∷ ms) name =
      let rest = string_member ms name in
      let here : Bytes = elim m.value [
        | string x ↦ x
        | number x ↦ rest
        | bool x ↦ rest
        | other ↦ rest
      ] in
      if m.defined && bytes_eq m.name name then here else rest

  unfoldable pub bool_member : List (Option (Member d.Num)) → Bytes → Bool
  bool_member [] name = false
  bool_member (none ∷ ms) name = bool_member ms name
  bool_member (some m ∷ ms) name =
      let rest = bool_member ms name in
      let here : Bool = elim m.value [
        | bool x ↦ x
        | number x ↦ rest
        | string x ↦ rest
        | other ↦ rest
      ] in
      if m.defined && bytes_eq m.name name then here else rest

  -- `type` and `protocol` of `CandidateInfo`.
  abbrev pub CandidateInfo : Type 0
  CandidateInfo = Bytes × Bytes

  abbrev is_candidate : Bytes → Bool
  is_candidate type =
      bytes_eq type (codes "local-candidate") || bytes_eq type (codes "remote-candidate")

  -- The first loop: the candidates, and the pair that the last transport report selects.
  unfoldable pub first_pass :
      List (Option (Report d.Num))
      → List (Bytes × CandidateInfo)
      → Bytes
      → List (Bytes × CandidateInfo) × Bytes
  unfolding string_member emplace
  first_pass [] candidates selected = (candidates, selected)
  first_pass (none ∷ rs) candidates selected = first_pass rs candidates selected
  first_pass (some r ∷ rs) candidates selected =
      let id = string_member r.members (codes "selectedCandidatePairId") in
      let info : CandidateInfo = (
        string_member r.members (codes "candidateType"),
        string_member r.members (codes "protocol"),
      ) in
      let next_selected =
        if bytes_eq r.type (codes "transport") && not (is_empty id) then id else selected in
      let next_candidates =
        if not (bytes_eq r.type (codes "transport")) && is_candidate r.type
        then emplace r.id info candidates
        else candidates in
      first_pass rs next_candidates next_selected

  -- The score of a pair, and one: 0 is the source's -1.
  unfoldable pub pair_score : Bytes → Report d.Num → ℕ
  unfolding string_member bool_member
  pair_score selected r =
      if not (is_empty selected) && bytes_eq r.id selected
      then 101
      else if bool_member r.members (codes "selected")
      then 81
      else if bytes_eq (string_member r.members (codes "googActiveConnection")) (codes "true")
      then 81
      else if bool_member r.members (codes "nominated")
          && bytes_eq (string_member r.members (codes "state")) (codes "succeeded")
      then 61
      else if bytes_eq (string_member r.members (codes "state")) (codes "succeeded")
      then 21
      else 0

  abbrev pub is_pair : Bytes → Bool
  is_pair type = bytes_eq type (codes "candidate-pair") || bytes_eq type (codes "googCandidatePair")

  -- The choice of the pair in the second loop.
  unfoldable pub select_pair :
      Bytes → List (Option (Report d.Num)) → ℕ → Option (Report d.Num) → Option (Report d.Num)
  unfolding pair_score
  select_pair selected [] score pair = pair
  select_pair selected (none ∷ rs) score pair = select_pair selected rs score pair
  select_pair selected (some r ∷ rs) score pair =
      let better = is_pair r.type && ltb score (pair_score selected r) in
      select_pair selected rs (if better then pair_score selected r else score)
        (if better then some r else pair)

  abbrev info_of : Option CandidateInfo → CandidateInfo
  info_of none = ([], [])
  info_of (some info) = info

  abbrev is_reflexive : Bytes → Bool
  is_reflexive type = bytes_eq type (codes "srflx") || bytes_eq type (codes "prflx")

  -- `ice_route` for the selected pair.
  unfoldable pub ice_route : List (Bytes × CandidateInfo) → Report d.Num → Bytes
  unfolding string_member lookup
  ice_route candidates pair =
      let local =
        info_of (lookup (string_member pair.members (codes "localCandidateId")) candidates) in
      let remote =
        info_of (lookup (string_member pair.members (codes "remoteCandidateId")) candidates) in
      let protocol = if is_empty local.1 then remote.1 else local.1 in
      let route =
        if bytes_eq local.0 (codes "relay") || bytes_eq remote.0 (codes "relay")
        then codes "turn-relay"
        else if is_reflexive local.0 || is_reflexive remote.0
        then codes "stun-direct"
        else codes "host-direct" in
      if is_empty protocol then route else route ++ b'/' ∷ protocol

  -- What a report counts in the choice, and what the chosen pair counts.
  abbrev pub rank : Bytes → Option (Report d.Num) → ℕ
  rank selected none = 0
  rank selected (some r) = if is_pair r.type then pair_score selected r else 0

  select_pair_grows :
      (selected : Bytes) (rs : List (Option (Report d.Num))) (score : ℕ)
      (pair : Option (Report d.Num))
      → score ≤ rank selected pair
      → score ≤ rank selected (select_pair selected rs score pair)
  unfolding select_pair
  select_pair_grows selected [] score pair h = h
  select_pair_grows selected (none ∷ rs) score pair h = select_pair_grows selected rs score pair h
  select_pair_grows selected (some r ∷ rs) score pair h =
      elim (Bool-cases (is_pair r.type && ltb score (pair_score selected r))) [
        | inl e ↦
            rw e (ground (arith, select_pair_grows selected rs (pair_score selected r) (some r)))
        | inr e ↦ rw e (select_pair_grows selected rs score pair h)
      ]

  next_rank :
      (selected : Bytes) (r : Report d.Num) (score : ℕ) (pair : Option (Report d.Num))
      → score ≡ rank selected pair
      → (if is_pair r.type && ltb score (pair_score selected r)
          then pair_score selected r
          else score)
        ≡ rank selected
            (if is_pair r.type && ltb score (pair_score selected r) then some r else pair)
  next_rank selected r score pair h =
      elim (Bool-cases (is_pair r.type && ltb score (pair_score selected r))) [
        | inl e ↦ rw e (ground (arith))
        | inr e ↦ rw e h
      ]

  -- The selected candidate pair scores at least as high as every candidate pair among the reports, for a
  -- start whose score is that of its pair.
  pub select_pair_best :
      (selected : Bytes) (rs : List (Option (Report d.Num))) (score : ℕ)
      (pair : Option (Report d.Num))
      → score ≡ rank selected pair
      → All (λ o. rank selected o ≤ rank selected (select_pair selected rs score pair)) rs
  unfolding select_pair
  select_pair_best selected [] score pair h = tt
  select_pair_best selected (none ∷ rs) score pair h =
      (omega arith, select_pair_best selected rs score pair h)
  select_pair_best selected (some r ∷ rs) score pair h =
      let better = is_pair r.type && ltb score (pair_score selected r) in
      let next = if better then pair_score selected r else score in
      let chosen : Option (Report d.Num) = if better then some r else pair in
      let same : next ≡ rank selected chosen = next_rank selected r score pair h in
      let above : rank selected (some r) ≤ next = ground (arith) in
      let grown = select_pair_grows selected rs next chosen (omega (arith, same)) in
      (omega (arith, above, grown), select_pair_best selected rs next chosen same)
