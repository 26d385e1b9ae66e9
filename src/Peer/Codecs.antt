-- ===== src/Peer/Codecs.antt =====
-- The order of codecs that PreferCodec of RemoteControl_rtc/RemoteControl_rtc/PeerSession.cpp asks for.
use webrtc_cpp_remote_contro.Base.{
  ℕ, ◌+◌, Bool, true, false, not, ◌&&◌, List, [], ◌∷◌, ◌++◌, Option, none, some, Bytes, codes, map,
  ltb, leb, if◌then◌else◌, is_empty, bytes_eq, find_behind, take,
}

pub record Codec : Type 0 where
  pub mime_type : Bytes
  pub sdp_fmtp_line : Bytes

-- `std::tolower` in the "C" locale.
abbrev pub to_lower : ℕ → ℕ
to_lower c = if leb b'A' c && leb c b'Z' then c + 32 else c

-- `_stricmp(a, b) == 0`
unfoldable pub stricmp_eq : Bytes → Bytes → Bool
unfolding bytes_eq
stricmp_eq a b = bytes_eq (map to_lower a) (map to_lower b)

unfoldable pub profile_score : Option Bytes → ℕ
unfolding bytes_eq
profile_score none = 40
profile_score (some behind) =
    let prefix = take 2 behind in
    if bytes_eq prefix (codes "64")
    then 0
    else if bytes_eq prefix (codes "4d")
    then 10
    else if bytes_eq prefix (codes "42")
    then 20
    else 30

abbrev found : Option Bytes → Bool
found none = false
found (some rest) = true

-- `h264_score`
unfoldable pub h264_score : Option Codec → ℕ
unfolding profile_score find_behind
h264_score none = 1000
h264_score (some codec) =
    let fmtp = map to_lower codec.sdp_fmtp_line in
    (if found (find_behind (codes "packetization-mode=1") fmtp) then 0 else 100)
    + profile_score (find_behind (codes "profile-level-id=") fmtp)

-- The test of the two loops.
unfoldable pub is_codec : Bytes → Option Codec → Bool
unfolding stricmp_eq
is_codec mime_type none = false
is_codec mime_type (some codec) = stricmp_eq codec.mime_type mime_type

-- The codecs that pass a test, in order.
unfoldable pub select : (Option Codec → Bool) → List (Option Codec) → List (Option Codec)
select test [] = []
select test (codec ∷ codecs) =
    let rest = select test codecs in if test codec then codec ∷ rest else rest

-- `std::stable_sort` by a score, as an insertion sort.
unfoldable pub insert_by :
    (Option Codec → ℕ) → Option Codec → List (Option Codec) → List (Option Codec)
insert_by score codec [] = codec ∷ []
insert_by score codec (x ∷ xs) =
    let rest = insert_by score codec xs in
    if ltb (score x) (score codec) then x ∷ rest else codec ∷ x ∷ xs

unfoldable pub stable_sort : (Option Codec → ℕ) → List (Option Codec) → List (Option Codec)
unfolding insert_by
stable_sort score [] = []
stable_sort score (x ∷ xs) = insert_by score x (stable_sort score xs)

-- `ordered`, or `none` where the function returns without setting it.
unfoldable pub preferred_order : Bytes → List (Option Codec) → Option (List (Option Codec))
unfolding is_codec select stable_sort h264_score stricmp_eq
preferred_order mime_type codecs =
    let preferred = select (is_codec mime_type) codecs in
    let others = select (λ codec. not (is_codec mime_type codec)) codecs in
    let ordered =
      if stricmp_eq mime_type (codes "video/H264")
      then stable_sort h264_score preferred
      else preferred in
    if is_empty preferred then none else some (ordered ++ others)

-- `none` for an engine without a factory or a factory without capabilities. Of the transceivers, each
-- of that media type gets the order.
unfoldable pub prefer_codec :
    Bool → Bytes → Option (List (Option Codec)) → Option (List (Option Codec))
unfolding preferred_order
prefer_codec connection mime_type none = none
prefer_codec connection mime_type (some codecs) =
    if not connection then none else preferred_order mime_type codecs
