-- ===== src/Client/Protocol.antt =====
-- The JSON helper RemoteControl_rtc/RemoteControl_rtc/SignalingProtocol.cpp. A position in a text is
-- the rest of the text from there on, and `npos` is `none`; the empty text is `{}`. `std::to_string`
-- and `strtol` are parameters.
use webrtc_cpp_remote_contro.Base.{
  ℕ, zero, suc, Bool, true, false, ◌||◌, List, [], ◌∷◌, ◌++◌, Option, none, some, Bytes, codes,
  ◌==◌, if◌then◌else◌, length, is_empty, strip_prefix, find_behind, find_byte,
}

abbrev pub quote : ℕ
quote = b'"'

abbrev pub backslash : ℕ
backslash = b'\\'

abbrev pub is_blank : ℕ → Bool
is_blank c = c == b' ' || c == b'\t' || c == b'\r' || c == b'\n'

-- `find_first_not_of(" \t\r\n")`
unfoldable pub skip_blanks : Bytes → Option Bytes
skip_blanks [] = none
skip_blanks (c ∷ text) = let rest = skip_blanks text in if is_blank c then rest else some (c ∷ text)

-- The part of `FindValue` behind the key.
unfoldable pub value_behind : Bytes → Option Bytes
unfolding find_byte skip_blanks
value_behind text = elim (find_byte b':' text) [ none ↦ none | some rest ↦ skip_blanks rest ]

unfoldable pub find_value : Bytes → Bytes → Option Bytes
unfolding find_behind value_behind
find_value json name = elim (find_behind (quote ∷ name ++ quote ∷ []) json) [
  | none ↦ none
  | some behind ↦ value_behind behind
]

-- `switch (json[position])` behind a backslash.
unfoldable pub unescape_byte : ℕ → ℕ
unescape_byte c =
    if c == b'n' then b'\n' else if c == b'r' then b'\r' else if c == b't' then b'\t' else c

-- The loop of `StringField`. A backslash at the very end makes the source append the terminator of
-- the text and then leave the loop with `{}`.
unfoldable pub read_string : Bytes → Bytes → Bytes
unfolding unescape_byte
read_string [] result = []
read_string (c ∷ []) result = if c == quote then result else []
read_string (c ∷ d ∷ text) result =
    let plain = read_string (d ∷ text) (result ++ c ∷ []) in
    let escaped = read_string text (result ++ unescape_byte d ∷ []) in
    if c == quote then result else if c == backslash then escaped else plain

-- `json[position] != '"'` and `++position`.
unfoldable pub open_string : Option Bytes → Bytes
unfolding read_string
open_string none = []
open_string (some []) = []
open_string (some (c ∷ text)) = let value = read_string text [] in if c == quote then value else []

unfoldable pub string_field : Bytes → Bytes → Bytes
unfolding find_value open_string
string_field json name = open_string (find_value json name)

-- `json.compare(position, word.size(), word) == 0`
abbrev starts : Bytes → Bytes → Bool
starts word text = elim (strip_prefix word text) [ none ↦ false | some rest ↦ true ]

unfoldable pub bool_field : Bytes → Bytes → Bool → Bool
unfolding find_value strip_prefix
bool_field json name fallback = elim (find_value json name) [
  | none ↦ fallback
  | some text ↦
      if starts (codes "true") text
      then true
      else if starts (codes "false") text
      then false
      else fallback
]

abbrev user_key : Bytes
user_key = codes "\"userId\""

-- The loop of `UserIds`, with fuel for its rounds: `find` from `position` on, the field of the text
-- from the match on, and `position += 8`, which is behind the match.
unfoldable pub user_ids_from : ℕ → Bytes → List Bytes
unfolding find_behind string_field
user_ids_from zero text = []
user_ids_from (suc fuel) text = elim (find_behind user_key text) [
  | none ↦ []
  | some behind ↦
      let id = string_field (user_key ++ behind) (codes "userId") in
      let rest = user_ids_from fuel behind in if is_empty id then rest else id ∷ rest
]

-- Every round goes past a match, so the text's length and one are fuel enough.
unfoldable pub user_ids : Bytes → List Bytes
unfolding user_ids_from
user_ids json = user_ids_from (suc (length json)) json

unfoldable pub escape_byte : ℕ → Bytes
escape_byte c =
    if c == backslash
    then backslash ∷ backslash ∷ []
    else if c == quote
    then backslash ∷ quote ∷ []
    else if c == b'\n'
    then backslash ∷ b'n' ∷ []
    else if c == b'\r'
    then backslash ∷ b'r' ∷ []
    else c ∷ []

unfoldable pub escape : Bytes → Bytes
unfolding escape_byte
escape [] = []
escape (c ∷ value) = escape_byte c ++ escape value

-- A member `"key":"value"` and the text behind it.
abbrev pub member : Bytes → Bytes → Bytes → Bytes
member key value rest = quote ∷ key ++ (quote ∷ b':' ∷ quote ∷ value ++ (quote ∷ rest))

-- `{"type":"...","toUserId":"..."` and the text behind it.
abbrev pub envelope : Bytes → Bytes → Bytes → Bytes
envelope type to rest =
    b'{' ∷ member (codes "type") type (b',' ∷ member (codes "toUserId") (escape to) rest)

unfoldable pub offer : Bytes → Bytes → Bytes
unfolding escape
offer to sdp = envelope (codes "offer") to (b',' ∷ member (codes "sdp") (escape sdp) (codes "}"))

unfoldable pub answer : Bytes → Bytes → Bytes
unfolding escape
answer to sdp = envelope (codes "answer") to (b',' ∷ member (codes "sdp") (escape sdp) (codes "}"))

unfoldable pub hangup : Bytes → Bytes
unfolding escape
hangup to = envelope (codes "hangup") to (codes "}")

-- The line index is written by `std::to_string`.
module _ {Int : Type 0} (to_string : Int → Bytes) where
  unfoldable pub candidate : Bytes → Bytes → Int → Bytes → Bytes
  unfolding escape
  candidate to mid mline_index text = envelope (codes "ice-candidate") to (
      b','
      ∷ member (codes "mid") (escape mid) (
          codes ",\"mlineIndex\":"
          ++ (to_string mline_index
              ++ (b',' ∷ member (codes "candidate") (escape text) (codes "}")))))

-- `strtol(text, &end, 10)`: the value cast to `int`, or nothing if no digit was read.
module _ {Int : Type 0} (strtol : Bytes → Option Int) where
  unfoldable pub int_field : Bytes → Bytes → Int → Int
  unfolding find_value
  int_field json name fallback = elim (find_value json name) [
    | none ↦ fallback
    | some text ↦ elim (strtol text) [ none ↦ fallback | some value ↦ value ]
  ]
