-- ===== src/Server/Text.antt =====
-- The JSON helpers of RemoteControl_rtc/SignalingServer/main.cpp. A position in a text is the rest
-- of the text from there on, and `npos` is `none`; the empty text is `{}`.
use webrtc_cpp_remote_contro.Base.{
  ℕ, Bool, ◌||◌, [], ◌∷◌, ◌++◌, Option, none, some, Bytes, codes, ltb, leb, ◌==◌, if◌then◌else◌,
  length, find_behind, find_byte,
}

abbrev pub quote : ℕ
quote = b'"'

abbrev pub backslash : ℕ
backslash = b'\\'

-- What one round of the loop of `EscapeJson` appends.
unfoldable pub escape_byte : ℕ → Bytes
escape_byte c =
    if c == backslash
    then backslash ∷ backslash ∷ []
    else if c == quote
    then backslash ∷ quote ∷ []
    else if c == b'\n'
    then backslash ∷ b'n' ∷ []
    else if c == b'\r'
    then backslash ∷ b'r' ∷ []
    else if c == b'\t'
    then backslash ∷ b't' ∷ []
    else if leb 0x20 c
    then c ∷ []
    else []

unfoldable pub escape_json : Bytes → Bytes
unfolding escape_byte
escape_json [] = []
escape_json (c ∷ value) = escape_byte c ++ escape_json value

abbrev is_blank : ℕ → Bool
is_blank c = c == b' ' || c == b'\t' || c == b'\r' || c == b'\n'

-- `find_first_not_of(" \t\r\n")`
unfoldable pub skip_blanks : Bytes → Option Bytes
skip_blanks [] = none
skip_blanks (c ∷ text) = let rest = skip_blanks text in if is_blank c then rest else some (c ∷ text)

unfoldable pub find_value : Bytes → Bytes → Option Bytes
unfolding find_behind find_byte skip_blanks
find_value json name = elim (find_behind (quote ∷ name ++ quote ∷ []) json) [
  | none ↦ none
  | some behind ↦ elim (find_byte b':' behind) [ none ↦ none | some rest ↦ skip_blanks rest ]
]

-- `switch (json[position])` behind a backslash; `none` is `return {}`.
unfoldable pub unescape_byte : ℕ → Option ℕ
unescape_byte c =
    if c == b'n'
    then some b'\n'
    else if c == b'r'
    then some b'\r'
    else if c == b't'
    then some b'\t'
    else if c == backslash
    then some backslash
    else if c == quote
    then some quote
    else none

abbrev pub max_field : ℕ
max_field = 1024

-- `result += c`, and the test at the end of the round; `k` is the loop from the next round on.
abbrev grow : Bytes → ℕ → (Bytes → Bytes) → Bytes
grow result c k =
    let rest = k (result ++ c ∷ []) in
    if ltb max_field (length (result ++ c ∷ [])) then [] else rest

-- The loop of `StringField`. A backslash at the very end makes the source append the terminator of
-- the text and then leave the loop with `{}`.
unfoldable pub read_string : Bytes → Bytes → Bytes
unfolding unescape_byte
read_string [] result = []
read_string (c ∷ []) result = if c == quote then result else []
read_string (c ∷ d ∷ text) result =
    let plain = grow result c (read_string (d ∷ text)) in
    let escaped : Bytes = elim (unescape_byte d) [
      | none ↦ []
      | some e ↦ grow result e (read_string text)
    ] in
    if c == quote then result else if c == backslash then escaped else plain

unfoldable pub open_string : Option Bytes → Bytes
unfolding read_string
open_string none = []
open_string (some []) = []
open_string (some (c ∷ text)) = let value = read_string text [] in if c == quote then value else []

unfoldable pub string_field : Bytes → Bytes → Bytes
unfolding find_value open_string
string_field json name = open_string (find_value json name)

-- `rfind('}')` and `insert` there; `none` is `npos`.
unfoldable pub insert_before_last : ℕ → Bytes → Bytes → Option Bytes
insert_before_last c added [] = none
insert_before_last c added (x ∷ text) = elim (insert_before_last c added text) [
  | some routed ↦ some (x ∷ routed)
  | none ↦ if x == c then some (added ++ x ∷ text) else none
]

unfoldable pub add_sender : Bytes → Bytes → Bytes
unfolding insert_before_last escape_json
add_sender json sender =
    elim (insert_before_last b'}' (codes ",\"fromUserId\":\"" ++ escape_json sender ++ codes "\"")
      json) [ none ↦ [] | some routed ↦ routed ]
