-- ===== src/Exchange/Reading.antt =====
-- The server's JSON helpers read what the client's read.
use webrtc_cpp_remote_contro.Base.{
  ℕ, ◌+◌, ◌≤◌, ◌≡◌, refl, ◌∙◌, inl, inr, true, false, [], ◌∷◌, ◌++◌, append-nil, append_assoc, some,
  arith, Bytes, ◌==◌, length, length-append, Option-cases, find_behind, find_byte,
}
use webrtc_cpp_remote_contro.Server.Text.{max_field, quote, backslash}
use webrtc_cpp_remote_contro.Server.Text
use webrtc_cpp_remote_contro.Server.State.{printable}
use webrtc_cpp_remote_contro.Client.Protocol
use webrtc_cpp_remote_contro.Client.RoundTrip.{Printable}

skip_blanks_same : (text : Bytes) → Text.skip_blanks text ≡ Protocol.skip_blanks text
unfolding Text.skip_blanks Protocol.skip_blanks
skip_blanks_same [] = refl
skip_blanks_same (c ∷ text) = ground (arith, skip_blanks_same text)

-- Both programs find the same value of a member.
pub find_value_same :
    (json name : Bytes) → Text.find_value json name ≡ Protocol.find_value json name
unfolding Text.find_value Protocol.find_value Protocol.value_behind
find_value_same json name = elim (Option-cases (find_behind (quote ∷ name ++ quote ∷ []) json)) [
  | inl e ↦ rw (e, Text.find_value, Protocol.find_value)
  | inr (behind, e) ↦
      rw (e, Text.find_value, Protocol.find_value)
        (elim (Option-cases (find_byte b':' behind)) [
          | inl f ↦ rw (f, Protocol.value_behind)
          | inr (rest, f) ↦ rw (f, Protocol.value_behind) (skip_blanks_same rest)
        ])
]

pub printable-Printable : (u : Bytes) → printable u ≡ true → Printable u
unfolding printable
printable-Printable [] h = tt
printable-Printable (c ∷ u) h = (ground (arith), printable-Printable u (ground (arith)))

-- The server writes an admitted user id as it is.
pub escape_json-printable : (u : Bytes) → printable u ≡ true → Text.escape_json u ≡ u
unfolding printable Text.escape_json Text.escape_byte
escape_json-printable [] h = refl
escape_json-printable (c ∷ u) h = ground (arith, escape_json-printable u)

server_plain :
    (c : ℕ) (text acc : Bytes)
    → (c == quote) ≡ false
    → (c == backslash) ≡ false
    → length acc + 1 ≤ max_field
    → Text.read_string (c ∷ text) acc ≡ Text.read_string text (acc ++ c ∷ [])
unfolding Text.read_string
server_plain c [] acc h k short = rw h
server_plain c (d ∷ text) acc h k short = rw (h, k) (ground (arith, length-append acc (c ∷ [])))

server_quote : (text acc : Bytes) → Text.read_string (quote ∷ text) acc ≡ acc
unfolding Text.read_string
server_quote [] acc = refl
server_quote (d ∷ text) acc = refl

-- The server reads such a text in quotes to its end, if it keeps the limit.
pub read_string-Printable :
    (u rest acc : Bytes)
    → Printable u
    → length acc + length u ≤ max_field
    → Text.read_string (u ++ quote ∷ rest) acc ≡ acc ++ u
read_string-Printable [] rest acc h short = rw append-nil (server_quote rest acc)
read_string-Printable (c ∷ u) rest acc h short =
    server_plain c (u ++ quote ∷ rest) acc (ground (arith)) (ground (arith)) (omega arith)
    ∙ read_string-Printable u rest (acc ++ c ∷ []) h.1 (omega (arith, length-append acc (c ∷ [])))
    ∙ append_assoc acc (c ∷ []) u

pub insert_before_last-append :
    (c : ℕ) (added text routed w : Bytes)
    → Text.insert_before_last c added text ≡ some routed
    → Text.insert_before_last c added (w ++ text) ≡ some (w ++ routed)
unfolding Text.insert_before_last
insert_before_last-append c added text routed [] h = h
insert_before_last-append c added text routed (x ∷ w) h =
    rw (insert_before_last-append c added text routed w h, Text.insert_before_last)
