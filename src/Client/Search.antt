-- ===== src/Client/Search.antt =====
-- How `FindValue` of RemoteControl_rtc/RemoteControl_rtc/SignalingProtocol.cpp goes over escaped
-- text.
use webrtc_cpp_remote_contro.Base.{
  ℕ, ◌≡◌, ◌≢◌, refl, ◌∙◌, ◌⊎◌, inl, inr, false, [], ◌∷◌, ◌++◌, append-nil, append_assoc, Option,
  none, some, arith, Bytes, ◌==◌, ==_iff, All, Bool-cases, strip_prefix, find_behind, find_byte,
}
use webrtc_cpp_remote_contro.Client.Protocol.{
  quote, backslash, skip_blanks, value_behind, find_value, read_string, escape_byte, escape,
}

-- A byte of a key: none that the JSON text around a key uses.
abbrev pub IsKeyByte : ℕ → Type 0
IsKeyByte c = (c ≢ b'"') × (c ≢ b'\\') × (c ≢ b':') × (c ≢ b',')

abbrev pub IsKey : Bytes → Type 0
IsKey = All IsKeyByte

abbrev pub Unquoted : Bytes → Type 0
Unquoted = All (λ c. c ≢ b'"')

read_plain :
    (c : ℕ) (text acc : Bytes)
    → (c == quote) ≡ false
    → (c == backslash) ≡ false
    → read_string (c ∷ text) acc ≡ read_string text (acc ++ c ∷ [])
unfolding read_string
read_plain c [] acc h k = rw h
read_plain c (d ∷ text) acc h k = rw (h, k)

pub read_quote : (text acc : Bytes) → read_string (quote ∷ text) acc ≡ acc
unfolding read_string
read_quote [] acc = refl
read_quote (d ∷ text) acc = refl

read_escaped :
    (c : ℕ) (text acc : Bytes)
    → read_string (escape_byte c ++ text) acc ≡ read_string text (acc ++ c ∷ [])
unfolding read_string escape_byte
read_escaped c text acc = ground (arith, read_plain c text acc)

-- The loop of `StringField` undoes `Escape`.
pub read_string-escape :
    (v rest acc : Bytes) → read_string (escape v ++ quote ∷ rest) acc ≡ acc ++ v
unfolding escape
read_string-escape [] rest acc = rw append-nil (read_quote rest acc)
read_string-escape (c ∷ v) rest acc =
    rw (append_assoc, read_escaped, read_string-escape v rest (acc ++ c ∷ []), append_assoc)

pub strip_prefix-append : (k rest : Bytes) → strip_prefix k (k ++ rest) ≡ some rest
unfolding strip_prefix
strip_prefix-append [] rest = refl
strip_prefix-append (c ∷ k) rest = ground (arith, strip_prefix-append k rest)

-- Behind an escaped quote a key is found only if the value ends in it.
strip_prefix-escape :
    (k v rest : Bytes)
    → IsKey k
    → (strip_prefix (k ++ quote ∷ []) (escape v ++ quote ∷ rest) ≡ none)
      ⊎ (strip_prefix (k ++ quote ∷ []) (escape v ++ quote ∷ rest) ≡ some rest)
unfolding strip_prefix escape
strip_prefix-escape [] [] rest h = inr (ground (arith))
strip_prefix-escape [] (c ∷ v) rest h = inl (unfold escape_byte in ground (arith))
strip_prefix-escape (a ∷ k) [] rest h = inl (ground (arith))
strip_prefix-escape (a ∷ k) (c ∷ v) rest h =
    unfold escape_byte in ground (arith, strip_prefix-escape k v rest h.1)

-- A search passes over text without a quote.
pub find_behind-Unquoted :
    (k w rest : Bytes)
    → Unquoted w
    → find_behind (quote ∷ k) (w ++ rest) ≡ find_behind (quote ∷ k) rest
unfolding find_behind
find_behind-Unquoted k [] rest h = refl
find_behind-Unquoted k (c ∷ w) rest h = ground (arith, find_behind-Unquoted k w rest h.1)

find_behind_miss :
    (k text : Bytes) (c : ℕ)
    → strip_prefix k (c ∷ text) ≡ none
    → find_behind k (c ∷ text) ≡ find_behind k text
unfolding find_behind
find_behind_miss k text c h = rw (h, find_behind)

find_behind_hit :
    (k text rest : Bytes) (c : ℕ)
    → strip_prefix k (c ∷ text) ≡ some rest
    → find_behind k (c ∷ text) ≡ some rest
unfolding find_behind
find_behind_hit k text rest c h = rw (h, find_behind)

find_behind-quote :
    (k text rest : Bytes) (goal : Option Bytes)
    → (strip_prefix (k ++ quote ∷ []) text ≡ none)
      ⊎ (strip_prefix (k ++ quote ∷ []) text ≡ some rest)
    → (find_behind (quote ∷ k ++ quote ∷ []) text ≡ goal)
      ⊎ (find_behind (quote ∷ k ++ quote ∷ []) text ≡ some rest)
    → (find_behind (quote ∷ k ++ quote ∷ []) (backslash ∷ quote ∷ text) ≡ goal)
      ⊎ (find_behind (quote ∷ k ++ quote ∷ []) (backslash ∷ quote ∷ text) ≡ some rest)
find_behind-quote k text rest goal at_quote later =
    let key = quote ∷ k ++ quote ∷ [] in
    let over : find_behind key (backslash ∷ quote ∷ text) ≡ find_behind key (quote ∷ text) =
      find_behind_miss key (quote ∷ text) backslash (unfold strip_prefix in refl) in
    let same : strip_prefix key (quote ∷ text) ≡ strip_prefix (k ++ quote ∷ []) text =
      unfold strip_prefix in refl in
    rw over (elim at_quote [
      | inl n ↦ rw (find_behind_miss key text quote (same ∙ n)) later
      | inr e ↦ inr (find_behind_hit key text rest quote (same ∙ e))
    ])

-- A search for a key passes over an escaped value, or finds the key at its very end, before `rest`.
pub find_behind-escape :
    (k v rest : Bytes)
    → IsKey k
    → let key = quote ∷ k ++ quote ∷ [] in
      (find_behind key (escape v ++ quote ∷ rest) ≡ find_behind key (quote ∷ rest))
      ⊎ (find_behind key (escape v ++ quote ∷ rest) ≡ some rest)
unfolding escape
find_behind-escape k [] rest h = inl refl
find_behind-escape k (c ∷ v) rest h = elim (Bool-cases (c == quote)) [
  | inr plain ↦
      let w : Unquoted (escape_byte c) = unfold escape_byte in ground (arith) in
      rw
        (
          append_assoc,
          find_behind-Unquoted (k ++ quote ∷ []) (escape_byte c) (escape v ++ quote ∷ rest) w,
        )
        (find_behind-escape k v rest h)
  | inl quoted ↦
      let shape : escape_byte c ≡ backslash ∷ quote ∷ [] = unfold escape_byte in ground (arith) in
      rw shape (
        find_behind-quote k (escape v ++ quote ∷ rest) rest
          (find_behind (quote ∷ k ++ quote ∷ []) (quote ∷ rest)) (strip_prefix-escape k v rest h)
          (find_behind-escape k v rest h))
]

-- The colon behind a key leads to the value, also if the search stopped at an escaped quote before.
find_byte_over :
    (w rest : Bytes) → All (λ c. c ≢ b':') w → find_byte b':' (w ++ rest) ≡ find_byte b':' rest
unfolding find_byte
find_byte_over [] rest h = refl
find_byte_over (c ∷ w) rest h = ground (arith, find_byte_over w rest h.1)

key_no_colon : (k : Bytes) → IsKey k → All (λ c. c ≢ b':') k
key_no_colon [] h = tt
key_no_colon (c ∷ k) h = (h.0.2, key_no_colon k h.1)

value_behind_colon : (tail : Bytes) → value_behind (b':' ∷ tail) ≡ skip_blanks tail
unfolding value_behind find_byte
value_behind_colon tail = refl

value_behind_key :
    (k tail : Bytes)
    → IsKey k
    → value_behind (b',' ∷ quote ∷ k ++ (quote ∷ b':' ∷ tail)) ≡ skip_blanks tail
unfolding value_behind find_byte
value_behind_key k tail h = rw (find_byte_over k (quote ∷ b':' ∷ tail) (key_no_colon k h)) refl

strip_prefix_comma :
    (k rest : Bytes) → IsKey k → strip_prefix (k ++ quote ∷ []) (b',' ∷ rest) ≡ none
unfolding strip_prefix
strip_prefix_comma [] rest h = refl
strip_prefix_comma (a ∷ k) rest h = ground (arith)

strip_prefix_key :
    (k rest : Bytes) → strip_prefix (k ++ quote ∷ []) (k ++ (quote ∷ rest)) ≡ some rest
strip_prefix_key k rest =
    rw (← append_assoc k (quote ∷ []) rest) (strip_prefix-append (k ++ quote ∷ []) rest)

-- The search for a key that stands in quotes right there.
pub find_behind_here :
    (k rest : Bytes)
    → find_behind (quote ∷ k ++ quote ∷ []) (quote ∷ k ++ (quote ∷ rest)) ≡ some rest
find_behind_here k rest =
    find_behind_hit (quote ∷ k ++ quote ∷ []) (k ++ (quote ∷ rest)) rest quote
      (unfold strip_prefix in strip_prefix_key k rest)

-- The search goes over a closing quote and a comma.
pub find_behind_comma :
    (k text : Bytes)
    → IsKey k
    → find_behind (quote ∷ k ++ quote ∷ []) (quote ∷ b',' ∷ text)
      ≡ find_behind (quote ∷ k ++ quote ∷ []) text
find_behind_comma k text h =
    let key = quote ∷ k ++ quote ∷ [] in
    find_behind_miss key (b',' ∷ text) quote (unfold strip_prefix in strip_prefix_comma k text h)
    ∙ find_behind_miss key text b',' (unfold strip_prefix in refl)

-- The same from the opening quote on: the value itself may be spelled like the key.
pub find_behind_open :
    (k v rest : Bytes)
    → IsKey k
    → let key = quote ∷ k ++ quote ∷ [] in
      (find_behind key (quote ∷ (escape v ++ quote ∷ rest)) ≡ find_behind key (quote ∷ rest))
      ⊎ (find_behind key (quote ∷ (escape v ++ quote ∷ rest)) ≡ some rest)
find_behind_open k v rest h =
    let key = quote ∷ k ++ quote ∷ [] in
    let text = escape v ++ quote ∷ rest in
    let same : strip_prefix key (quote ∷ text) ≡ strip_prefix (k ++ quote ∷ []) text =
      unfold strip_prefix in refl in
    elim (strip_prefix-escape k v rest h) [
      | inl n ↦ rw (find_behind_miss key text quote (same ∙ n)) (find_behind-escape k v rest h)
      | inr e ↦ inr (find_behind_hit key text rest quote (same ∙ e))
    ]

-- The value of a member behind a quoted value is found, whatever that value is.
pub find_value_open :
    (k v tail : Bytes)
    → IsKey k
    → find_value (quote ∷ (escape v ++ (quote ∷ b',' ∷ quote ∷ k ++ (quote ∷ b':' ∷ tail)))) k
      ≡ skip_blanks tail
unfolding find_value
find_value_open k v tail h =
    elim (find_behind_open k v (b',' ∷ quote ∷ k ++ (quote ∷ b':' ∷ tail)) h) [
      | inl e ↦
          rw
            (
              e
                  ∙ find_behind_comma k (quote ∷ k ++ (quote ∷ b':' ∷ tail)) h
                  ∙ find_behind_here k (b':' ∷ tail),
              find_value,
            )
            (value_behind_colon tail)
      | inr e ↦ rw (e, find_value) (value_behind_key k tail h)
    ]

end_none : (k : Bytes) → find_behind (quote ∷ k ++ quote ∷ []) (quote ∷ b'}' ∷ []) ≡ none
unfolding find_behind strip_prefix
end_none [] = refl
end_none (a ∷ []) = ground (arith)
end_none (a ∷ b ∷ k) = ground (arith)

-- A key that only a quoted value at the end of the text could hold has no value.
pub find_value_open_end :
    (k v : Bytes) → IsKey k → find_value (quote ∷ (escape v ++ (quote ∷ b'}' ∷ []))) k ≡ none
unfolding find_value
find_value_open_end k v h = elim (find_behind_open k v (b'}' ∷ []) h) [
  | inl e ↦ rw (e ∙ end_none k, find_value) refl
  | inr e ↦ rw (e, find_value) (unfold value_behind find_byte in refl)
]

-- Behind an opening quote a text without quotes is no key but itself.
pub strip_prefix_other :
    (k w rest : Bytes)
    → Unquoted k
    → Unquoted w
    → k ≢ w
    → strip_prefix (k ++ quote ∷ []) (w ++ quote ∷ rest) ≡ none
unfolding strip_prefix
strip_prefix_other [] [] rest h g n = absurd (n refl)
strip_prefix_other [] (c ∷ w) rest h g n = ground (arith)
strip_prefix_other (a ∷ k) [] rest h g n = ground (arith)
strip_prefix_other (a ∷ k) (c ∷ w) rest h g n = elim (Bool-cases (a == c)) [
  | inr miss ↦ rw miss
  | inl hit ↦
      rw hit (strip_prefix_other k w rest h.1 g.1 (λ e. n (λ i. ((==_iff a c).0 hit) i ∷ e i)))
]

-- So a search passes over such a text in its quotes.
pub find_behind_other :
    (k w rest : Bytes)
    → Unquoted k
    → Unquoted w
    → k ≢ w
    → find_behind (quote ∷ k ++ quote ∷ []) (quote ∷ (w ++ quote ∷ rest))
      ≡ find_behind (quote ∷ k ++ quote ∷ []) (quote ∷ rest)
find_behind_other k w rest h g n =
    find_behind_miss (quote ∷ k ++ quote ∷ []) (w ++ quote ∷ rest) quote
      (unfold strip_prefix in strip_prefix_other k w rest h g n)
    ∙ find_behind-Unquoted (k ++ quote ∷ []) w (quote ∷ rest) g
