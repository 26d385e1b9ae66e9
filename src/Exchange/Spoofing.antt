-- ===== src/Exchange/Spoofing.antt =====
-- What the sender check of the server's `RouteMessage` lets through.
use webrtc_cpp_remote_contro.Base.{
  ℕ, ◌≡◌, ◌≢◌, refl, sym, ap, ◌∙◌, true, [], ◌∷◌, ◌++◌, some, arith, Bytes, codes, strip_prefix,
  bytes_eq, is_empty,
}
use webrtc_cpp_remote_contro.Server.Text.{quote, backslash}
use webrtc_cpp_remote_contro.Server.Text
use webrtc_cpp_remote_contro.Server.Route.{routable}
use webrtc_cpp_remote_contro.Client.Protocol
use webrtc_cpp_remote_contro.Client.Protocol.{escape, escape_byte}
use webrtc_cpp_remote_contro.Client.Search.{read_string-escape}
use webrtc_cpp_remote_contro.Client.RoundTrip.{Printable, escape-Printable}
use webrtc_cpp_remote_contro.Exchange.Offers.{sender_key, add_sender-some}
use webrtc_cpp_remote_contro.Exchange.Reading.{insert_before_last-append}

-- An offer with a sender of its own, whose first byte stands behind a backslash.
abbrev pub forged : ℕ → Bytes → Bytes → Bytes
forged c victim rest =
    codes "{\"type\":\"offer\",\"fromUserId\":\"" ++ (backslash ∷ c ∷ victim ++ (quote ∷ rest))

-- The bytes that the server's reader does not know behind a backslash.
abbrev pub IsUnknown : ℕ → Type 0
IsUnknown c = (c ≢ b'n') × (c ≢ b'r') × (c ≢ b't') × (c ≢ b'\\') × (c ≢ b'"')

server_reads :
    (c : ℕ) (victim rest : Bytes)
    → IsUnknown c
    → Text.string_field (forged c victim rest) sender_key ≡ []
server_reads c victim rest h =
    let found : Text.string_field (forged c victim rest) sender_key
        ≡ Text.read_string (backslash ∷ c ∷ victim ++ (quote ∷ rest)) [] =
      unfold Text.string_field strip_prefix in refl in
    found ∙ (unfold Text.read_string in ground (arith))

-- `text` is whatever the server appends to, with its own member for the sender inside.
client_reads :
    (c : ℕ) (victim text : Bytes)
    → IsUnknown c
    → Printable victim
    → Protocol.string_field (forged c victim text) sender_key ≡ c ∷ victim
client_reads c victim text h g =
    let found : Protocol.string_field (forged c victim text) sender_key
        ≡ Protocol.read_string (backslash ∷ c ∷ victim ++ (quote ∷ text)) [] =
      unfold Protocol.string_field strip_prefix in refl in
    let step : Protocol.read_string (backslash ∷ c ∷ victim ++ (quote ∷ text)) []
        ≡ Protocol.read_string (victim ++ (quote ∷ text)) (c ∷ []) =
      unfold Protocol.read_string in ground (arith) in
    found
    ∙ step
    ∙ ap (λ v. Protocol.read_string (v ++ (quote ∷ text)) (c ∷ []))
        (sym (escape-Printable victim g))
    ∙ read_string-escape victim text (c ∷ [])

add_sender-forged :
    (c : ℕ) (victim rest sender routed : Bytes)
    → Text.insert_before_last b'}'
        (codes ",\"fromUserId\":\"" ++ Text.escape_json sender ++ codes "\"")
        rest
      ≡ some routed
    → Text.add_sender (forged c victim rest) sender ≡ forged c victim routed
add_sender-forged c victim rest sender routed h =
    let added = codes ",\"fromUserId\":\"" ++ Text.escape_json sender ++ codes "\"" in
    let quoted : Text.insert_before_last b'}' added (quote ∷ rest) ≡ some (quote ∷ routed) =
      insert_before_last-append b'}' added rest routed (quote ∷ []) h in
    add_sender-some (forged c victim rest) sender (forged c victim routed) (
      insert_before_last-append b'}' added _ _ (codes "{\"type\":\"offer\",\"fromUserId\":\"")
        (insert_before_last-append b'}' added _ _ (backslash ∷ c ∷ victim) quoted))

-- The check can be passed with another user's id: whoever is logged in as `sender` and writes the
-- victim's id with a backslash that the server does not know, for a victim whose id does not begin
-- with n, r or t, passes the check as if no sender were given, and the other client then reads the
-- victim's id as the sender.
pub sender_forged :
    (c : ℕ) (victim rest routed sender : Bytes)
    → IsUnknown c
    → Printable victim
    → Text.insert_before_last b'}'
        (codes ",\"fromUserId\":\"" ++ Text.escape_json sender ++ codes "\"")
        rest
      ≡ some routed
    → let json = forged c victim rest in
      (routable (Text.string_field json (codes "type")) ≡ true)
      × (is_empty (Text.string_field json sender_key) ≡ true)
      × (Protocol.string_field (Text.add_sender json sender) sender_key ≡ c ∷ victim)
sender_forged c victim rest routed sender h g e = (
  unfold routable Text.string_field strip_prefix bytes_eq in refl,
  ap is_empty (server_reads c victim rest h),
  rw (add_sender-forged c victim rest sender routed e) (client_reads c victim routed h g),
)
