-- ===== src/Exchange/Offers.antt =====
-- The way of an offer: written by `SignalingProtocol::Offer`, read and signed by the server, and read
-- by the other client.
use webrtc_cpp_remote_contro.Base.{
  ◌≤◌, ◌≡◌, ◌≢◌, refl, sym, ap, ◌∙◌, true, [], ◌∷◌, ◌++◌, append_assoc, some, arith, Bytes, codes,
  length, find_behind, strip_prefix,
}
use webrtc_cpp_remote_contro.Server.Text.{quote, max_field}
use webrtc_cpp_remote_contro.Server.Text
use webrtc_cpp_remote_contro.Server.State.{printable}
use webrtc_cpp_remote_contro.Client.Protocol.{member, envelope, escape, offer}
use webrtc_cpp_remote_contro.Client.Protocol
use webrtc_cpp_remote_contro.Client.Search.{find_behind_other, find_value_open, find_value_open_end}
use webrtc_cpp_remote_contro.Client.RoundTrip.{
  Printable, Printable-Unquoted, escape-Printable, open_string-escape,
}
use webrtc_cpp_remote_contro.Exchange.Reading.{
  find_value_same, printable-Printable, escape_json-printable, read_string-Printable,
  insert_before_last-append,
}

abbrev pub sender_key : Bytes
sender_key = codes "fromUserId"

-- The offer with the server's member for the sender.
abbrev pub signed_offer : Bytes → Bytes → Bytes → Bytes
signed_offer to sdp sender =
    envelope (codes "offer") to
      (b',' ∷ member (codes "sdp") (escape sdp) (b',' ∷ member sender_key sender (codes "}")))

find_value_cong :
    (k text rest : Bytes)
    → find_behind (quote ∷ k ++ quote ∷ []) text ≡ find_behind (quote ∷ k ++ quote ∷ []) rest
    → Protocol.find_value text k ≡ Protocol.find_value rest k
unfolding Protocol.find_value
find_value_cong k text rest e = rw (e, Protocol.find_value)

-- A search for the sender goes on to the `sdp` of an envelope, unless the target is spelled like the
-- key.
sender_over :
    (to text : Bytes)
    → Printable to
    → sender_key ≢ to
    → Protocol.find_value
        (envelope (codes "offer") to (b',' ∷ quote ∷ codes "sdp" ++ (quote ∷ b':' ∷ quote ∷ text)))
        sender_key
      ≡ Protocol.find_value (quote ∷ text) sender_key
sender_over to text h n =
    let rest = b',' ∷ quote ∷ codes "sdp" ++ (quote ∷ b':' ∷ quote ∷ text) in
    let key = quote ∷ sender_key ++ quote ∷ [] in
    let unescaped : envelope (codes "offer") to rest
        ≡ b'{' ∷ member (codes "type") (codes "offer") (b',' ∷ member (codes "toUserId") to rest) =
      ap
        (λ t.
          b'{' ∷ member (codes "type") (codes "offer") (b',' ∷ member (codes "toUserId") t rest))
        (escape-Printable to h) in
    let plain =
      b'{' ∷ member (codes "type") (codes "offer") (b',' ∷ member (codes "toUserId") to rest) in
    let before : find_behind key plain ≡ find_behind key (quote ∷ (to ++ quote ∷ rest)) =
      unfold find_behind strip_prefix in refl in
    let behind : find_behind key (quote ∷ rest) ≡ find_behind key (quote ∷ text) =
      unfold find_behind strip_prefix in refl in
    find_value_cong sender_key (envelope (codes "offer") to rest) (quote ∷ text) (
      ap (find_behind key) unescaped
      ∙ before
      ∙ find_behind_other sender_key to rest (omega arith) (Printable-Unquoted to h) n
      ∙ behind)

-- The server finds no sender in an offer.
unsigned :
    (to sdp : Bytes)
    → Printable to
    → sender_key ≢ to
    → Text.string_field (offer to sdp) sender_key ≡ []
unfolding Text.string_field offer Text.open_string
unsigned to sdp h n = rw (
  find_value_same (offer to sdp) sender_key
      ∙ sender_over to (escape sdp ++ (quote ∷ codes "}")) h n
      ∙ find_value_open_end sender_key sdp (omega arith),
  Text.open_string,
)

pub add_sender-some :
    (json sender routed : Bytes)
    → Text.insert_before_last b'}'
        (codes ",\"fromUserId\":\"" ++ Text.escape_json sender ++ codes "\"")
        json
      ≡ some routed
    → Text.add_sender json sender ≡ routed
unfolding Text.add_sender
add_sender-some json sender routed h = rw (h, Text.add_sender)

-- Where the server puts its member: behind the last value, before the brace that ends the offer.
insert-offer :
    (to sdp added : Bytes)
    → Text.insert_before_last b'}' added (offer to sdp)
      ≡ some (
          envelope
            (codes "offer")
            to
            (b',' ∷ member (codes "sdp") (escape sdp) (added ++ codes "}")))
insert-offer to sdp added =
    let head = codes "{\"type\":\"offer\",\"toUserId\":\"" in
    let middle = codes "\",\"sdp\":\"" in
    let split : offer to sdp
        ≡ head ++ (escape to ++ (middle ++ (escape sdp ++ (quote ∷ codes "}")))) =
      unfold offer in refl in
    let last : Text.insert_before_last b'}' added (quote ∷ codes "}")
        ≡ some (quote ∷ (added ++ codes "}")) =
      unfold Text.insert_before_last in refl in
    ap (Text.insert_before_last b'}' added) split
    ∙ insert_before_last-append b'}' added _ _ head (
        insert_before_last-append b'}' added _ _ (escape to) (
          insert_before_last-append b'}' added _ _ middle
            (insert_before_last-append b'}' added _ _ (escape sdp) last)))

add_sender-offer :
    (to sdp sender : Bytes)
    → printable sender ≡ true
    → Text.add_sender (offer to sdp) sender ≡ signed_offer to sdp sender
add_sender-offer to sdp sender h =
    let added = codes ",\"fromUserId\":\"" ++ Text.escape_json sender ++ codes "\"" in
    let signed : added ++ codes "}" ≡ b',' ∷ member sender_key sender (codes "}") =
      rw (escape_json-printable sender h)
        (ap (◌++◌ (codes ",\"fromUserId\":\"")) (append_assoc sender (codes "\"") (codes "}"))) in
    add_sender-some (offer to sdp) sender (signed_offer to sdp sender) (
      insert-offer to sdp added
      ∙ ap (λ t. some (envelope (codes "offer") to (b',' ∷ member (codes "sdp") (escape sdp) t)))
          signed)

type_read : (to sdp : Bytes) → Text.string_field (offer to sdp) (codes "type") ≡ codes "offer"
unfolding Text.string_field offer strip_prefix
type_read to sdp = refl

target_read :
    (to sdp : Bytes)
    → Printable to
    → length to ≤ max_field
    → Text.string_field (offer to sdp) (codes "toUserId") ≡ to
target_read to sdp h short =
    let rest = b',' ∷ member (codes "sdp") (escape sdp) (codes "}") in
    let found : Text.string_field (offer to sdp) (codes "toUserId")
        ≡ Text.read_string (escape to ++ (quote ∷ rest)) [] =
      unfold Text.string_field offer strip_prefix in refl in
    found
    ∙ ap (λ t. Text.read_string (t ++ (quote ∷ rest)) []) (escape-Printable to h)
    ∙ read_string-Printable to rest [] h (omega arith)

signed_type :
    (to sdp sender : Bytes)
    → Protocol.string_field (signed_offer to sdp sender) (codes "type") ≡ codes "offer"
unfolding Protocol.string_field strip_prefix
signed_type to sdp sender = refl

signed_sdp :
    (to sdp sender : Bytes) → Protocol.string_field (signed_offer to sdp sender) (codes "sdp") ≡ sdp
unfolding Protocol.string_field
signed_sdp to sdp sender =
    let rest = b',' ∷ member sender_key sender (codes "}") in
    let tail = quote ∷ (escape sdp ++ (quote ∷ rest)) in
    let over : Protocol.find_value (signed_offer to sdp sender) (codes "sdp")
        ≡ Protocol.find_value
            (quote ∷ (escape to ++ (quote ∷ b',' ∷ quote ∷ codes "sdp" ++ (quote ∷ b':' ∷ tail))))
            (codes "sdp") =
      unfold Protocol.find_value find_behind strip_prefix in refl in
    rw (over, find_value_open (codes "sdp") to tail (omega arith)) (open_string-escape sdp rest)

signed_sender :
    (to sdp sender : Bytes)
    → Printable to
    → Printable sender
    → sender_key ≢ to
    → Protocol.string_field (signed_offer to sdp sender) sender_key ≡ sender
unfolding Protocol.string_field
signed_sender to sdp sender h g n =
    let tail = quote ∷ (sender ++ (quote ∷ codes "}")) in
    let found : Protocol.find_value (signed_offer to sdp sender) sender_key
        ≡ Protocol.skip_blanks tail =
      sender_over to (escape sdp ++ (quote ∷ b',' ∷ member sender_key sender (codes "}"))) h n
      ∙ find_value_open sender_key sdp tail (omega arith) in
    let escaped : Protocol.skip_blanks tail
        ≡ Protocol.skip_blanks (quote ∷ (escape sender ++ (quote ∷ codes "}"))) =
      ap (λ t. Protocol.skip_blanks (quote ∷ (t ++ (quote ∷ codes "}"))))
        (sym (escape-Printable sender g)) in
    rw (found ∙ escaped) (open_string-escape sender (codes "}"))

-- An offer to an admitted user whose id is not spelled like the key of the sender, with any text for
-- `sdp`: the server reads the type and the target and no sender; and the other client reads from the
-- signed line the type, the registered id of the sender and the very text of `sdp`.
pub offer_arrives :
    (to sdp sender : Bytes)
    → printable to ≡ true
    → printable sender ≡ true
    → length to ≤ max_field
    → sender_key ≢ to
    → let json = offer to sdp in
      let routed = Text.add_sender json sender in
      (Text.string_field json (codes "type") ≡ codes "offer")
      × (Text.string_field json (codes "toUserId") ≡ to)
      × (Text.string_field json sender_key ≡ [])
      × (Protocol.string_field routed (codes "type") ≡ codes "offer")
      × (Protocol.string_field routed sender_key ≡ sender)
      × (Protocol.string_field routed (codes "sdp") ≡ sdp)
offer_arrives to sdp sender admitted registered short n =
    let h = printable-Printable to admitted in
    let g = printable-Printable sender registered in
    (
      type_read to sdp,
      target_read to sdp h short,
      unsigned to sdp h n,
      rw (add_sender-offer to sdp sender registered) (signed_type to sdp sender),
      rw (add_sender-offer to sdp sender registered) (signed_sender to sdp sender h g n),
      rw (add_sender-offer to sdp sender registered) (signed_sdp to sdp sender),
    )
