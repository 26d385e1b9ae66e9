-- ===== src/Tests/Client.antt =====
-- RemoteControl_rtc/RemoteControl_rtc/SignalingProtocol.cpp on small inputs, and with the server.
use webrtc_cpp_remote_contro.Base.{
  Bytes, ◌≡◌, ◌++◌, [], ◌∷◌, true, some, refl, arith, codes, is_empty,
}
use webrtc_cpp_remote_contro.Server.Text
use webrtc_cpp_remote_contro.Server.Route.{routable}
use webrtc_cpp_remote_contro.Server.State.{printable}
use webrtc_cpp_remote_contro.Client.Protocol
use webrtc_cpp_remote_contro.Client.Protocol.{offer}
use webrtc_cpp_remote_contro.Client.RoundTrip.{string_field-offer_sdp}
use webrtc_cpp_remote_contro.Client.Transport.{login_line, send_line}
use webrtc_cpp_remote_contro.Exchange.Login.{login_arrives}
use webrtc_cpp_remote_contro.Exchange.Offers.{sender_key, offer_arrives}
use webrtc_cpp_remote_contro.Exchange.Spoofing.{forged, sender_forged}

offer_test :
    offer (codes "bob") (codes "a\n\"")
    ≡ codes "{\"type\":\"offer\",\"toUserId\":\"bob\",\"sdp\":\"a\\n\\\"\"}"
unfolding Protocol.offer
offer_test = refl

users_test :
    Protocol.user_ids (codes "{\"users\":[{\"userId\":\"a\"},{\"userId\":\"b\"}]}")
    ≡ codes "a" ∷ codes "b" ∷ []
unfolding Protocol.user_ids
users_test = refl

string_field-offer_sdp_example :
    Protocol.string_field (offer (codes "sdp") (codes "v=0\r\n\"\\")) (codes "sdp")
    ≡ codes "v=0\r\n\"\\"
string_field-offer_sdp_example = string_field-offer_sdp (codes "sdp") (codes "v=0\r\n\"\\")

bob_printable : printable (codes "bob") ≡ true
unfolding printable
bob_printable = refl

ann_printable : printable (codes "ann") ≡ true
unfolding printable
ann_printable = refl

offer_arrives_example :
    let json = offer (codes "bob") (codes "v=0\r\n") in
    let routed = Text.add_sender json (codes "ann") in
    (Text.string_field json (codes "type") ≡ codes "offer")
    × (Text.string_field json (codes "toUserId") ≡ codes "bob")
    × (Text.string_field json sender_key ≡ [])
    × (Protocol.string_field routed (codes "type") ≡ codes "offer")
    × (Protocol.string_field routed sender_key ≡ codes "ann")
    × (Protocol.string_field routed (codes "sdp") ≡ codes "v=0\r\n")
offer_arrives_example =
    offer_arrives (codes "bob") (codes "v=0\r\n") (codes "ann") bob_printable ann_printable
      (omega arith) (λ e. cc)

spoof_routed :
    Text.insert_before_last b'}'
      (codes ",\"fromUserId\":\"" ++ Text.escape_json (codes "eve") ++ codes "\"")
      (codes ",\"toUserId\":\"bob\"}")
    ≡ some (codes ",\"toUserId\":\"bob\",\"fromUserId\":\"eve\"}")
unfolding Text.insert_before_last Text.escape_json
spoof_routed = refl

sender_forged_example :
    let json = forged b'a' (codes "nn") (codes ",\"toUserId\":\"bob\"}") in
    (routable (Text.string_field json (codes "type")) ≡ true)
    × (is_empty (Text.string_field json sender_key) ≡ true)
    × (Protocol.string_field (Text.add_sender json (codes "eve")) sender_key ≡ codes "ann")
sender_forged_example =
    sender_forged b'a' (codes "nn") (codes ",\"toUserId\":\"bob\"}")
      (codes ",\"toUserId\":\"bob\",\"fromUserId\":\"eve\"}") (codes "eve")
      (omega arith, omega arith, omega arith, omega arith, omega arith)
      (
        (omega arith, omega arith, omega arith, omega arith),
        ((omega arith, omega arith, omega arith, omega arith), tt),
      )
      spoof_routed

abbrev login_of_bob : Bytes
login_of_bob = codes "{\"type\":\"login\",\"userId\":\"bob\"}"

bob_line : login_line (codes "bob") ≡ login_of_bob
unfolding login_line
bob_line = refl

bob_sent : (send_line true (login_line (codes "bob")) (20 ∷ 12 ∷ [])).1 ≡ true
unfolding send_line login_line
bob_sent = refl

login_arrives_example :
    ((send_line true (login_line (codes "bob")) (20 ∷ 12 ∷ [])).0
      ≡ login_line (codes "bob") ++ b'\n' ∷ [])
    × (Text.string_field (login_line (codes "bob")) (codes "type") ≡ codes "login")
    × (Text.string_field (login_line (codes "bob")) (codes "userId") ≡ codes "bob")
login_arrives_example =
    login_arrives (codes "bob") true (20 ∷ 12 ∷ []) bob_printable (omega arith) bob_sent
