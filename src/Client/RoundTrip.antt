-- ===== src/Client/RoundTrip.antt =====
-- What the other client reads from the lines of
-- RemoteControl_rtc/RemoteControl_rtc/SignalingProtocol.cpp.
use webrtc_cpp_remote_contro.Base.{
  ◌≡◌, ◌≢◌, refl, [], ◌∷◌, ◌++◌, arith, Bytes, codes, All, strip_prefix, find_behind,
}
use webrtc_cpp_remote_contro.Client.Protocol.{
  quote, skip_blanks, find_value, open_string, string_field, escape, offer,
}
use webrtc_cpp_remote_contro.Client.Search.{Unquoted, read_string-escape, find_value_open}

-- A user id that the server admits: no control byte, quote or backslash.
abbrev pub Printable : Bytes → Type 0
Printable = All (λ c. (c ≢ b'"') × (c ≢ b'\\') × (c ≢ b'\n') × (c ≢ b'\r'))

pub escape-Printable : (u : Bytes) → Printable u → escape u ≡ u
unfolding escape
escape-Printable [] h = refl
escape-Printable (c ∷ u) h = ground (arith, escape-Printable u h.1)

pub Printable-Unquoted : (u : Bytes) → Printable u → Unquoted u
Printable-Unquoted [] h = tt
Printable-Unquoted (c ∷ u) h = (h.0.0, Printable-Unquoted u h.1)

-- A value in quotes is read to its end.
pub open_string-escape :
    (v rest : Bytes) → open_string (skip_blanks (quote ∷ (escape v ++ quote ∷ rest))) ≡ v
unfolding open_string skip_blanks
open_string-escape v rest = read_string-escape v rest []

-- The text of `sdp` comes back whole, whatever it holds, from an offer to any user.
pub string_field-offer_sdp : (to sdp : Bytes) → string_field (offer to sdp) (codes "sdp") ≡ sdp
unfolding string_field offer
string_field-offer_sdp to sdp =
    let tail = quote ∷ (escape sdp ++ (quote ∷ codes "}")) in
    let over : find_value (offer to sdp) (codes "sdp")
        ≡ find_value
            (quote ∷ (escape to ++ (quote ∷ b',' ∷ quote ∷ codes "sdp" ++ (quote ∷ b':' ∷ tail))))
            (codes "sdp") =
      unfold find_value find_behind strip_prefix in refl in
    rw (over, find_value_open (codes "sdp") to tail (omega arith))
      (open_string-escape sdp (codes "}"))
