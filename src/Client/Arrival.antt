-- ===== src/Client/Arrival.antt =====
-- A whole run of the client's thread on the lines that the server sends.
use webrtc_cpp_remote_contro.Base.{
  ◌≡◌, refl, ap, ◌∙◌, All, Bool, true, false, List, [], ◌∷◌, ◌++◌, append_assoc, append-nil, Bytes,
  ◌==◌, if◌then◌else◌,
}
use webrtc_cpp_remote_contro.Client.Receiving.{
  Receiver, Answers, state, disconnected, receive_loop, connect_any, run,
}
use webrtc_cpp_remote_contro.Client.Chunks.{
  cut, cut-append, Goes, heard, messages, messages-append, messages-receive_loop, nonempty,
}

-- The bytes of lines that are queued one after the other.
unfoldable pub join : List Bytes → Bytes
join [] = []
join (line ∷ lines) = line ++ b'\n' ∷ join lines

abbrev pub HasNoNewline : Bytes → Type 0
HasNoNewline line = All (λ c. (c == b'\n') ≡ false) line

cut-no_newline : (before line : Bytes) → HasNoNewline line → cut before line ≡ ([], before ++ line)
unfolding cut
cut-no_newline before [] h = rw append-nil
cut-no_newline before (c ∷ line) h =
    rw (h.0, cut) (cut-no_newline (before ++ c ∷ []) line h.1 ∙ rw append_assoc)

cut-join : (lines : List Bytes) → All HasNoNewline lines → cut [] (join lines) ≡ (lines, [])
unfolding cut join
cut-join [] h = refl
cut-join (line ∷ lines) h =
    cut-append [] line (b'\n' ∷ join lines)
    ∙ ap
        (λ (x : List Bytes × Bytes).
          (x.0 ++ (cut x.1 (b'\n' ∷ join lines)).0, (cut x.1 (b'\n' ∷ join lines)).1))
        (cut-no_newline [] line h.0)
    ∙ ap (λ (x : List Bytes × Bytes). (line ∷ x.0, x.1)) (cut-join lines h.1)

messages-ending : (b : Bool) → messages (if b then [] else state disconnected ∷ []) ≡ []
unfolding messages
messages-ending true = refl
messages-ending false = refl

-- When the server is reached and what arrives over the connection are lines without a newline inside,
-- each with a newline behind it, the message callback gets exactly these lines, the empty ones left
-- out, each once and in order; whatever the chunks and the heartbeats in between, for a callback
-- that is set, a connection that goes on and heartbeats that can be sent.
pub messages-run :
    (lines : List Bytes) (user_id : Bytes) (a : Answers)
    → a.resolved ≡ true
    → connect_any a.addresses ≡ true
    → All Goes a.rounds
    → All HasNoNewline lines
    → heard a.rounds ≡ join lines
    → messages (run true user_id a) ≡ nonempty lines
unfolding run messages
messages-run lines user_id a p q g n e =
    let start : Receiver = record { pending = []; last_heartbeat = a.start_time } in
    let got : messages (receive_loop true start a.rounds) ≡ nonempty lines =
      messages-receive_loop a.rounds start (unfold cut in refl) g
      ∙ ap (λ t. nonempty (cut [] t).0) e
      ∙ ap (λ x. nonempty x.0) (cut-join lines n) in
    rw (p, q)
      (messages-append (receive_loop true start a.rounds) _
        ∙ (λ i. got i ++ messages-ending a.stop_requested i)
        ∙ append-nil _)
