-- ===== src/Client/Chunks.antt =====
-- The received messages do not depend on how TCP cuts the bytes into chunks, nor on the heartbeats
-- in between.
use mathlib.Core.Path.{◌≡⟨◌⟩◌, ◌∎}
use webrtc_cpp_remote_contro.Base.{
  ℕ, zero, suc, ◌<◌, ◌+◌, ◌-◌, ◌%◌, ◌^◌, ◌≡◌, refl, sym, ap, ◌∙◌, arith, All, true, false, List, [],
  ◌∷◌, ◌++◌, Option, none, some, append_assoc, append-nil, Bytes, ltb, ◌==◌, if◌then◌else◌, length,
  is_empty, Bool-cases, Option-cases, inl, inr,
}
use webrtc_cpp_remote_contro.Server.Connection.{split_line}
use webrtc_cpp_remote_contro.Client.Transport.{send_line}
use webrtc_cpp_remote_contro.Client.Receiving.{
  Event, message, state, sent, take_lines, deliver, Received, chunk, timed_out, ended, Round,
  Receiver, heartbeat_ms, ping_line, receive, receive_loop,
}

-- The complete lines of a text and its last, unfinished one, which begins with `line`.
unfoldable pub cut : Bytes → Bytes → List Bytes × Bytes
cut line [] = ([], line)
cut line (c ∷ text) = elim (c == b'\n') [
  | true ↦ (line ∷ (cut [] text).0, (cut [] text).1)
  | false ↦ cut (line ++ c ∷ []) text
]

pub cut-append :
    (line p q : Bytes)
    → cut line (p ++ q) ≡ ((cut line p).0 ++ (cut (cut line p).1 q).0, (cut (cut line p).1 q).1)
unfolding cut
cut-append line [] q = refl
cut-append line (c ∷ p) q = ground (arith, cut-append [] p q, cut-append (line ++ c ∷ []) p q)

cut-none : (line p : Bytes) → split_line p ≡ none → cut line p ≡ ([], line ++ p)
unfolding cut split_line
cut-none line [] h = rw append-nil
cut-none line (c ∷ p) h = ground (arith, cut-none (line ++ c ∷ []) p, append_assoc line (c ∷ []) p)

cut-some :
    (line p l rest : Bytes)
    → split_line p ≡ some (l, rest)
    → cut line p ≡ ((line ++ l) ∷ (cut [] rest).0, (cut [] rest).1)
unfolding cut split_line
cut-some line [] l rest h = cc
cut-some line (c ∷ p) l rest h = elim (Option-cases (split_line p)) [
  | inl n ↦ ground (arith, append-nil line)
  | inr ((l', rest'), e) ↦ ground (
    arith,
    cut-some (line ++ c ∷ []) p l' rest' e,
    append_assoc line (c ∷ []) l',
    append-nil line,
  )
]

split-shorter : (p l rest : Bytes) → split_line p ≡ some (l, rest) → length rest < length p
unfolding split_line
split-shorter [] l rest h = cc
split-shorter (c ∷ p) l rest h = elim (Option-cases (split_line p)) [
  | inl n ↦ ground arith
  | inr ((l', rest'), e) ↦ ground (arith, split-shorter p l' rest' e)
]

-- With enough fuel the inner loop takes every complete line.
take_lines-cut : (fuel : ℕ) (p : Bytes) → length p < fuel → take_lines fuel p ≡ cut [] p
unfolding take_lines
take_lines-cut zero p h = elim h [ ]
take_lines-cut (suc fuel) p h = elim (Option-cases (split_line p)) [
  | inl n ↦ ground (arith, cut-none [] p n)
  | inr ((l, rest), e) ↦
      ground (arith, cut-some [] p l rest e, split-shorter p l rest e, take_lines-cut fuel rest)
]

take_lines-all : (p : Bytes) → take_lines (suc (length p)) p ≡ cut [] p
take_lines-all p = take_lines-cut (suc (length p)) p (omega arith)

-- What is left of a text holds no further line.
cut-rest :
    (line p : Bytes) → cut [] line ≡ ([], line) → cut [] (cut line p).1 ≡ ([], (cut line p).1)
unfolding cut
cut-rest line [] h = h
cut-rest line (c ∷ p) h =
    ground (arith, cut-append [] line (c ∷ []), cut-rest [] p refl, cut-rest (line ++ c ∷ []) p)

-- The text and the pending line before it.
cut-pending : (r p : Bytes) → cut [] r ≡ ([], r) → cut [] (r ++ p) ≡ cut r p
cut-pending r p h = cut-append [] r p ∙ ap (λ x. (x.0 ++ (cut x.1 p).0, (cut x.1 p).1)) h

unfoldable pub nonempty : List Bytes → List Bytes
nonempty [] = []
nonempty (line ∷ lines) = let rest = nonempty lines in if is_empty line then rest else line ∷ rest

nonempty-append : (xs ys : List Bytes) → nonempty (xs ++ ys) ≡ nonempty xs ++ nonempty ys
unfolding nonempty
nonempty-append [] ys = refl
nonempty-append (line ∷ xs) ys = ground (arith, nonempty-append xs ys)

-- The messages that the callback gets.
unfoldable pub messages : List Event → List Bytes
messages [] = []
messages (message line ∷ events) = line ∷ messages events
messages (state s ∷ events) = messages events
messages (sent bytes ∷ events) = messages events

pub messages-append : (xs ys : List Event) → messages (xs ++ ys) ≡ messages xs ++ messages ys
unfolding messages
messages-append [] ys = refl
messages-append (message line ∷ xs) ys = ap (λ r. line ∷ r) (messages-append xs ys)
messages-append (state s ∷ xs) ys = messages-append xs ys
messages-append (sent bytes ∷ xs) ys = messages-append xs ys

messages-deliver : (lines : List Bytes) → messages (deliver true lines) ≡ nonempty lines
unfolding messages deliver nonempty
messages-deliver [] = refl
messages-deliver (line ∷ lines) = ground (arith, messages-deliver lines)

-- A round that does not end the loop.
abbrev pub Continues : Received → Type 0
Continues (chunk bytes) = Unit {0}
Continues (timed_out now counts later) = (send_line true ping_line counts).1 ≡ true
Continues ended = false ≡ true

abbrev pub Goes : Round → Type 0
Goes round = (round.stopped ≡ false) × Continues round.received

abbrev bytes_of : Received → Bytes
bytes_of (chunk bytes) = bytes
bytes_of (timed_out now counts later) = []
bytes_of ended = []

-- All the bytes that the rounds bring.
unfoldable pub heard : List Round → Bytes
heard [] = []
heard (round ∷ rounds) = bytes_of round.received ++ heard rounds

-- One round: its messages, and a receiver whose pending text still holds no line.
receive-cut :
    (r : Receiver) (x : Received)
    → cut [] r.pending ≡ ([], r.pending)
    → Continues x
    → (r' : Receiver) × ((receive true r x).1 ≡ some r')
      × (r'.pending ≡ (cut r.pending (bytes_of x)).1)
      × (messages (receive true r x).0 ≡ nonempty (cut r.pending (bytes_of x)).0)
unfolding receive cut
receive-cut r (chunk bytes) h c =
    let e = take_lines-all (r.pending ++ bytes) ∙ cut-pending r.pending bytes h in
    (_, refl, ap (λ y. y.1) e, messages-deliver _ ∙ ap (λ y. nonempty y.0) e)
receive-cut r (timed_out now counts later) h c =
    elim (Bool-cases (ltb ((now + 2 ^ 64 - r.last_heartbeat) % 2 ^ 64) heartbeat_ms)) [
      | inl e ↦ (r, ground arith, refl, unfold messages cut nonempty in ground arith)
      | inr e ↦ (
        record r { last_heartbeat = later },
        ground arith,
        refl,
        unfold messages cut nonempty in ground arith,
      )
    ]
receive-cut r ended h c = cc

receive_loop-goes :
    (round : Round) (rounds : List Round) (r r' : Receiver)
    → round.stopped ≡ false
    → (receive true r round.received).1 ≡ some r'
    → receive_loop true r (round ∷ rounds)
      ≡ (receive true r round.received).0 ++ receive_loop true r' rounds
unfolding receive_loop
receive_loop-goes round rounds r r' p q =
    rw p (ap (λ (o : Option Receiver). (receive true r round.received).0 ++ later o) q)
  where
    later : Option Receiver → List Event
    later o = elim o [ none ↦ [] | some r'' ↦ receive_loop true r'' rounds ]

-- However the bytes are cut into chunks and whatever heartbeats stand in between, the message callback
-- gets the non-empty lines of all that was received, each once and in order; for a callback that is
-- set, a connection that goes on, and heartbeats that can be sent.
pub messages-receive_loop :
    (rounds : List Round) (r : Receiver)
    → cut [] r.pending ≡ ([], r.pending)
    → All Goes rounds
    → messages (receive_loop true r rounds) ≡ nonempty (cut r.pending (heard rounds)).0
unfolding heard
messages-receive_loop [] r h g = unfold receive_loop messages cut nonempty in refl
messages-receive_loop (round ∷ rounds) r h g =
    let (r', e, p, m) = receive-cut r round.received h g.0.1 in
    let bytes : Bytes = bytes_of round.received in
    let h' : cut [] r'.pending ≡ ([], r'.pending) = rw p (cut-rest r.pending bytes h) in
    let rest = messages-receive_loop rounds r' h' g.1 in
    messages (receive_loop true r (round ∷ rounds))
    ≡⟨ ap messages (receive_loop-goes round rounds r r' g.0.0 e) ⟩
      messages ((receive true r round.received).0 ++ receive_loop true r' rounds)
    ≡⟨ messages-append _ _ ⟩
      messages (receive true r round.received).0 ++ messages (receive_loop true r' rounds)
    ≡⟨ (λ i. m i ++ rest i) ⟩
      nonempty (cut r.pending bytes).0 ++ nonempty (cut r'.pending (heard rounds)).0
    ≡⟨ (rw p) ⟩
      nonempty (cut r.pending bytes).0 ++ nonempty (cut (cut r.pending bytes).1 (heard rounds)).0
    ≡⟨ sym (nonempty-append _ _) ⟩
      nonempty ((cut r.pending bytes).0 ++ (cut (cut r.pending bytes).1 (heard rounds)).0)
    ≡⟨ ap (λ x. nonempty x.0) (sym (cut-append r.pending bytes (heard rounds))) ⟩
      nonempty (cut r.pending (heard (round ∷ rounds))).0 ∎
