-- ===== src/Client/Receiving.antt =====
-- The thread of RemoteControl_rtc/RemoteControl_rtc/SignalingClient.cpp: Run with its receive loop and
-- the heartbeat. What the system calls answer is an argument.
use webrtc_cpp_remote_contro.Base.{
  ℕ, zero, suc, ◌+◌, ◌-◌, ◌%◌, ◌^◌, Bool, true, false, not, ◌&&◌, List, [], ◌∷◌, ◌++◌, Option, none,
  some, Bytes, codes, ltb, if◌then◌else◌, length, is_empty,
}
use webrtc_cpp_remote_contro.Server.Connection.{split_line}
use webrtc_cpp_remote_contro.Client.Transport.{login_line, send_line}

-- `SignalingConnectionState`
pub data ConnectionState : Type 0 where
  disconnected : ConnectionState
  connecting : ConnectionState
  connected : ConnectionState
  failed : ConnectionState

-- What a run does to the outside: calls of the two callbacks and bytes that are sent.
pub data Event : Type 0 where
  state : ConnectionState → Event
  message : Bytes → Event
  sent : Bytes → Event

-- The inner loop with fuel: the lines that are taken off, and what stays in `pending`.
unfoldable pub take_lines : ℕ → Bytes → List Bytes × Bytes
take_lines zero pending = ([], pending)
take_lines (suc fuel) pending = elim (split_line pending) [
  | none ↦ ([], pending)
  | some (line, rest) ↦ let later = take_lines fuel rest in (line ∷ later.0, later.1)
]

-- `if (callback && !message.empty()) callback(message);`
unfoldable pub deliver : Bool → List Bytes → List Event
deliver callback [] = []
deliver callback (line ∷ lines) =
    let rest = deliver callback lines in
    if callback && not (is_empty line) then message line ∷ rest else rest

-- What `recv` returns: bytes; a timeout, with the two answers of `GetTickCount64` and the counts of
-- the `send` of the heartbeat; or the end of the connection.
pub data Received : Type 0 where
  chunk : Bytes → Received
  timed_out : ℕ → List ℕ → ℕ → Received
  ended : Received

-- `stopped` is the test of the outer loop, `stop_requested_ || !connected_`.
pub record Round : Type 0 where
  pub stopped : Bool
  pub received : Received

pub record Receiver : Type 0 where
  pub pending : Bytes
  pub last_heartbeat : ℕ

abbrev pub ping_line : Bytes
ping_line = codes "{\"type\":\"ping\"}"

abbrev pub heartbeat_ms : ℕ
heartbeat_ms = 15000

-- A round of the outer loop; `none` is its `break`. Every line takes a byte at least, so the length
-- of the text and one are fuel enough.
unfoldable pub receive : Bool → Receiver → Received → List Event × Option Receiver
unfolding take_lines deliver
receive callback r (chunk bytes) =
    let pending = r.pending ++ bytes in
    let taken = take_lines (suc (length pending)) pending in
    (deliver callback taken.0, some (record r { pending = taken.1 }))
receive callback r (timed_out now counts later) =
    let answer = send_line true ping_line counts in
    if ltb ((now + 2 ^ 64 - r.last_heartbeat) % 2 ^ 64) heartbeat_ms
    then ([], some r)
    else (sent answer.0 ∷ [], if answer.1 then some (record r { last_heartbeat = later }) else none)
receive callback r ended = ([], none)

-- The outer loop, over the rounds.
unfoldable pub receive_loop : Bool → Receiver → List Round → List Event
unfolding receive
receive_loop callback r [] = []
receive_loop callback r (round ∷ rounds) =
    let turn = receive callback r round.received in
    let later : List Event = elim turn.1 [
      | none ↦ []
      | some r' ↦ receive_loop callback r' rounds
    ] in
    if round.stopped then [] else turn.0 ++ later

-- The addresses in turn, each with the stop flag at its test and whether `socket` and `connect`
-- succeed.
unfoldable pub connect_any : List (Bool × Bool) → Bool
connect_any [] = false
connect_any ((stopped, succeeds) ∷ addresses) =
    let rest = connect_any addresses in if stopped then false else if succeeds then true else rest

-- What the system answers during a run, and the stop flag when the run fails to connect or is over.
pub record Answers : Type 0 where
  pub resolved : Bool
  pub addresses : List (Bool × Bool)
  pub login_counts : List ℕ
  pub start_time : ℕ
  pub rounds : List Round
  pub stop_requested : Bool

-- `Run`, with the user id in UTF-8.
unfoldable pub run : Bool → Bytes → Answers → List Event
unfolding receive_loop connect_any
run callback user_id a =
    let login = send_line true (login_line user_id) a.login_counts in
    let start : Receiver = record { pending = []; last_heartbeat = a.start_time } in
    let session : List Event =
      sent login.0
      ∷ state (if login.1 then connected else failed)
      ∷ (receive_loop callback start a.rounds
          ++ (if a.stop_requested then [] else state disconnected ∷ [])) in
    state connecting
    ∷ (if not a.resolved
        then state failed ∷ []
        else if connect_any a.addresses
        then session
        else (if a.stop_requested then [] else state failed ∷ []))
