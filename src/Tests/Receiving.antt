-- ===== src/Tests/Receiving.antt =====
-- The thread of the signaling client on a small connection.
use webrtc_cpp_remote_contro.Base.{◌≡◌, refl, true, false, List, [], ◌∷◌, Bytes, codes, All}
use webrtc_cpp_remote_contro.Client.Transport.{send_line}
use webrtc_cpp_remote_contro.Client.Receiving.{
  Round, Receiver, Answers, chunk, timed_out, receive_loop, connect_any, run, ping_line,
}
use webrtc_cpp_remote_contro.Client.Chunks.{
  Goes, cut, heard, messages, nonempty, messages-receive_loop,
}
use webrtc_cpp_remote_contro.Client.Arrival.{join, messages-run}

abbrev bring : Bytes → Round
bring bytes = record { stopped = false; received = chunk bytes }

abbrev pause : Round
pause = record { stopped = false; received = timed_out 20000 (16 ∷ []) 20001 }

abbrev morning : List Round
morning = bring (codes "on") ∷ pause ∷ bring (codes "e\n\ntw") ∷ bring (codes "o\n") ∷ []

abbrev fresh : Receiver
fresh = record { pending = []; last_heartbeat = 100 }

heartbeat_sent : (send_line true ping_line (16 ∷ [])).1 ≡ true
unfolding send_line
heartbeat_sent = refl

goes : All Goes morning
goes = ((refl, tt), ((refl, heartbeat_sent), ((refl, tt), ((refl, tt), tt))))

nothing : cut [] [] ≡ ([], [])
unfolding cut
nothing = refl

messages-receive_loop_example :
    messages (receive_loop true fresh morning) ≡ nonempty (cut [] (heard morning)).0
messages-receive_loop_example = messages-receive_loop morning fresh nothing goes

abbrev alice : Bytes
alice = codes "alice"

abbrev answers : Answers
answers = record {
  resolved = true;
  addresses = (false, false) ∷ (false, true) ∷ [];
  login_counts = 34 ∷ [];
  start_time = 100;
  rounds = morning;
  stop_requested = false;
}

reached : connect_any answers.addresses ≡ true
unfolding connect_any
reached = refl

abbrev lines : List Bytes
lines = codes "one" ∷ [] ∷ codes "two" ∷ []

arrived : heard morning ≡ join lines
unfolding heard join
arrived = refl

messages-run_example : messages (run true alice answers) ≡ nonempty lines
messages-run_example =
    messages-run lines alice answers refl reached goes
      ((refl, (refl, (refl, tt))), (tt, ((refl, (refl, (refl, tt))), tt))) arrived
