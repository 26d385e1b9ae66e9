-- ===== src/Tests/Peer.antt =====
-- RemoteControl_rtc/RemoteControl_rtc/PeerSession.cpp on small inputs.
use webrtc_cpp_remote_contro.Base.{
  ◌+◌, ℕ, ◌≡◌, if◌then◌else◌, ◌++◌, List, [], ◌∷◌, true, false, some, none, refl, codes, bytes_eq,
  nat_eq, bytes_key,
}
use webrtc_cpp_remote_contro.Base.Int.{pos}
use webrtc_cpp_remote_contro.Peer.Session.{Session, Candidate, create_offer, apply_remote_offer}
use webrtc_cpp_remote_contro.Peer.Life.{new_session}
use webrtc_cpp_remote_contro.Peer.Negotiation.{
  Signal, candidate_received, candidate_gathered, created, local_set, remote_answer_applied,
  negotiate, frame_reported, control_reported,
}
use webrtc_cpp_remote_contro.Peer.Candidates.{sent, given, picked}
use webrtc_cpp_remote_contro.Peer.Passes.{gathered, received, IsNegotiating}
use webrtc_cpp_remote_contro.Peer.Order.{candidates_in_order}
use webrtc_cpp_remote_contro.Peer.Beginning.{Accounts, negotiation-Accounts}
use webrtc_cpp_remote_contro.Peer.Ice.{Environment}
use webrtc_cpp_remote_contro.Peer.Engine.{
  Operation, initializes, shuts_down, operate_all, new_engine, opens, terminations,
  library_balanced,
}

abbrev calling : Session
calling = record (new_session true) {
  connection = true;
  ice_candidate_callback = true;
  pending_sdp_callback = true;
}

abbrev candidate_at : ℕ → Candidate
candidate_at n = record { mid = codes "0"; mline_index = pos 0; candidate = n ∷ [] }

-- Candidates before and after both descriptions.
abbrev signals : List Signal
signals =
    candidate_gathered (candidate_at 1)
    ∷ candidate_received (candidate_at 2)
    ∷ created (codes "v=0") (codes "offer")
    ∷ local_set
    ∷ candidate_gathered (candidate_at 3)
    ∷ remote_answer_applied
    ∷ candidate_received (candidate_at 4)
    ∷ frame_reported true (pos 640) (pos 480)
    ∷ control_reported (codes "ready")
    ∷ []

calling-IsNegotiating : IsNegotiating calling
calling-IsNegotiating = record {
  is_open = refl;
  connected = refl;
  listening = refl;
  none_local = λ h. refl;
  none_remote = λ h. refl;
}

candidates_in_order_example :
    (picked sent (negotiate calling signals).1
        ++ (negotiate calling signals).0.pending_local_candidates
      ≡ gathered signals)
    × (picked given (negotiate calling signals).1
          ++ (negotiate calling signals).0.pending_remote_candidates
        ≡ received signals)
candidates_in_order_example = candidates_in_order calling signals calling-IsNegotiating

-- A candidate of the other side came before its offer.
abbrev called : Session
called = record calling { pending_remote_candidates = candidate_at 9 ∷ [] }

negotiation-Accounts_example :
    Accounts [] (create_offer called true).0 signals
    × Accounts (candidate_at 9 ∷ []) (apply_remote_offer called (codes "v=0") true).0 signals
negotiation-Accounts_example = negotiation-Accounts called (codes "v=0") true signals refl refl refl

abbrev relayed : Environment
relayed = record {
  variable = λ name.
      if bytes_eq name (codes "REMOTE_CONTROL_TURN_USERNAME")
      then some (codes "ann")
      else if bytes_eq name (codes "REMOTE_CONTROL_TURN_PASSWORD")
      then some (codes "secret")
      else none;
  registry = λ name. none;
}

abbrev restarts : List Operation
restarts =
    initializes true true false
    ∷ initializes true true true
    ∷ initializes true true true
    ∷ shuts_down
    ∷ shuts_down
    ∷ initializes true true true
    ∷ []

library_balanced_example :
    let r = operate_all new_engine restarts in
    (r.0.factory ≡ r.0.initialized)
    × (opens r.1 ≡ terminations r.1 + (if r.0.initialized then 1 else 0))
library_balanced_example = library_balanced restarts
