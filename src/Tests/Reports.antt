-- ===== src/Tests/Reports.antt =====
-- The statistics of RemoteControl_rtc/RemoteControl_rtc/PeerSession.cpp on small inputs.
use webrtc_cpp_remote_contro.Base.{
  ℕ, ◌≤◌, List, [], ◌∷◌, Option, some, none, true, refl, ltb, codes, All,
}
use webrtc_cpp_remote_contro.Peer.Reports.{
  Doubles, Report, string, bool, rank, select_pair, select_pair_best,
}

abbrev whole_numbers : Doubles
whole_numbers = record { Num = ℕ; nil = 0; positive = λ x. ltb 0 x; to_unsigned = λ x. x }

abbrev succeeded_pair : Report ℕ
succeeded_pair = record {
  type = codes "candidate-pair";
  id = codes "P1";
  members =
      some (record { name = codes "state"; defined = true; value = string (codes "succeeded") })
      ∷ [];
}

abbrev chosen_pair : Report ℕ
chosen_pair = record {
  type = codes "candidate-pair";
  id = codes "P2";
  members = some (record { name = codes "selected"; defined = true; value = bool true }) ∷ [];
}

abbrev reports : List (Option (Report ℕ))
reports = some succeeded_pair ∷ none ∷ some chosen_pair ∷ []

select_pair_best_example :
    All
      (λ o.
        rank whole_numbers [] o
        ≤ rank whole_numbers [] (select_pair whole_numbers [] reports 0 none))
      reports
select_pair_best_example = select_pair_best whole_numbers [] reports 0 none refl
