-- ===== src/Peer/Passes.antt =====
-- One step of a negotiation of RemoteControl_rtc/RemoteControl_rtc/PeerSession.cpp, and the candidates.
use webrtc_cpp_remote_contro.Base.{
  ◌≡◌, refl, sym, ap, ◌∙◌, Bool, true, false, not, ◌||◌, List, [], ◌∷◌, ◌++◌, append-nil, arith,
  if◌then◌else◌, is_empty,
}
use webrtc_cpp_remote_contro.Peer.Session.{
  Candidate, Session, Effect, candidate_ready, Outcome, hand_over, announce_local_description,
  mark_remote_description_set, remote_offer_set, add_remote_candidate, on_ice_candidate,
}
use webrtc_cpp_remote_contro.Peer.Negotiation.{Signal, candidate_received, candidate_gathered}
use webrtc_cpp_remote_contro.Peer.Candidates.{
  sent, given, picked, picked-++, picked-sent, picked-given, given-sent, sent-given, Quiet,
}

-- The candidates that libwebrtc gathered, and those that came from the other side with a text.
unfoldable pub gathered : List Signal → List Candidate
gathered [] = []
gathered (candidate_gathered c ∷ es) = c ∷ gathered es
gathered (_ ∷ es) = gathered es

unfoldable pub received : List Signal → List Candidate
received [] = []
received (candidate_received c ∷ es) =
    let rest = received es in if is_empty c.candidate then rest else c ∷ rest
received (_ ∷ es) = received es

-- A session that negotiates: it is open, has its callback for candidates, and holds none back once
-- the description that they belong to is through.
pub record IsNegotiating (s : Session) : Type 0 where
  pub is_open : s.is_closed ≡ false
  pub connected : s.connection ≡ true
  pub listening : s.ice_candidate_callback ≡ true
  pub none_local : s.local_description_announced ≡ true → s.pending_local_candidates ≡ []
  pub none_remote : s.remote_description_set ≡ true → s.pending_remote_candidates ≡ []

-- A step hands over, of the candidates that it had and got, all but those that it still has.
pub record Passes (s : Session) (local remote : List Candidate) (r : Outcome) : Type 0 where
  pub negotiates : IsNegotiating r.0
  pub local_passed :
      picked sent r.1 ++ r.0.pending_local_candidates ≡ s.pending_local_candidates ++ local
  pub remote_passed :
      picked given r.1 ++ r.0.pending_remote_candidates ≡ s.pending_remote_candidates ++ remote

pub Quiet-Passes : (s : Session) (r : Outcome) → IsNegotiating s → Quiet s r → Passes s [] [] r
Quiet-Passes s r n q = record {
  negotiates = record {
    is_open = q.same_closed ∙ n.is_open;
    connected = q.same_connection ∙ n.connected;
    listening = q.same_callback ∙ n.listening;
    none_local = λ h. q.same_local ∙ n.none_local (sym q.same_announced ∙ h);
    none_remote = λ h. q.same_remote ∙ n.none_remote (sym q.same_described ∙ h);
  };
  local_passed =
      ap (λ t. t ++ r.0.pending_local_candidates) q.none_sent ∙ q.same_local ∙ sym (append-nil _);
  remote_passed =
      ap (λ t. t ++ r.0.pending_remote_candidates) q.none_given
      ∙ q.same_remote
      ∙ sym (append-nil _);
}

-- An effect that hands nothing over may be left out.
optional :
    (f : Effect → List Candidate) (b : Bool) (e : Effect)
    → f e ≡ []
    → picked f (if b then e ∷ [] else []) ≡ []
unfolding picked
optional f true e h = ap (λ t. t ++ []) h
optional f false e h = refl

either :
    (f : Effect → List Candidate) (b : Bool) (e g : Effect)
    → f e ≡ []
    → f g ≡ []
    → picked f (if b then e ∷ [] else g ∷ []) ≡ []
unfolding picked
either f true e g h k = ap (λ t. t ++ []) h
either f false e g h k = ap (λ t. t ++ []) k

pub if-false :
    (P : Outcome → Type 0) (b : Bool) (r t : Outcome) → b ≡ false → P t → P (if b then r else t)
if-false P true r t h p = cc
if-false P false r t h p = p

pub if_cases :
    (P : Outcome → Type 0) (b : Bool) (r t : Outcome)
    → (b ≡ true → P r)
    → (b ≡ false → P t)
    → P (if b then r else t)
if_cases P true r t p q = p refl
if_cases P false r t p q = q refl

-- With its condition true, a list of effects is there.
present :
    (f : Effect → List Candidate) (b : Bool) (es : List Effect)
    → b ≡ true
    → picked f (if b then es else []) ≡ picked f es
present f b es h = ap (λ c. picked f (if c then es else [])) h

pub announce-Passes :
    (s : Session) → IsNegotiating s → Passes s [] [] (announce_local_description s)
unfolding announce_local_description
announce-Passes s n = if-false (Passes s [] []) s.is_closed _ _ n.is_open (record {
  negotiates = record {
    is_open = n.is_open;
    connected = n.connected;
    listening = n.listening;
    none_local = λ h. refl;
    none_remote = n.none_remote;
  };
  local_passed =
      ap (λ t. t ++ [])
        (picked-++ sent _ _
          ∙ ap
              (λ t.
                t
                ++ picked sent (
                    if s.ice_candidate_callback
                    then hand_over candidate_ready s.pending_local_candidates
                    else []))
              (optional sent s.pending_sdp_callback _ refl)
          ∙ present sent s.ice_candidate_callback _ n.listening
          ∙ picked-sent s.pending_local_candidates);
  remote_passed =
      ap (λ t. t ++ s.pending_remote_candidates)
        (picked-++ given _ _
          ∙ ap
              (λ t.
                t
                ++ picked given (
                    if s.ice_candidate_callback
                    then hand_over candidate_ready s.pending_local_candidates
                    else []))
              (optional given s.pending_sdp_callback _ refl)
          ∙ present given s.ice_candidate_callback _ n.listening
          ∙ given-sent s.pending_local_candidates)
      ∙ sym (append-nil _);
})

pub mark-Passes : (s : Session) → IsNegotiating s → Passes s [] [] (mark_remote_description_set s)
unfolding mark_remote_description_set
mark-Passes s n = if-false (Passes s [] []) s.is_closed _ _ n.is_open (record {
  negotiates = record {
    is_open = n.is_open;
    connected = n.connected;
    listening = n.listening;
    none_local = n.none_local;
    none_remote = λ h. refl;
  };
  local_passed =
      ap (λ t. t ++ s.pending_local_candidates)
        (present sent s.connection _ n.connected ∙ sent-given s.pending_remote_candidates)
      ∙ sym (append-nil _);
  remote_passed =
      ap (λ t. t ++ [])
        (present given s.connection _ n.connected ∙ picked-given s.pending_remote_candidates);
})

pub more-Passes :
    (s : Session) (r : Outcome) (es : List Effect)
    → picked sent es ≡ []
    → picked given es ≡ []
    → Passes s [] [] r
    → Passes s [] [] (r.0, r.1 ++ es)
more-Passes s r es h k p = record {
  negotiates = p.negotiates;
  local_passed =
      ap (λ t. t ++ r.0.pending_local_candidates)
        (picked-++ sent r.1 es ∙ ap (◌++◌ (picked sent r.1)) h ∙ append-nil _)
      ∙ p.local_passed;
  remote_passed =
      ap (λ t. t ++ r.0.pending_remote_candidates)
        (picked-++ given r.1 es ∙ ap (◌++◌ (picked given r.1)) k ∙ append-nil _)
      ∙ p.remote_passed;
}

pub offer-Passes : (s : Session) → IsNegotiating s → Passes s [] [] (remote_offer_set s)
unfolding remote_offer_set
offer-Passes s n =
    more-Passes s (mark_remote_description_set s) _ (either sent s.connection _ _ refl refl)
      (either given s.connection _ _ refl refl) (mark-Passes s n)

pub gather-Passes :
    (s : Session) (c : Candidate) → IsNegotiating s → Passes s (c ∷ []) [] (on_ice_candidate s c)
unfolding on_ice_candidate picked
gather-Passes s c n = if-false (Passes s (c ∷ []) []) s.is_closed _ _ n.is_open (
    if_cases (Passes s (c ∷ []) []) (not s.local_description_announced) _ _
      (λ early. record {
        negotiates = record {
          is_open = n.is_open;
          connected = n.connected;
          listening = n.listening;
          none_local = λ h. cc;
          none_remote = n.none_remote;
        };
        local_passed = refl;
        remote_passed = sym (append-nil _);
      })
      (λ late.
        let empty : s.pending_local_candidates ≡ [] = n.none_local (ground (arith)) in
        record {
          negotiates = n;
          local_passed =
              ap (◌++◌ _) empty
              ∙ append-nil _
              ∙ present sent s.ice_candidate_callback _ n.listening
              ∙ ap (λ t. t ++ c ∷ []) (sym empty);
          remote_passed =
              ap (λ t. t ++ s.pending_remote_candidates)
                (optional given s.ice_candidate_callback _ refl)
              ∙ sym (append-nil _);
        }))

pub receive-Passes :
    (s : Session) (c : Candidate)
    → IsNegotiating s
    → Passes s [] (received (candidate_received c ∷ [])) (add_remote_candidate s c)
unfolding add_remote_candidate received picked
receive-Passes s c n =
    let taken = received (candidate_received c ∷ []) in
    if_cases (Passes s [] taken) (not s.connection || is_empty c.candidate) _ _
      (λ skipped.
        let empty : is_empty c.candidate ≡ true = ground (arith, n.connected) in
        record {
          negotiates = n;
          local_passed = sym (append-nil _);
          remote_passed =
              sym (append-nil _)
              ∙ ap (λ b. s.pending_remote_candidates ++ (if b then [] else c ∷ [])) (sym empty);
        })
      (λ read.
        let text : is_empty c.candidate ≡ false = ground (arith, n.connected) in
        let kept : (if is_empty c.candidate then [] else c ∷ []) ≡ c ∷ [] =
          ap (λ b. if b then [] else c ∷ []) text in
        if-false (Passes s [] taken) s.is_closed _ _ n.is_open (
          if_cases (Passes s [] taken) (not s.remote_description_set) _ _
            (λ early. record {
              negotiates = record {
                is_open = n.is_open;
                connected = n.connected;
                listening = n.listening;
                none_local = n.none_local;
                none_remote = λ h. cc;
              };
              local_passed = sym (append-nil _);
              remote_passed = ap (◌++◌ s.pending_remote_candidates) (sym kept);
            })
            (λ late.
              let empty : s.pending_remote_candidates ≡ [] = n.none_remote (ground (arith)) in
              record {
                negotiates = n;
                local_passed = sym (append-nil _);
                remote_passed =
                    ap (◌++◌ (c ∷ [])) empty
                    ∙ sym kept
                    ∙ ap (λ t. t ++ (if is_empty c.candidate then [] else c ∷ [])) (sym empty);
              })))
