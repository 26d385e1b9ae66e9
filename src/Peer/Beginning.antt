-- ===== src/Peer/Beginning.antt =====
-- The candidates of a negotiation of RemoteControl_rtc/RemoteControl_rtc/PeerSession.cpp from its beginning
-- on, with CreateOffer or ApplyRemoteOffer.
use webrtc_cpp_remote_contro.Base.{
  ◌≡◌, refl, ap, ◌∙◌, Bool, true, false, List, [], ◌∷◌, codes, ◌++◌, Bytes, if◌then◌else◌,
}
use webrtc_cpp_remote_contro.Peer.Session.{
  Session, SessionState, Effect, ask_offer, set_remote_description, connecting, Candidate, Outcome,
  update_state, create_offer, apply_remote_offer,
}
use webrtc_cpp_remote_contro.Peer.Negotiation.{Signal, negotiate}
use webrtc_cpp_remote_contro.Peer.Candidates.{sent, given, picked, update_state-Quiet}
use webrtc_cpp_remote_contro.Peer.Passes.{gathered, received, IsNegotiating}
use webrtc_cpp_remote_contro.Peer.Order.{candidates_in_order}

-- An open session that begins to negotiate, with what it holds back of the other side.
record Begins (early : List Candidate) (t : Session) : Type 0 where
  negotiates : IsNegotiating t
  none_local : t.pending_local_candidates ≡ []
  early_remote : t.pending_remote_candidates ≡ early

update_state-Begins :
    (s : Session) (state : SessionState)
    → s.is_closed ≡ false
    → s.connection ≡ true
    → s.ice_candidate_callback ≡ true
    → s.local_description_announced ≡ false
    → s.remote_description_set ≡ false
    → s.pending_local_candidates ≡ []
    → Begins s.pending_remote_candidates (update_state s state).0
update_state-Begins s state o c i l r p =
    let q = update_state-Quiet s state in
    record {
      negotiates = record {
        is_open = q.same_closed ∙ o;
        connected = q.same_connection ∙ c;
        listening = q.same_callback ∙ i;
        none_local = λ h. q.same_local ∙ p;
        none_remote = λ h. cc (q.same_described, r, h);
      };
      none_local = q.same_local ∙ p;
      early_remote = q.same_remote;
    }

if-Begins :
    (early : List Candidate) (b : Bool) (r : Outcome) (es : List Effect) (t : Outcome)
    → b ≡ true
    → Begins early r.0
    → Begins early (if b then (r.0, r.1 ++ es) else t).0
if-Begins early true r es t h k = k
if-Begins early false r es t h k = cc

create_offer-Begins :
    (s : Session) (callback : Bool)
    → s.is_closed ≡ false
    → s.connection ≡ true
    → s.ice_candidate_callback ≡ true
    → Begins [] (create_offer s callback).0
unfolding create_offer
create_offer-Begins s callback o c i =
    let started : Session = record s {
      pending_sdp_callback = callback;
      local_description_announced = false;
      remote_description_set = false;
      pending_local_candidates = [];
      pending_remote_candidates = [];
    } in
    if-Begins [] s.connection (update_state started connecting) (ask_offer ∷ []) (s, []) c
      (update_state-Begins started connecting o c i refl refl refl)

apply_remote_offer-Begins :
    (s : Session) (sdp : Bytes) (callback : Bool)
    → s.is_closed ≡ false
    → s.connection ≡ true
    → s.ice_candidate_callback ≡ true
    → Begins s.pending_remote_candidates (apply_remote_offer s sdp callback).0
unfolding apply_remote_offer
apply_remote_offer-Begins s sdp callback o c i =
    let started : Session = record s {
      pending_sdp_callback = callback;
      local_description_announced = false;
      remote_description_set = false;
      pending_local_candidates = [];
    } in
    if-Begins s.pending_remote_candidates s.connection (update_state started connecting)
      (set_remote_description sdp (codes "offer") ∷ []) (s, []) c
      (update_state-Begins started connecting o c i refl refl refl)

-- What was sent or is held back of the candidates gathered, and given or held back of those received.
abbrev pub Accounts : List Candidate → Session → List Signal → Type 0
Accounts early t es =
    let r = negotiate t es in
    (picked sent r.1 ++ r.0.pending_local_candidates ≡ gathered es)
    × (picked given r.1 ++ r.0.pending_remote_candidates ≡ early ++ received es)

Begins-Accounts :
    (early : List Candidate) (t : Session) (es : List Signal) → Begins early t → Accounts early t es
Begins-Accounts early t es b =
    let (local, remote) = candidates_in_order t es b.negotiates in
    (
      local ∙ ap (λ x. x ++ gathered es) b.none_local,
      remote ∙ ap (λ x. x ++ received es) b.early_remote,
    )

-- Whatever a session that is not closed, with its connection and its callback for candidates, went through
-- before: from CreateOffer on, and as long as no other negotiation begins, the candidates sent to the
-- other side and those held back are exactly those gathered since, in their order, and those given to
-- libwebrtc and held back are exactly those received since with a text; and so from ApplyRemoteOffer on,
-- but for the candidates of the other side that it held back already, which come first.
pub negotiation-Accounts :
    (s : Session) (sdp : Bytes) (callback : Bool) (es : List Signal)
    → s.is_closed ≡ false
    → s.connection ≡ true
    → s.ice_candidate_callback ≡ true
    → Accounts [] (create_offer s callback).0 es
      × Accounts s.pending_remote_candidates (apply_remote_offer s sdp callback).0 es
negotiation-Accounts s sdp callback es o c i = (
  Begins-Accounts [] _ es (create_offer-Begins s callback o c i),
  Begins-Accounts s.pending_remote_candidates _ es (apply_remote_offer-Begins s sdp callback o c i),
)
