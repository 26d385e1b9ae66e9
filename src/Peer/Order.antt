-- ===== src/Peer/Order.antt =====
-- The order of the candidates in RemoteControl_rtc/RemoteControl_rtc/PeerSession.cpp.
use webrtc_cpp_remote_contro.Base.{
  ◌≡◌, refl, sym, ap, ◌∙◌, inl, inr, List, [], ◌∷◌, ◌++◌, append-nil, append_assoc, is_empty,
  Bool-cases,
}
use webrtc_cpp_remote_contro.Peer.Session.{Candidate, Session}
use webrtc_cpp_remote_contro.Peer.Negotiation.{
  Signal, answer_received, candidate_received, candidate_gathered, created, local_set,
  remote_offer_applied, remote_answer_applied, refused, connection_changed, channel_received,
  track_received, frame_reported, control_reported, handle, negotiate,
}
use webrtc_cpp_remote_contro.Peer.Candidates.{
  sent, given, picked, picked-++, description_created-Quiet, apply_remote_answer-Quiet,
  on_data_channel-Quiet, on_track-Quiet, fail_negotiation-Quiet, on_peer_connection_state-Quiet,
  notify_media_event-Quiet, notify_control_event-Quiet,
}
use webrtc_cpp_remote_contro.Peer.Passes.{
  gathered, received, IsNegotiating, Passes, Quiet-Passes, announce-Passes, mark-Passes,
  offer-Passes, gather-Passes, receive-Passes,
}

handle-Passes :
    (s : Session) (e : Signal)
    → IsNegotiating s
    → Passes s (gathered (e ∷ [])) (received (e ∷ [])) (handle s e)
unfolding handle gathered received
handle-Passes s (answer_received sdp) n = Quiet-Passes s _ n (apply_remote_answer-Quiet s sdp)
handle-Passes s (candidate_received c) n = receive-Passes s c n
handle-Passes s (candidate_gathered c) n = gather-Passes s c n
handle-Passes s (created sdp type) n = Quiet-Passes s _ n (description_created-Quiet s sdp type)
handle-Passes s local_set n = announce-Passes s n
handle-Passes s remote_offer_applied n = offer-Passes s n
handle-Passes s remote_answer_applied n = mark-Passes s n
handle-Passes s refused n = Quiet-Passes s _ n (fail_negotiation-Quiet s)
handle-Passes s (connection_changed state) n =
    Quiet-Passes s _ n (on_peer_connection_state-Quiet s state)
handle-Passes s (channel_received channel) n = Quiet-Passes s _ n (on_data_channel-Quiet s channel)
handle-Passes s (track_received kind) n = Quiet-Passes s _ n (on_track-Quiet s kind)
handle-Passes s (frame_reported success width height) n =
    Quiet-Passes s _ n (notify_media_event-Quiet s _ width height)
handle-Passes s (control_reported detail) n =
    Quiet-Passes s _ n (notify_control_event-Quiet s detail)

gathered-cons :
    (e : Signal) (es : List Signal) → gathered (e ∷ es) ≡ gathered (e ∷ []) ++ gathered es
unfolding gathered
gathered-cons (candidate_gathered c) es = refl
gathered-cons (answer_received sdp) es = refl
gathered-cons (candidate_received c) es = refl
gathered-cons (created sdp type) es = refl
gathered-cons local_set es = refl
gathered-cons remote_offer_applied es = refl
gathered-cons remote_answer_applied es = refl
gathered-cons refused es = refl
gathered-cons (connection_changed state) es = refl
gathered-cons (channel_received channel) es = refl
gathered-cons (track_received kind) es = refl
gathered-cons (frame_reported success width height) es = refl
gathered-cons (control_reported detail) es = refl

received-cons :
    (e : Signal) (es : List Signal) → received (e ∷ es) ≡ received (e ∷ []) ++ received es
unfolding received
received-cons (candidate_received c) es = elim (Bool-cases (is_empty c.candidate)) [
  | inl h ↦ rw h refl
  | inr h ↦ rw h refl
]
received-cons (answer_received sdp) es = refl
received-cons (candidate_gathered c) es = refl
received-cons (created sdp type) es = refl
received-cons local_set es = refl
received-cons remote_offer_applied es = refl
received-cons remote_answer_applied es = refl
received-cons refused es = refl
received-cons (connection_changed state) es = refl
received-cons (channel_received channel) es = refl
received-cons (track_received kind) es = refl
received-cons (frame_reported success width height) es = refl
received-cons (control_reported detail) es = refl

-- What was handed over first, and what was handed over then.
chained :
    (a b p q l m n : List Candidate)
    → a ++ p ≡ l ++ m
    → b ++ q ≡ p ++ n
    → (a ++ b) ++ q ≡ l ++ (m ++ n)
chained a b p q l m n h k =
    append_assoc a b q
    ∙ ap (◌++◌ a) k
    ∙ sym (append_assoc a p n)
    ∙ ap (λ t. t ++ n) h
    ∙ append_assoc l m n

-- While a session is negotiating - it is not closed, it has its connection and its callback for
-- candidates, and it holds back no candidates of a side whose description is through - and as long as
-- neither CreateOffer nor ApplyRemoteOffer begins another negotiation, which drops candidates that are held back:
-- however the signals of libwebrtc and of the other side interleave, the candidates sent to the other
-- side and those still held back are, in their order, those held back before and those gathered since;
-- and those given to libwebrtc and still held back are, in their order, those held back before and those
-- received since with a text.
pub candidates_in_order :
    (s : Session) (es : List Signal)
    → IsNegotiating s
    → let r = negotiate s es in
      (picked sent r.1 ++ r.0.pending_local_candidates ≡ s.pending_local_candidates ++ gathered es)
      × (picked given r.1 ++ r.0.pending_remote_candidates
          ≡ s.pending_remote_candidates ++ received es)
unfolding negotiate gathered received picked
candidates_in_order s [] n = (sym (append-nil _), sym (append-nil _))
candidates_in_order s (e ∷ es) n =
    let first = handle-Passes s e n in
    let rest = negotiate (handle s e).0 es in
    let (local, remote) = candidates_in_order (handle s e).0 es first.negotiates in
    (
      ap (λ t. t ++ rest.0.pending_local_candidates) (picked-++ sent (handle s e).1 rest.1)
          ∙ chained (picked sent (handle s e).1) _ _ _ s.pending_local_candidates _ _
              first.local_passed local
          ∙ ap (◌++◌ s.pending_local_candidates) (sym (gathered-cons e es)),
      ap (λ t. t ++ rest.0.pending_remote_candidates) (picked-++ given (handle s e).1 rest.1)
          ∙ chained (picked given (handle s e).1) _ _ _ s.pending_remote_candidates _ _
              first.remote_passed remote
          ∙ ap (◌++◌ s.pending_remote_candidates) (sym (received-cons e es)),
    )
