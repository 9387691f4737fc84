-- ===== src/Session/Waiters/Reader/Offers.antt =====
-- Every offer on the control stream is answered.
use mathlib.Core.List.{map-append}
use outrelay_agent.Base.{
  ℕ, ◌≡◌, refl, sym, ap, ◌∙◌, Bool, true, false, Option, none, some, Option-cases, inl, inr, List,
  [], ◌∷◌, ◌++◌, map, All, Text, nat_eq,
}
use outrelay_agent.Base.Map.{lookup}
use outrelay_agent.Netip.{Addr}
use outrelay_agent.Orp.{
  Frame, PbCandidate, CandidateList, Positions, hello_frame, hello_ack_frame, register_frame,
  register_ack_frame, open_stream_frame, incoming_stream_frame, stream_accept_frame,
  stream_reject_frame, stream_ready_frame, alloc_granted_frame, checkpoint_frame, resume_frame,
  offer_frame, answer_frame, migrate_frame, addr_query_frame, addr_resp_frame, malformed,
  unknown_frame,
}
use outrelay_agent.Session.Waiters.{
  P2pState, Notice, entries, answer_offer, deliver_answer, deliver_mode, put_answer, put_notice,
}
use outrelay_agent.Session.Waiters.Reader.{
  Output, wrote, punched, punch_target, punch_each, warmup_punch, Control, dispatch,
  apply_checkpoint, control_reader, then_out,
}

unfoldable pub offer_of : Frame → List CandidateList
offer_of (offer_frame o) = o ∷ []
offer_of _ = []

unfoldable pub offers : List (Frame × Bool) → List CandidateList
offers [] = []
offers ((f, ctx_done) ∷ frames) = offer_of f ++ offers frames

-- The frames among the outputs.
pub written : List Output → List Frame
written [] = []
written (wrote f ∷ out) = f ∷ written out
written (punched ip port ∷ out) = written out

-- An answer to an offer with given candidates.
pub reply : List PbCandidate → CandidateList → Frame
reply local o = answer_frame (record { stream_id = o.stream_id; candidates = local })

written-append : (xs ys : List Output) → written (xs ++ ys) ≡ written xs ++ written ys
unfolding written
written-append [] ys = refl
written-append (wrote f ∷ xs) ys = ap (λ l. f ∷ l) (written-append xs ys)
written-append (punched ip port ∷ xs) ys = written-append xs ys

put_answer_local :
    (s : P2pState) (ch : ℕ) (a : CandidateList)
    → (put_answer s ch a).local_candidates ≡ s.local_candidates
unfolding put_answer
put_answer_local s ch a = elim (Option-cases (lookup ch s.answers)) [
  | inl free ↦ rw (free, put_answer) refl
  | inr (old, full) ↦ rw (full, put_answer) refl
]

deliver_answer_local :
    (s : P2pState) (a : CandidateList) → (deliver_answer s a).local_candidates ≡ s.local_candidates
unfolding deliver_answer
deliver_answer_local s a = elim (Option-cases (lookup a.stream_id (entries s.pending_answers))) [
  | inl nobody ↦ rw (nobody, deliver_answer) refl
  | inr (ch, waits) ↦ rw (waits, deliver_answer) (put_answer_local _ ch a)
]

deliver_mode_local :
    (s : P2pState) (id : ℕ) (n : Notice)
    → (deliver_mode s id n).local_candidates ≡ s.local_candidates
unfolding deliver_mode put_notice
deliver_mode_local s id n = elim (Option-cases (lookup id (entries s.pending_mode))) [
  | inl nobody ↦ rw (nobody, deliver_mode) refl
  | inr (ch, waits) ↦ elim (Option-cases (lookup ch s.notices)) [
    | inl free ↦ rw (waits, deliver_mode, free, put_notice) refl
    | inr (old, full) ↦ rw (waits, deliver_mode, full, put_notice) refl
  ]
]

written-punch_each :
    (parse_ip : Text → Option Addr) (cs : List (Option PbCandidate))
    → written (punch_each parse_ip cs) ≡ []
unfolding punch_each written
written-punch_each parse_ip [] = refl
written-punch_each parse_ip (c ∷ cs) = elim (Option-cases (punch_target parse_ip c)) [
  | inl skip ↦ rw (skip, punch_each) (written-punch_each parse_ip cs)
  | inr ((ip, port), e) ↦ rw (e, punch_each) (written-punch_each parse_ip cs)
]

written-warmup_punch :
    (parse_ip : Text → Option Addr) (shared : Bool) (cs : List (Option PbCandidate))
    → written (warmup_punch parse_ip shared cs) ≡ []
unfolding warmup_punch written
written-warmup_punch parse_ip true cs = written-punch_each parse_ip cs
written-warmup_punch parse_ip false cs = refl

module _ (parse_ip : Text → Option Addr) {S : Type 0} (on_checkpoint : S → ℕ → S) where
  checkpoint_local :
      (c : Control S) (cp : Positions)
      → (apply_checkpoint parse_ip on_checkpoint c cp).p2p.local_candidates ≡ c.p2p.local_candidates
  unfolding apply_checkpoint
  checkpoint_local c cp = elim (Option-cases (lookup cp.stream_id c.streams)) [
    | inl unknown ↦ rw (unknown, apply_checkpoint) refl
    | inr (st, known) ↦ rw (known, apply_checkpoint) refl
  ]

  -- A frame leads to the answer to its offer, if it is one, and does not change the candidates.
  dispatch_replies :
      (c : Control S) (f : Frame)
      → (written (dispatch parse_ip on_checkpoint c f).1
          ≡ map (reply c.p2p.local_candidates) (offer_of f))
        × ((dispatch parse_ip on_checkpoint c f).0.p2p.local_candidates ≡ c.p2p.local_candidates)
  unfolding dispatch written offer_of reply answer_offer
  dispatch_replies c (offer_frame o) = (
    ap (λ l. reply c.p2p.local_candidates o ∷ l)
        (written-warmup_punch parse_ip c.shared (map some o.candidates)),
    refl,
  )
  dispatch_replies c (answer_frame a) = (refl, deliver_answer_local c.p2p a)
  dispatch_replies c (checkpoint_frame cp) = (refl, checkpoint_local c cp)
  dispatch_replies c (alloc_granted_frame g) = (refl, deliver_mode_local c.p2p g.stream_id (some g))
  dispatch_replies c (stream_ready_frame id) = (refl, deliver_mode_local c.p2p id none)
  dispatch_replies c (hello_frame a b) = (refl, refl)
  dispatch_replies c hello_ack_frame = (refl, refl)
  dispatch_replies c (register_frame a b) = (refl, refl)
  dispatch_replies c (register_ack_frame) = (refl, refl)
  dispatch_replies c (open_stream_frame o) = (refl, refl)
  dispatch_replies c (incoming_stream_frame i) = (refl, refl)
  dispatch_replies c stream_accept_frame = (refl, refl)
  dispatch_replies c (stream_reject_frame n t) = (refl, refl)
  dispatch_replies c (resume_frame p) = (refl, refl)
  dispatch_replies c (migrate_frame m) = (refl, refl)
  dispatch_replies c (addr_query_frame n) = (refl, refl)
  dispatch_replies c (addr_resp_frame r) = (refl, refl)
  dispatch_replies c (malformed t) = (refl, refl)
  dispatch_replies c (unknown_frame n) = (refl, refl)

  -- While its context is alive, the reader of the control stream writes one answer to each offer,
  -- in the order of the offers, with the offer's stream and the local candidates, and no other
  -- frame, whatever else arrives.
  pub control_reader_replies :
      (c : Control S) (frames : List (Frame × Bool))
      → All (λ f. f.1 ≡ false) frames
      → written (control_reader parse_ip on_checkpoint c frames).1
        ≡ map (reply c.p2p.local_candidates) (offers frames)
  unfolding control_reader written offers then_out
  control_reader_replies c [] alive = refl
  control_reader_replies c ((f, true) ∷ frames) alive = absurd (cc alive.0)
  control_reader_replies c ((f, false) ∷ frames) alive =
      let r = dispatch parse_ip on_checkpoint c f in
      let (out, same) = dispatch_replies c f in
      let rest = control_reader_replies r.0 frames alive.1 in
      written-append r.1 (control_reader parse_ip on_checkpoint r.0 frames).1
      ∙ ap (λ l. l ++ written (control_reader parse_ip on_checkpoint r.0 frames).1) out
      ∙ ap (λ l. map (reply c.p2p.local_candidates) (offer_of f) ++ l)
          (rest ∙ ap (λ cs. map (reply cs) (offers frames)) same)
      ∙ sym (map-append (reply c.p2p.local_candidates) (offer_of f) (offers frames))
