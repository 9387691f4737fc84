-- ===== src/Session/Resume/Direct/Placed.antt =====
-- Where the direct streams go.
use outrelay_agent.Base.{
  ℕ, ◌==◌, ==_iff, ◌≡◌, refl, ap, ◌∙◌, sym, Bool, true, false, Bool-cases, inl, inr, if◌then◌else◌,
  Option, none, some, Option-cases, ◌⊎◌, List, [], ◌∷◌, ◌++◌, arith,
}
use outrelay_agent.Orp.{Frame, Positions, resume_frame}
use outrelay_agent.Session.Wrapper.{Wrapper, swap_inner}
use outrelay_agent.Session.Resume.{
  ResumeError, StreamEvent, shut, Streams, handle_direct_stream, direct_stream, retransmit,
  write_gap, finish,
}
use outrelay_agent.Session.Resume.Direct.{DirectStream, Ring, renew, set_stream, place, dropped}

-- The ring holds what the peer has not acknowledged, and the stream takes it, if it is not empty.
pub sends_gap : Option (List ℕ) → Bool → Bool
sends_gap none writes = false
sends_gap (some []) writes = true
sends_gap (some (b ∷ bs)) writes = writes

abbrev pub Rings : Type 0
Rings = ℕ → Option Ring

pub ring_of : Option (Wrapper × Ring) → Option Ring
ring_of none = none
ring_of (some known) = some known.1

can_resume : Option Ring → ℕ → Bool → Bool
unfolding sends_gap
can_resume none ack writes = false
can_resume (some from) ack writes = sends_gap (from ack) writes

-- The arrival's first frame names a stream of the session, whose ring can send what is missing.
pub is_taken : Rings → DirectStream → Bool
unfolding can_resume
is_taken rings a = elim a.reply as (λ x. Bool) [
  | none ↦ false
  | some f ↦ elim f as (λ x. Bool) [
    | resume_frame peer ↦ can_resume (rings peer.stream_id) peer.peer_ack_position a.writes
    | _ ↦ false
  ]
]

pub names : ℕ → Option Frame → Bool
names id (some (resume_frame peer)) = id == peer.stream_id
names id reply = false

-- What retransmit does on the arrival's stream, as its ring and the stream decide.
data Resend (a : DirectStream) (taken : Bool) (out : Option ResumeError × List StreamEvent)
    : Type 0 where
  sent_gap :
      {events : List StreamEvent}
      → taken ≡ true
      → out ≡ (none, events)
      → dropped a events ≡ []
      → Resend a taken out
  no_way :
      {e : ResumeError} {events : List StreamEvent}
      → taken ≡ false
      → out ≡ (some e, events)
      → dropped a (events ++ shut ∷ []) ≡ a.stream ∷ []
      → Resend a taken out

chunk_cases :
    (a : DirectStream) (writes : Bool) (b : ℕ) (bs : List ℕ)
    → Resend a (sends_gap (some (b ∷ bs)) writes) (write_gap writes (b ∷ bs))
unfolding sends_gap write_gap dropped
chunk_cases a true b bs = sent_gap refl refl refl
chunk_cases a false b bs = no_way refl refl refl

retransmit_cases :
    (a : DirectStream) (from : Ring) (ack : ℕ) (writes : Bool)
    → Resend a (sends_gap (from ack) writes) (retransmit from writes ack)
unfolding retransmit sends_gap write_gap dropped
retransmit_cases a from ack writes = elim (Option-cases (from ack)) [
  | inl gone ↦ rw (gone, retransmit) (no_way refl refl refl)
  | inr ([], got) ↦ rw (got, retransmit) (sent_gap refl refl refl)
  | inr (b ∷ bs, got) ↦ rw (got, retransmit) (chunk_cases a writes b bs)
]

no_resume :
    (rings : Rings) (streams : Streams) (st : ℕ) (f : Frame) (writes : Bool)
    → ((peer : Positions) × (f ≡ resume_frame peer))
      ⊎ ((place streams (some f) (handle_direct_stream streams st (some f) writes).0 ≡ streams)
          × ((a : DirectStream)
              → dropped a (handle_direct_stream streams st (some f) writes).2 ≡ a.stream ∷ [])
          × (is_taken rings (record { stream = st; reply = some f; writes = writes }) ≡ false))
unfolding handle_direct_stream place is_taken dropped
no_resume rings streams st (resume_frame peer) writes = inl (peer, refl)
no_resume rings streams st _ writes = inr (refl, (λ a. refl), refl)

ring_of-renew :
    (r : Wrapper) (known : Option (Wrapper × Ring)) → ring_of (renew r known) ≡ ring_of known
unfolding ring_of renew
ring_of-renew r none = refl
ring_of-renew r (some known) = refl

ring_of-set_stream :
    (streams : Streams) (k : ℕ) (r : Wrapper) (j : ℕ)
    → ring_of (set_stream streams k r j) ≡ ring_of (streams j)
unfolding set_stream
ring_of-set_stream streams k r j = elim (Bool-cases (j == k)) [
  | inl same ↦ rw same (ring_of-renew r (streams j))
  | inr other ↦ rw other refl
]

set_stream_known :
    (streams : Streams) (k id : ℕ) (r s : Wrapper) (from : Ring)
    → streams id ≡ some (r, from)
    → set_stream streams k s id ≡ some (if id == k then s else r, from)
unfolding set_stream renew
set_stream_known streams k id r s from known = elim (Bool-cases (id == k)) [
  | inl same ↦ rw (same, known) refl
  | inr other ↦ rw (other, known) refl
]

-- What an arrival does: its stream replaces the one of the wrapper that it names, or it is closed;
-- and no ring changes.
pub record Effect (rings : Rings) (streams : Streams) (a : DirectStream) (changed : Streams)
    (closed : List ℕ) : Type 0 where
  pub closes : closed ≡ (if is_taken rings a then [] else a.stream ∷ [])
  pub keeps : (j : ℕ) → ring_of (changed j) ≡ rings j
  pub swaps :
      (id : ℕ) (r : Wrapper) (from : Ring)
      → streams id ≡ some (r, from)
      → changed id
        ≡ some (
          if is_taken rings a then (if names id a.reply then swap_inner r a.stream else r) else r,
          from,
        )

module _ (rings : Rings) (streams : Streams) (agree : (j : ℕ) → ring_of (streams j) ≡ rings j) where
  closed-Effect :
      (a : DirectStream) → is_taken rings a ≡ false → Effect rings streams a streams (a.stream ∷ [])
  closed-Effect a untaken = record {
    closes = rw untaken refl;
    keeps = agree;
    swaps = λ id r from known. rw untaken known;
  }

  module _ (st : ℕ) (peer : Positions) (writes : Bool) where
    abbrev resuming : DirectStream
    resuming = record { stream = st; reply = some (resume_frame peer); writes = writes }

    known_ring :
        (known : Option (Wrapper × Ring))
        → streams peer.stream_id ≡ known
        → is_taken rings resuming ≡ can_resume (ring_of known) peer.peer_ack_position writes
    unfolding is_taken
    known_ring known e =
        ap (λ x. can_resume x peer.peer_ack_position writes)
          (sym (agree peer.stream_id) ∙ ap ring_of e)

    same_wrapper :
        (r s : Wrapper) (from other : Ring) (id : ℕ)
        → streams peer.stream_id ≡ some (r, from)
        → streams id ≡ some (s, other)
        → (id == peer.stream_id) ≡ true
        → r ≡ s
    same_wrapper r s from other id e f same =
        let at_id : id ≡ peer.stream_id = ground (arith, ==_iff id peer.stream_id) in cc

    taken-Effect :
        (r : Wrapper) (from : Ring)
        → streams peer.stream_id ≡ some (r, from)
        → is_taken rings resuming ≡ true
        → Effect rings streams resuming (set_stream streams peer.stream_id (swap_inner r st)) []
    unfolding names
    taken-Effect r from known taken = record {
      closes = rw taken refl;
      keeps = λ j. ring_of-set_stream streams peer.stream_id (swap_inner r st) j ∙ agree j;
      swaps = λ id s other there.
          set_stream_known streams peer.stream_id id s (swap_inner r st) other there
          ∙ elim (Bool-cases (id == peer.stream_id)) [
            | inl same ↦ rw (same, taken, same_wrapper r s from other id known there same) refl
            | inr else_ ↦ rw (else_, taken) refl
          ];
    }

    failed-Effect :
        (r : Wrapper) (from : Ring)
        → streams peer.stream_id ≡ some (r, from)
        → is_taken rings resuming ≡ false
        → Effect rings streams resuming (set_stream streams peer.stream_id r) (st ∷ [])
    failed-Effect r from known untaken = record {
      closes = rw untaken refl;
      keeps = λ j. ring_of-set_stream streams peer.stream_id r j ∙ agree j;
      swaps = λ id s other there.
          set_stream_known streams peer.stream_id id s r other there
          ∙ elim (Bool-cases (id == peer.stream_id)) [
            | inl same ↦ rw (same, untaken, same_wrapper r s from other id known there same) refl
            | inr else_ ↦ rw (else_, untaken) refl
          ];
    }

    resumed-Effect :
        let out = handle_direct_stream streams st (some (resume_frame peer)) writes in
        Effect rings streams resuming
          (place streams (some (resume_frame peer)) out.0)
          (dropped resuming out.2)
    unfolding handle_direct_stream direct_stream finish place dropped can_resume ring_of
    resumed-Effect = elim (Option-cases (streams peer.stream_id)) [
      | inl unknown ↦
          rw (unknown, handle_direct_stream) (closed-Effect resuming (known_ring none unknown))
      | inr ((r, from), known) ↦
          elim (retransmit_cases resuming from peer.peer_ack_position writes) [
            | sent_gap can sent nothing ↦
                rw (known, handle_direct_stream, sent, nothing)
                  (taken-Effect r from known (known_ring (some (r, from)) known ∙ can))
            | no_way cannot sent closed ↦
                rw (known, handle_direct_stream, sent, closed)
                  (failed-Effect r from known (known_ring (some (r, from)) known ∙ cannot))
          ]
    ]

  pub handled-Effect :
      (st : ℕ) (reply : Option Frame) (writes : Bool)
      → let a : DirectStream = record { stream = st; reply = reply; writes = writes } in
        let out = handle_direct_stream streams st reply writes in
        Effect rings streams a (place streams reply out.0) (dropped a out.2)
  unfolding handle_direct_stream place dropped is_taken
  handled-Effect st none writes = closed-Effect _ refl
  handled-Effect st (some f) writes = elim (no_resume rings streams st f writes) [
    | inl (peer, e) ↦ rw e (resumed-Effect st peer writes)
    | inr (same, failed, untaken) ↦ rw (same, failed _) (closed-Effect _ untaken)
  ]
