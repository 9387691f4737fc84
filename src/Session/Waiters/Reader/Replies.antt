-- ===== src/Session/Waiters/Reader/Replies.antt =====
-- Answers are delivered once, offers are answered, and one reader runs however often it is enabled.
use outrelay_agent.Base.{
  ℕ, zero, suc, ◌≤◌, ◌<◌, ◌≡◌, refl, ◌∙◌, subst, true, Bool-cases, inl, inr, Option, none, some,
  Option-cases, List, [], ◌∷◌, Text, text_beq, text_beq_iff, ◌⊎◌, nat_eq, arith,
}
use outrelay_agent.Base.Map.{Map, lookup, insert, delete, lookup-insert_self, lookup-delete_self}
use outrelay_agent.Netip.{Addr}
use outrelay_agent.Orp.{PbCandidate, CandidateList}
use outrelay_agent.Session.Waiters.{
  P2pState, enable_p2p, initial, register_answer_waiter, deliver_answer,
}
use outrelay_agent.Session.Waiters.Reader.{Output, punched, punch_target, punch_each, warmup_punch}

module _ (s : P2pState) (m : Map ℕ ℕ) (a : CandidateList) where
  waiting : P2pState
  waiting = record s {
    pending_answers = some (insert a.stream_id s.next_chan m);
    next_chan = suc s.next_chan;
  }

  answered : P2pState
  answered = record s {
    pending_answers = some (delete a.stream_id (insert a.stream_id s.next_chan m));
    next_chan = suc s.next_chan;
    answers = insert s.next_chan a s.answers;
  }

  deliver-waiting : lookup s.next_chan s.answers ≡ none → deliver_answer waiting a ≡ answered
  unfolding waiting answered deliver_answer
  deliver-waiting empty = ground (arith, lookup-insert_self a.stream_id s.next_chan m, empty)

  deliver-answered :
      (b : CandidateList) → b.stream_id ≡ a.stream_id → deliver_answer answered b ≡ answered
  unfolding answered deliver_answer
  deliver-answered b same =
      let gone = lookup-delete_self a.stream_id (insert a.stream_id s.next_chan m) in
      ground (arith, gone, same)

-- The first answer for the stream of a waiter goes into its channel, and a later one for that
-- stream does not change anything.
pub deliver_answer_once :
    (s t : P2pState) (m : Map ℕ ℕ) (a b : CandidateList) (ch : ℕ)
    → s.pending_answers ≡ some m
    → lookup s.next_chan s.answers ≡ none
    → register_answer_waiter s a.stream_id ≡ some (t, ch)
    → b.stream_id ≡ a.stream_id
    → (lookup ch (deliver_answer t a).answers ≡ some a)
      × (deliver_answer (deliver_answer t a) b ≡ deliver_answer t a)
unfolding register_answer_waiter
deliver_answer_once s t m a b ch h empty r same =
    let made : waiting s m a ≡ t = unfold waiting in ground (arith, h) in
    let chan : s.next_chan ≡ ch = ground (arith, h) in
    let first : deliver_answer t a ≡ answered s m a =
      subst (λ x. deliver_answer x a ≡ answered s m a) made (deliver-waiting s m a empty) in
    rw first (
      subst (λ c. lookup c (answered s m a).answers ≡ some a) chan
          (unfold answered in lookup-insert_self s.next_chan a s.answers),
      deliver-answered s m a b same,
    )

pub enable_times : ℕ → P2pState → P2pState
enable_times zero s = s
enable_times (suc n) s = enable_times n (enable_p2p s)

enabled_keeps :
    (n : ℕ) (s : P2pState) → s.p2p_enabled ≡ true → (enable_times n s).readers ≡ s.readers
unfolding enable_times enable_p2p
enabled_keeps zero s h = refl
enabled_keeps (suc n) s h = enabled_keeps n (enable_p2p s) refl ∙ ground arith

-- However often EnableP2P is called on a new session, one reader is started.
pub enable_p2p_once : (n : ℕ) → (enable_times (suc n) initial).readers ≡ 1
unfolding enable_times enable_p2p initial
enable_p2p_once n = enabled_keeps n (enable_p2p initial) refl

-- A candidate that cannot be dialled.
abbrev pub IsUnusable : (Text → Option Addr) → Option PbCandidate → Type 0
IsUnusable parse none = Unit {0}
IsUnusable parse (some d) = (d.ip ≡ []) ⊎ (d.port ≡ 0) ⊎ (0xffff < d.port) ⊎ (parse d.ip ≡ none)

-- One datagram to each usable candidate, in their order, and none to another one.
pub data Punches (parse : Text → Option Addr)
    : List (Option PbCandidate) → List Output → Type 0 where
  none_left : Punches parse [] []
  skipped :
      {c : Option PbCandidate} {cs : List (Option PbCandidate)} {out : List Output}
      → IsUnusable parse c
      → Punches parse cs out
      → Punches parse (c ∷ cs) out
  one :
      {c : Option PbCandidate} {cs : List (Option PbCandidate)} {out : List Output} {ip : Addr}
      {port : ℕ}
      → (d : PbCandidate) → c ≡ some d
      → parse d.ip ≡ some ip
      → d.port ≡ port
      → 1 ≤ port
      → port ≤ 0xffff
      → Punches parse cs out
      → Punches parse (c ∷ cs) (punched ip port ∷ out)

unusable :
    (parse : Text → Option Addr) (c : Option PbCandidate)
    → punch_target parse c ≡ none
    → IsUnusable parse c
unfolding punch_target
unusable parse none e = tt
unusable parse (some d) e = elim (Bool-cases (text_beq d.ip [])) [
  | inl empty ↦ inl ((text_beq_iff d.ip []).0 empty)
  | inr text ↦ elim (Option-cases (parse d.ip)) [
    | inl bad ↦ inr (inr (inr bad))
    | inr (ip, good) ↦ ground (arith, text, good)
  ]
]

target_of :
    (parse : Text → Option Addr) (c : Option PbCandidate) (ip : Addr) (port : ℕ)
    → punch_target parse c ≡ some (ip, port)
    → (d : PbCandidate) × (c ≡ some d)
      × (parse d.ip ≡ some ip)
      × (d.port ≡ port)
      × (1 ≤ port)
      × (port ≤ 0xffff)
unfolding punch_target
target_of parse none ip port e = cc
target_of parse (some d) ip port e = elim (Option-cases (parse d.ip)) [
  | inl bad ↦ absurd (ground arith)
  | inr (x, good) ↦ (d, refl, ground arith, ground arith, ground arith, ground arith)
]

punch_each-Punches :
    (parse : Text → Option Addr) (cs : List (Option PbCandidate))
    → Punches parse cs (punch_each parse cs)
unfolding punch_each
punch_each-Punches parse [] = none_left
punch_each-Punches parse (c ∷ cs) = elim (Option-cases (punch_target parse c)) [
  | inl skip ↦ rw (skip, punch_each) (skipped (unusable parse c skip) (punch_each-Punches parse cs))
  | inr ((ip, port), e) ↦
      let (d, same, read, at_port, low, high) = target_of parse c ip port e in
      rw (e, punch_each) (one d same read at_port low high (punch_each-Punches parse cs))
]

-- On the shared socket the warm-up sends one datagram to each candidate with an address that can be
-- read and a port from 1 to 65535, in order, and none to another.
pub warmup_punch-Punches :
    (parse : Text → Option Addr) (cs : List (Option PbCandidate))
    → Punches parse cs (warmup_punch parse true cs)
unfolding warmup_punch
warmup_punch-Punches parse cs = punch_each-Punches parse cs
