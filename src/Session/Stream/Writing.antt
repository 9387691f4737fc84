-- ===== src/Session/Stream/Writing.antt =====
-- Write: the slices that it records are, in order, the prefix of its argument that it reports.
use mathlib.Core.List.{flatten, append_assoc}
use outrelay_agent.Base.{
  ℕ, ◌+◌, ◌≤◌, ◌<◌, ◌≡◌, ◌≢◌, refl, ap, sym, subst, ◌∙◌, Bool, if◌then◌else◌, true, false,
  Bool-cases, inl, inr, Option, none, some, Option-cases, List, [], ◌∷◌, ◌++◌, length, take, drop,
  take-append-drop, length-append, length-drop, ◌↔◌, ◌⊎◌, All, arith,
}
use outrelay_agent.Strings.Laws.{take-length}
use outrelay_agent.Session.Stream.{
  IoError, eof, stream_lost, other_error, WriteRound, Written, write, write_loop, after_write,
  record_in, record_slice, returned, wait_for_resume, resume_retry_window,
}

-- What a Write of `rest` after `written` bytes may return.
pub record Accounts (written : ℕ) (rest : List ℕ) (w : Written) : Type 0 where
  pub left : List ℕ
  pub recorded : flatten w.slices ++ left ≡ rest
  pub counted : w.count + length left ≡ written + length rest
  pub complete : (w.error ≡ none) ↔ (left ≡ [])

Accounts-record_slice :
    (written : ℕ) (slice rest : List ℕ) (w : Written)
    → Accounts (written + length slice) rest w
    → Accounts written (slice ++ rest) (record_slice slice w)
unfolding record_slice flatten
Accounts-record_slice written [] rest w a = record {
  left = a.left;
  recorded = a.recorded;
  counted = omega (arith, a.counted);
  complete = a.complete;
}
Accounts-record_slice written (b ∷ bs) rest w a = record {
  left = a.left;
  recorded = ap (◌∷◌ b) (append_assoc bs (flatten w.slices) a.left ∙ ap (λ r. bs ++ r) a.recorded);
  counted = omega (arith, a.counted, length-append bs rest);
  complete = a.complete;
}

-- Of each result that the rounds after this one may have.
abbrev AccountsIn : ℕ → List ℕ → Option Written → Type 0
AccountsIn written rest none = Unit {0}
AccountsIn written rest (some w) = Accounts written rest w

AccountsIn-record_in :
    (written : ℕ) (slice rest : List ℕ) (o : Option Written)
    → AccountsIn (written + length slice) rest o
    → AccountsIn written (slice ++ rest) (record_in slice o)
unfolding record_in
AccountsIn-record_in written slice rest none a = tt
AccountsIn-record_in written slice rest (some w) a = Accounts-record_slice written slice rest w a

stopped :
    (written : ℕ) (b : ℕ) (bs : List ℕ) (e : IoError)
    → AccountsIn written (b ∷ bs) (returned written (some e))
unfolding returned flatten
stopped written b bs e = record {
  left = b ∷ bs;
  recorded = refl;
  counted = refl;
  complete = (λ p. cc, λ p. cc);
}

finished : (written : ℕ) → AccountsIn written [] (returned written none)
unfolding returned flatten
finished written = record {
  left = [];
  recorded = refl;
  counted = refl;
  complete = (λ p. refl, λ p. refl);
}

-- The end of a round keeps the account, if the rounds after it do.
after_write-AccountsIn :
    (r : WriteRound) (deadline written : ℕ) (rest : List ℕ) (again : Option Written)
    → AccountsIn written rest again
    → AccountsIn written rest (after_write r deadline written rest again)
unfolding after_write
after_write-AccountsIn r deadline written [] again a = finished written
after_write-AccountsIn r deadline written (b ∷ bs) again a =
    by_error r.error (wait_for_resume r.now deadline r.ready_at)
  where
    woken :
        (e : IoError) (w : Bool)
        → AccountsIn written (b ∷ bs) (if w then again else returned written (some e))
    woken e true = a
    woken e false = stopped written b bs e

    by_error :
        (e : Option IoError) (w : Bool)
        → AccountsIn written (b ∷ bs) (elim e [
          | none ↦ again
          | some eof ↦ returned written (some eof)
          | some stream_lost ↦ if w then again else returned written (some stream_lost)
          | some (other_error n) ↦ if w then again else returned written (some (other_error n))
        ])
    by_error none w = a
    by_error (some eof) w = stopped written b bs eof
    by_error (some stream_lost) w = woken stream_lost w
    by_error (some (other_error n)) w = woken (other_error n) w

write_loop-AccountsIn :
    (rounds : List WriteRound) (deadline written : ℕ) (rest : List ℕ)
    → AccountsIn written rest (write_loop rounds deadline written rest)
unfolding write_loop
write_loop-AccountsIn [] deadline written [] = finished written
write_loop-AccountsIn (r ∷ rounds) deadline written [] = finished written
write_loop-AccountsIn [] deadline written (b ∷ bs) = tt
write_loop-AccountsIn (r ∷ rounds) deadline written (b ∷ bs) = elim (Bool-cases r.abandoned) [
  | inl gone ↦ rw gone (stopped written b bs stream_lost)
  | inr here ↦
      let slice = take r.accepts (b ∷ bs) in
      let rest = drop r.accepts (b ∷ bs) in
      let now = written + length slice in
      let again = write_loop rounds deadline now rest in
      let kept = AccountsIn-record_in written slice rest (after_write r deadline now rest again) (
        after_write-AccountsIn r deadline now rest again
          (write_loop-AccountsIn rounds deadline now rest)) in
      rw here (
        subst (λ q. AccountsIn written q (record_in slice (after_write r deadline now rest again)))
          (take-append-drop r.accepts (b ∷ bs)) kept)
]

prefix : (p : List ℕ) (w : Written) → Accounts 0 p w → flatten w.slices ≡ take w.count p
prefix p w a =
    let long : length (flatten w.slices) ≡ w.count =
      omega (arith, a.counted, ap length a.recorded, length-append (flatten w.slices) a.left) in
    rw (← a.recorded, ← long) (sym (take-length (flatten w.slices) a.left))

outcome :
    (p : List ℕ) (w : Written)
    → Accounts 0 p w
    → ((w.error ≡ none) × (w.count ≡ length p))
      ⊎ ((e : IoError) × (w.error ≡ some e) × (w.count < length p))
outcome p w a = elim (Option-cases w.error) [
  | inl fine ↦ inl (fine, omega (arith, a.counted, ap length (a.complete.0 fine)))
  | inr (e, failed) ↦ inr (e, failed, unfinished a.left refl e failed)
]
  where
    unfinished :
        (left : List ℕ) → a.left ≡ left → (e : IoError) → w.error ≡ some e → w.count < length p
    unfinished [] same e failed = cc (a.complete.1 same)
    unfinished (b ∷ bs) same e failed = omega (arith, a.counted, ap length same)

-- When Write returns, the slices handed to OnWrite, joined in order, are the first `count` bytes of
-- its argument, through every change of the inner stream; and it reports no error exactly when
-- that is the whole argument.
pub write-exact :
    (start : ℕ) (rounds : List WriteRound) (p : List ℕ) (w : Written)
    → write start rounds p ≡ some w
    → (flatten w.slices ≡ take w.count p)
      × (((w.error ≡ none) × (w.count ≡ length p))
          ⊎ ((e : IoError) × (w.error ≡ some e) × (w.count < length p)))
unfolding write
write-exact start rounds p w e =
    let a =
      subst (AccountsIn 0 p) e (write_loop-AccountsIn rounds (start + resume_retry_window) 0 p) in
    (prefix p w a, outcome p w a)

after_write-returns :
    (r : WriteRound) (deadline written : ℕ) (rest : List ℕ) (again : Option Written)
    → again ≢ none
    → after_write r deadline written rest again ≢ none
unfolding after_write returned
after_write-returns r deadline written [] again h = λ p. cc
after_write-returns r deadline written (b ∷ bs) again h = ground (arith, h)

record_in-returns : (slice : List ℕ) (o : Option Written) → o ≢ none → record_in slice o ≢ none
unfolding record_in
record_in-returns slice none h = h
record_in-returns slice (some w) h = λ p. cc

write_loop-returns :
    (rounds : List WriteRound) (deadline written : ℕ) (rest : List ℕ)
    → All (λ r. 1 ≤ r.accepts) rounds
    → length rest ≤ length rounds
    → write_loop rounds deadline written rest ≢ none
unfolding write_loop returned
write_loop-returns [] deadline written [] busy h = λ p. cc
write_loop-returns (r ∷ rounds) deadline written [] busy h = λ p. cc
write_loop-returns [] deadline written (b ∷ bs) busy h = absurd (omega arith)
write_loop-returns (r ∷ rounds) deadline written (b ∷ bs) busy h = elim (Bool-cases r.abandoned) [
  | inl gone ↦ rw gone (λ p. cc)
  | inr here ↦
      let slice = take r.accepts (b ∷ bs) in
      let rest = drop r.accepts (b ∷ bs) in
      let now = written + length slice in
      rw here (
        record_in-returns slice _ (
          after_write-returns r deadline now rest (write_loop rounds deadline now rest) (
            write_loop-returns rounds deadline now rest busy.1
              (omega (arith, length-drop r.accepts (b ∷ bs), busy.0, h)))))
]

-- Write returns within as many rounds as its argument has bytes, if the inner stream of each round
-- takes at least one byte.
pub write-returns :
    (start : ℕ) (rounds : List WriteRound) (p : List ℕ)
    → All (λ r. 1 ≤ r.accepts) rounds
    → length p ≤ length rounds
    → write start rounds p ≢ none
unfolding write
write-returns start rounds p busy h =
    write_loop-returns rounds (start + resume_retry_window) 0 p busy h
