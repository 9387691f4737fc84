-- ===== src/Session/Stream.antt =====
-- pkg/session/session.go: Read and Write of a ResumableStream. Each round of their loops is given
-- by what it meets: the flag and the inner stream as they are then, the result of the inner call,
-- and, for the wait, the clock and the moment at which the round's `ready` channel closes. The
-- loops run over the rounds to come; `none` means that they have not returned within them.
-- Times are milliseconds.
pub mod Writing
pub mod Reading
mod Tests
use outrelay_agent.Base.{
  ℕ, ◌+◌, Bool, true, false, ◌==◌, ltb, leb, if◌then◌else◌, not, Option, none, some, List, [], ◌∷◌,
  length, take, drop,
}

pub data IoError : Type 0 where
  eof stream_lost : IoError
  other_error : ℕ → IoError

abbrev pub resume_retry_window : ℕ
resume_retry_window = 30000

-- waitForResume: `ready_at` is when `ready` closes, if it does.
unfoldable pub wait_for_resume : (now deadline : ℕ) → Option ℕ → Bool
wait_for_resume now deadline ready_at =
    if leb deadline now then false else elim ready_at [ none ↦ false | some t ↦ ltb t deadline ]

-- One round of Write. `accepts` is the n of the inner Write, which io.Writer bounds by the length
-- of its argument.
pub record WriteRound : Type 0 where
  pub abandoned : Bool
  pub accepts : ℕ
  pub error : Option IoError
  pub now : ℕ
  pub ready_at : Option ℕ

-- What Write returns, and the slices that it passes to OnWrite, in order.
pub record Written : Type 0 where
  pub count : ℕ
  pub error : Option IoError
  pub slices : List (List ℕ)

-- OnWrite is called for a count above 0 only.
record_slice : List ℕ → Written → Written
record_slice [] w = w
record_slice (b ∷ bs) w = record w { slices = (b ∷ bs) ∷ w.slices }

record_in : List ℕ → Option Written → Option Written
record_in bs none = none
record_in bs (some w) = some (record_slice bs w)

returned : ℕ → Option IoError → Option Written
returned n e = some (record { count = n; error = e; slices = [] })

-- The rest of a round, after the inner Write: `written` and `rest` are updated, and `again` is what
-- the following rounds do.
after_write : WriteRound → (deadline written : ℕ) → List ℕ → Option Written → Option Written
unfolding returned
after_write r deadline written rest again = elim rest [
  | [] ↦ returned written none
  | b ∷ bs ↦ elim r.error [
    | none ↦ again
    | some eof ↦ returned written (some eof)
    | some stream_lost ↦
        if wait_for_resume r.now deadline r.ready_at
        then again
        else returned written (some stream_lost)
    | some (other_error n) ↦
        if wait_for_resume r.now deadline r.ready_at
        then again
        else returned written (some (other_error n))
  ]
]

-- `rest` is p[written:].
write_loop : List WriteRound → (deadline written : ℕ) → List ℕ → Option Written
unfolding after_write record_in record_slice returned
write_loop rounds deadline written [] = returned written none
write_loop [] deadline written (b ∷ bs) = none
write_loop (r ∷ rounds) deadline written (b ∷ bs) =
    let rest = drop r.accepts (b ∷ bs) in
    let slice = take r.accepts (b ∷ bs) in
    let again = write_loop rounds deadline (written + length slice) rest in
    if r.abandoned
    then returned written (some stream_lost)
    else record_in slice (after_write r deadline (written + length slice) rest again)

unfoldable pub write : (start : ℕ) → List WriteRound → List ℕ → Option Written
unfolding write_loop
write start rounds p = write_loop rounds (start + resume_retry_window) 0 p

-- One round of Read: the bytes and the error of the inner Read.
pub record ReadRound : Type 0 where
  pub abandoned : Bool
  pub bytes : List ℕ
  pub error : Option IoError
  pub now : ℕ
  pub ready_at : Option ℕ

-- What Read returns; the count that it passes to OnRead is the length of `bytes`, if that is not 0.
pub record WasRead : Type 0 where
  pub bytes : List ℕ
  pub error : Option IoError

failed : Option IoError → Option WasRead
failed e = some (record { bytes = []; error = e })

-- The end of a round that read no byte.
after_read : ReadRound → ℕ → Option WasRead → Option WasRead
unfolding failed
after_read r deadline again = elim r.error [
  | none ↦ failed none
  | some eof ↦ failed (some eof)
  | some stream_lost ↦
      if wait_for_resume r.now deadline r.ready_at then again else failed (some stream_lost)
  | some (other_error n) ↦
      if wait_for_resume r.now deadline r.ready_at then again else failed (some (other_error n))
]

read_loop : List ReadRound → ℕ → Option WasRead
unfolding after_read failed
read_loop [] deadline = none
read_loop (r ∷ rounds) deadline =
    let again = read_loop rounds deadline in
    if r.abandoned then failed (some stream_lost) else elim r.bytes [
      | [] ↦ after_read r deadline again
      | b ∷ bs ↦ some (record { bytes = b ∷ bs; error = r.error })
    ]

unfoldable pub read : (start : ℕ) → List ReadRound → Option WasRead
unfolding read_loop
read start rounds = read_loop rounds (start + resume_retry_window)
