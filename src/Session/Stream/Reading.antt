-- ===== src/Session/Stream/Reading.antt =====
-- Read: what it gives its caller, and how long it holds a stream whose transport has failed.
use outrelay_agent.Base.{
  ℕ, ◌+◌, ◌≤◌, ◌≡◌, ◌≢◌, true, false, none, some, List, [], ◌∷◌, ◌++◌, All, arith,
}
use outrelay_agent.Session.Stream.{
  IoError, eof, stream_lost, other_error, ReadRound, read, read_loop, wait_for_resume,
  resume_retry_window,
}

-- A round in which the transport fails and a new inner stream comes in time.
pub record IsResumed (deadline : ℕ) (r : ReadRound) : Type 0 where
  pub attached : r.abandoned ≡ false
  pub no_bytes : r.bytes ≡ []
  pub broken : (r.error ≢ none) × (r.error ≢ some eof)
  pub woken : wait_for_resume r.now deadline r.ready_at ≡ true

read_loop-resumed :
    (deadline : ℕ) (r : ReadRound) (rounds : List ReadRound)
    → IsResumed deadline r
    → read_loop (r ∷ rounds) deadline ≡ read_loop rounds deadline
unfolding read_loop
read_loop-resumed deadline r rounds h = ground (arith, h.attached, h.no_bytes, h.broken, h.woken)

read_loop-data :
    (deadline : ℕ) (pre post : List ReadRound) (r : ReadRound) (b : ℕ) (bs : List ℕ)
    → All (IsResumed deadline) pre
    → r.abandoned ≡ false
    → r.bytes ≡ b ∷ bs
    → read_loop (pre ++ r ∷ post) deadline ≡ some (record { bytes = b ∷ bs; error = r.error })
unfolding read_loop
read_loop-data deadline [] post r b bs h here got = ground arith
read_loop-data deadline (q ∷ pre) post r b bs h here got = ground (
  arith,
  read_loop-resumed deadline q (pre ++ r ∷ post) h.0,
  read_loop-data deadline pre post r b bs h.1 here got,
)

-- Failures of the transport that are mended before the deadline do not show: Read returns the bytes
-- of the first inner stream that has some.
pub read_survives :
    (start : ℕ) (pre post : List ReadRound) (r : ReadRound) (b : ℕ) (bs : List ℕ)
    → All (IsResumed (start + resume_retry_window)) pre
    → r.abandoned ≡ false
    → r.bytes ≡ b ∷ bs
    → read start (pre ++ r ∷ post) ≡ some (record { bytes = b ∷ bs; error = r.error })
unfolding read
read_survives start pre post r b bs h here got =
    read_loop-data (start + resume_retry_window) pre post r b bs h here got

-- The window runs from the start of the call: a Read that has been parked in its inner stream for
-- the whole of it returns the first failure of the transport, also when the new inner stream is
-- there at once.
pub read_no_window :
    (start : ℕ) (r : ReadRound) (rounds : List ReadRound) (e : IoError)
    → r.abandoned ≡ false
    → r.bytes ≡ []
    → r.error ≡ some e
    → start + resume_retry_window ≤ r.now
    → read start (r ∷ rounds) ≡ some (record { bytes = []; error = some e })
unfolding read wait_for_resume
read_no_window start r rounds eof here nothing broken late = ground arith
read_no_window start r rounds stream_lost here nothing broken late = ground arith
read_no_window start r rounds (other_error n) here nothing broken late = ground arith
