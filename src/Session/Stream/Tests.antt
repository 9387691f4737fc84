-- ===== src/Session/Stream/Tests.antt =====
-- A write and a read across a change of the inner stream.
use mathlib.Core.List.{flatten}
use outrelay_agent.Base.{◌<◌, ◌≡◌, ◌≢◌, refl, false, none, some, [], ◌∷◌, ◌⊎◌, take, arith}
use outrelay_agent.Session.Stream.{
  IoError, other_error, WriteRound, Written, ReadRound, write, read, wait_for_resume,
}
use outrelay_agent.Session.Stream.Writing.{write-exact, write-returns}
use outrelay_agent.Session.Stream.Reading.{read_survives, read_no_window}

-- Two bytes are taken, then the transport fails; a new one comes at 500 ms.
abbrev cut : WriteRound
cut = record {
  abandoned = false;
  accepts = 2;
  error = some (other_error 1);
  now = 400;
  ready_at = some 500;
}

abbrev whole : WriteRound
whole = record { abandoned = false; accepts = 9; error = none; now = 600; ready_at = none }

abbrev written : Written
written = record { count = 3; error = none; slices = (1 ∷ 2 ∷ []) ∷ (3 ∷ []) ∷ [] }

write_across : write 0 (cut ∷ whole ∷ []) (1 ∷ 2 ∷ 3 ∷ []) ≡ some written
unfolding write wait_for_resume
write_across = refl

write-exact_example :
    (flatten written.slices ≡ take 3 (1 ∷ 2 ∷ 3 ∷ []))
    × (((written.error ≡ none) × (written.count ≡ 3))
        ⊎ ((e : IoError) × (written.error ≡ some e) × (written.count < 3)))
write-exact_example = write-exact 0 (cut ∷ whole ∷ []) (1 ∷ 2 ∷ 3 ∷ []) written write_across

write-returns_example : write 0 (cut ∷ whole ∷ []) (1 ∷ 2 ∷ []) ≢ none
write-returns_example = write-returns 0 (cut ∷ whole ∷ []) (1 ∷ 2 ∷ []) (omega arith) (omega arith)

abbrev lost : ReadRound
lost = record {
  abandoned = false;
  bytes = [];
  error = some (other_error 1);
  now = 29000;
  ready_at = some 29500;
}

abbrev full : ReadRound
full = record { abandoned = false; bytes = 5 ∷ []; error = none; now = 29600; ready_at = none }

read_survives_example : read 0 (lost ∷ full ∷ []) ≡ some (record { bytes = 5 ∷ []; error = none })
unfolding wait_for_resume
read_survives_example =
    read_survives 0 (lost ∷ []) [] full 5 []
      (
        record { attached = refl; no_bytes = refl; broken = ((λ p. cc), (λ p. cc)); woken = refl },
        tt,
      )
      refl refl

-- The same failure, 31 seconds after the call.
abbrev parked : ReadRound
parked = record lost { now = 31000; ready_at = some 31000 }

applied_read_no_window :
    read 0 (parked ∷ full ∷ []) ≡ some (record { bytes = []; error = some (other_error 1) })
applied_read_no_window =
    read_no_window 0 parked (full ∷ []) (other_error 1) refl refl refl (omega arith)
