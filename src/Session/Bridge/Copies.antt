-- ===== src/Session/Bridge/Copies.antt =====
-- A direction of a bridge copies what it reads, in order, and half-closes after all of it.
use mathlib.Core.List.{flatten, append-nil, append_assoc}
use outrelay_agent.Base.{
  subst, ◌≢◌, ℕ, ◌≡◌, refl, ap, ◌∙◌, Bool, true, false, Bool-cases, inl, inr, if◌then◌else◌, List,
  [], ◌∷◌, ◌++◌,
}
use outrelay_agent.Session.Bridge.{Round, Copied, copy_and_done, write_chunk}

-- What a source has to give: the bytes of its reads up to the one that ends it.
abbrev pub source_bytes : List Round → List ℕ
source_bytes [] = []
source_bytes (r ∷ rounds) =
    let more = source_bytes rounds in if r.ends then r.bytes else r.bytes ++ more

abbrev pub has_end : List Round → Bool
has_end [] = false
has_end (r ∷ rounds) = let more = has_end rounds in if r.ends then true else more

-- A copy from a source that has `src` to give and comes to its end if `ends`: it is not over, the
-- source has not ended and nothing is missing yet; or a write failed, a part is missing and there is
-- no half-close; or the source ended, all of it is written and the half-close is made.
pub data Copies (can_half_close ends : Bool) (src : List ℕ) (c : Copied) : Type 0 where
  copying :
      c.done ≡ false
      → c.half_closed ≡ false
      → ends ≡ false
      → flatten c.chunks ≡ src
      → Copies can_half_close ends src c
  failed :
      (missing : List ℕ)
      → c.done ≡ true
      → c.half_closed ≡ false
      → missing ≢ []
      → flatten c.chunks ++ missing ≡ src
      → Copies can_half_close ends src c
  finished :
      c.done ≡ true
      → c.half_closed ≡ can_half_close
      → ends ≡ true
      → flatten c.chunks ≡ src
      → Copies can_half_close ends src c

chunk-Copies :
    (hc ends : Bool) (src : List ℕ) (c : Copied) (bs : List ℕ) (accepted : Bool)
    → Copies hc ends src c
    → Copies hc ends (bs ++ src) (write_chunk bs accepted c)
unfolding write_chunk flatten
chunk-Copies hc ends src c [] accepted k = k
chunk-Copies hc ends src c (b ∷ bs) false k = failed ((b ∷ bs) ++ src) refl refl (λ e. cc) refl
chunk-Copies hc ends src c (b ∷ bs) true (copying d h n f) =
    copying d h n (ap (λ l. (b ∷ bs) ++ l) f)
chunk-Copies hc ends src c (b ∷ bs) true (failed m d h n f) =
    failed m d h n (append_assoc (b ∷ bs) (flatten c.chunks) m ∙ ap (λ l. (b ∷ bs) ++ l) f)
chunk-Copies hc ends src c (b ∷ bs) true (finished d h n f) =
    finished d h n (ap (λ l. (b ∷ bs) ++ l) f)

-- A direction of the bridge writes what its source gives, in order and without a gap, and half-closes
-- the other side exactly when the source has come to its end and all of it is written; a write that
-- fails ends the copy with no half-close.
pub copy_and_done-Copies :
    (hc : Bool) (rounds : List Round)
    → Copies hc (has_end rounds) (source_bytes rounds) (copy_and_done hc rounds)
unfolding copy_and_done flatten
copy_and_done-Copies hc [] = copying refl refl refl refl
copy_and_done-Copies hc (r ∷ rounds) = elim (Bool-cases r.ends) [
  | inl ends ↦
      rw (ends, copy_and_done)
        (subst
          (λ l. Copies hc true l (
            write_chunk r.bytes r.accepted (record { chunks = []; half_closed = hc; done = true })))
          (append-nil r.bytes)
          (chunk-Copies hc true [] (record { chunks = []; half_closed = hc; done = true }) r.bytes
            r.accepted (finished refl refl refl refl)))
  | inr goes_on ↦
      rw (goes_on, copy_and_done)
        (chunk-Copies hc (has_end rounds) (source_bytes rounds) (copy_and_done hc rounds) r.bytes
          r.accepted (copy_and_done-Copies hc rounds))
]
