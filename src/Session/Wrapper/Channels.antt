-- ===== src/Session/Wrapper/Channels.antt =====
-- In every history each channel is closed at most once, and whoever waits on the current one is
-- woken by the next change.
use outrelay_agent.Base.{
  ℕ, suc, ◌<◌, ◌≡◌, ◌≢◌, refl, sym, subst, true, false, Bool-cases, inl, inr, Option, none, some,
  List, [], ◌∷◌, ◌++◌, All, arith,
}
use outrelay_agent.Session.Wrapper.{
  Wrapper, wrap, close_chan, mark_abandoned, swap_inner, Op, swap, abandon, step, steps,
}

abbrev pub Distinct : List ℕ → Type 0
Distinct [] = Unit {0}
Distinct (c ∷ cs) = All (λ d. d ≢ c) cs × Distinct cs

-- The current channel is open and has been made.
abbrev pub IsPending : Option ℕ → ℕ → List ℕ → Type 0
IsPending none next closed = Unit {0}
IsPending (some c) next closed = (c < next) × All (λ d. d ≢ c) closed

pub record IsSound (r : Wrapper) : Type 0 where
  pub pending : IsPending r.ready r.next_chan r.closed
  pub made : All (λ d. d < r.next_chan) r.closed
  pub once : Distinct r.closed

All-mono : (n : ℕ) (cs : List ℕ) → All (λ d. d < n) cs → All (λ d. d < suc n) cs
All-mono n [] h = tt
All-mono n (c ∷ cs) h = (omega arith, All-mono n cs h.1)

All-ne : (n : ℕ) (cs : List ℕ) → All (λ d. d < n) cs → All (λ d. d ≢ n) cs
All-ne n [] h = tt
All-ne n (c ∷ cs) h = ((λ e. omega (arith, h.0)), All-ne n cs h.1)

close_chan-made :
    (o : Option ℕ) (next : ℕ) (closed : List ℕ)
    → IsPending o next closed
    → All (λ d. d < next) closed
    → All (λ d. d < next) (close_chan o closed)
unfolding close_chan
close_chan-made none next closed p m = m
close_chan-made (some c) next closed p m = (p.0, m)

close_chan-Distinct :
    (o : Option ℕ) (next : ℕ) (closed : List ℕ)
    → IsPending o next closed
    → Distinct closed
    → Distinct (close_chan o closed)
unfolding close_chan
close_chan-Distinct none next closed p d = d
close_chan-Distinct (some c) next closed p d = (p.1, d)

abbrev marked_now : Wrapper → Wrapper
marked_now r = record r { abandoned = true; ready = none; closed = close_chan r.ready r.closed }

step-IsSound : (r : Wrapper) (o : Op) → IsSound r → IsSound (step r o)
unfolding step swap_inner mark_abandoned
step-IsSound r (swap s) v =
    let made = close_chan-made r.ready r.next_chan r.closed v.pending v.made in
    record {
      pending = (omega arith, All-ne r.next_chan (close_chan r.ready r.closed) made);
      made = All-mono r.next_chan (close_chan r.ready r.closed) made;
      once = close_chan-Distinct r.ready r.next_chan r.closed v.pending v.once;
    }
step-IsSound r abandon v = elim (Bool-cases r.abandoned) [
  | inl done ↦ let same : mark_abandoned r ≡ r = ground arith in subst IsSound (sym same) v
  | inr first ↦
      let marked : mark_abandoned r ≡ marked_now r = ground arith in
      subst IsSound (sym marked) (record {
        pending = tt;
        made = close_chan-made r.ready r.next_chan r.closed v.pending v.made;
        once = close_chan-Distinct r.ready r.next_chan r.closed v.pending v.once;
      })
]

steps-IsSound : (r : Wrapper) (os : List Op) → IsSound r → IsSound (steps r os)
unfolding steps
steps-IsSound r [] v = v
steps-IsSound r (o ∷ os) v = steps-IsSound (step r o) os (step-IsSound r o v)

-- From a fresh wrapper no sequence of swaps and abandonings closes a channel twice, and the channel
-- on which a new waiter would park is never closed already.
pub steps-wrap-IsSound : (inner : ℕ) (os : List Op) → IsSound (steps (wrap inner) os)
unfolding wrap
steps-wrap-IsSound inner os =
    steps-IsSound (wrap inner) os (record { pending = (omega arith, tt); made = tt; once = tt })

abandoned_stays : (r : Wrapper) (os : List Op) → r.abandoned ≡ true → (steps r os).abandoned ≡ true
unfolding steps step swap_inner mark_abandoned
abandoned_stays r [] h = h
abandoned_stays r (swap s ∷ os) h = abandoned_stays (swap_inner r s) os h
abandoned_stays r (abandon ∷ os) h = abandoned_stays (mark_abandoned r) os (ground arith)

-- A wrapper that was abandoned once stays so, whatever is swapped in before or later.
pub abandon_is_final :
    (r : Wrapper) (before after : List Op) → (steps r (before ++ abandon ∷ after)).abandoned ≡ true
unfolding steps step mark_abandoned
abandon_is_final r [] after = abandoned_stays (mark_abandoned r) after (ground arith)
abandon_is_final r (o ∷ before) after = abandon_is_final (step r o) before after

-- The next swap or abandoning of a live wrapper closes the channel on which its readers and
-- writers are parked; a swap moreover installs the new stream behind an open channel and cancels
-- the read on the old one.
pub step_wakes :
    (r : Wrapper) (c old s : ℕ)
    → IsSound r
    → r.abandoned ≡ false
    → r.ready ≡ some c
    → r.inner ≡ some old
    → ((step r abandon).closed ≡ c ∷ r.closed)
      × ((step r (swap s)).closed ≡ c ∷ r.closed)
      × ((step r (swap s)).inner ≡ some s)
      × ((step r (swap s)).ready ≡ some r.next_chan)
      × (r.next_chan ≢ c)
      × ((step r (swap s)).cancelled ≡ old ∷ r.cancelled)
unfolding step swap_inner mark_abandoned close_chan
step_wakes r c old s v live ready inner = (
  ground arith,
  ground arith,
  refl,
  refl,
  λ e. let p = subst (λ o. IsPending o r.next_chan r.closed) ready v.pending in omega (arith, p.0),
  ground arith,
)
