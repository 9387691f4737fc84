-- ===== src/Candidate/Sorting.antt =====
-- Sort is a stable sort by descending priority.
pub mod Kept
use mathlib.Core.List.{reverse-cons, reverse-reverse, append_assoc, append-nil, Perm}
use mathlib.Core.List.Perm
use outrelay_agent.Base.{
  ℕ, true, false, ◌≤◌, ◌<◌, ◌≡◌, refl, sym, ap, ◌∙◌, ltb, Bool-cases, inl, inr, List, [], ◌∷◌, ◌++◌,
  reverse, All, arith, ◌==◌, if◌then◌else◌,
}
use outrelay_agent.Candidate.{Candidate, sink, sort_loop, sort}

-- Descending priorities.
abbrev pub IsRanked : List Candidate → Type 0
IsRanked [] = Unit {0}
IsRanked (c ∷ cs) = All (λ d. d.priority ≤ c.priority) cs × IsRanked cs

-- The candidates of one priority, in their order.
unfoldable pub of_priority : ℕ → List Candidate → List Candidate
of_priority p [] = []
of_priority p (c ∷ cs) = if c.priority == p then c ∷ of_priority p cs else of_priority p cs

-- The array whose part before the position is `front`, reversed.
pub unwind : List Candidate → List Candidate → List Candidate
unwind [] back = back
unwind (d ∷ front) back = unwind front (d ∷ back)

pub unwind-reverse : (front back : List Candidate) → unwind front back ≡ reverse front ++ back
unfolding unwind
unwind-reverse [] back = refl
unwind-reverse (d ∷ front) back =
    unwind-reverse front (d ∷ back)
    ∙ sym (rw (reverse-cons d front) (append_assoc (reverse front) (d ∷ []) back))

unwind_done : (done : List Candidate) → unwind (reverse done) [] ≡ done
unwind_done done = unwind-reverse (reverse done) [] ∙ rw (reverse-reverse done) (append-nil done)

pub sink_stop :
    (c d : Candidate) (front back : List Candidate)
    → ltb d.priority c.priority ≡ false
    → sink c (d ∷ front) back ≡ unwind front (d ∷ c ∷ back)
unfolding sink unwind
sink_stop c d front back h = rw h (sym (unwind-reverse (d ∷ front) (c ∷ back)))

pub sink_swap :
    (c d : Candidate) (front back : List Candidate)
    → ltb d.priority c.priority ≡ true
    → sink c (d ∷ front) back ≡ sink c front (d ∷ back)
unfolding sink
sink_swap c d front back h = rw h

Bounds-unwind :
    (front xs ys : List Candidate)
    → ((p : ℕ) → All (λ d. d.priority ≤ p) xs → All (λ d. d.priority ≤ p) ys)
    → (IsRanked xs → IsRanked ys)
    → IsRanked (unwind front xs)
    → IsRanked (unwind front ys)
unfolding unwind
Bounds-unwind [] xs ys h k r = k r
Bounds-unwind (e ∷ front) xs ys h k r =
    Bounds-unwind front (e ∷ xs) (e ∷ ys) (λ p b. (b.0, h p b.1)) (λ s. (h e.priority s.0, k s.1)) r

All-weaken :
    (p q : ℕ) (xs : List Candidate)
    → p ≤ q
    → All (λ d. d.priority < p) xs
    → All (λ d. d.priority ≤ q) xs
All-weaken p q [] h b = tt
All-weaken p q (x ∷ xs) h b = (omega arith, All-weaken p q xs h b.1)

sink-IsRanked :
    (c : Candidate) (front back : List Candidate)
    → All (λ d. d.priority < c.priority) back
    → IsRanked (unwind front back)
    → IsRanked (sink c front back)
unfolding sink unwind
sink-IsRanked c [] back h r = (All-weaken c.priority c.priority back (omega arith) h, r)
sink-IsRanked c (d ∷ front) back h r = elim (Bool-cases (ltb d.priority c.priority)) [
  | inl less ↦
      rw (sink_swap c d front back less) (sink-IsRanked c front (d ∷ back) (ground arith, h) r)
  | inr stop ↦ rw (sink_stop c d front back stop) (
      Bounds-unwind front (d ∷ back) (d ∷ c ∷ back) (λ p b. (b.0, (ground arith, b.1)))
        (λ s. ((ground arith, s.0), (All-weaken c.priority c.priority back (omega arith) h, s.1)))
        r)
]

Perm-unwind : (front xs ys : List Candidate) → Perm xs ys → Perm (unwind front xs) (unwind front ys)
unfolding unwind
Perm-unwind [] xs ys h = h
Perm-unwind (e ∷ front) xs ys h = Perm-unwind front (e ∷ xs) (e ∷ ys) (Perm.cons e h)

sink-perm :
    (c : Candidate) (front back : List Candidate)
    → Perm (sink c front back) (unwind front (c ∷ back))
unfolding unwind
sink-perm c [] back = unfold sink in Perm.refl (c ∷ back)
sink-perm c (d ∷ front) back = elim (Bool-cases (ltb d.priority c.priority)) [
  | inl less ↦ rw (sink_swap c d front back less) (
      Perm.trans (sink-perm c front (d ∷ back))
        (Perm-unwind front (c ∷ d ∷ back) (d ∷ c ∷ back) (Perm.swap d c back)))
  | inr stop ↦ rw (sink_stop c d front back stop) (Perm.refl _)
]

of_priority-unwind :
    (p : ℕ) (front xs ys : List Candidate)
    → of_priority p xs ≡ of_priority p ys
    → of_priority p (unwind front xs) ≡ of_priority p (unwind front ys)
unfolding unwind
of_priority-unwind p [] xs ys h = h
of_priority-unwind p (e ∷ front) xs ys h =
    of_priority-unwind p front (e ∷ xs) (e ∷ ys)
      (unfold of_priority in ap (λ r. if e.priority == p then e ∷ r else r) h)

swap_unequal :
    (p : ℕ) (c d : Candidate) (back : List Candidate)
    → ltb d.priority c.priority ≡ true
    → of_priority p (c ∷ d ∷ back) ≡ of_priority p (d ∷ c ∷ back)
unfolding of_priority
swap_unequal p c d back h = ground arith

sink-stable :
    (p : ℕ) (c : Candidate) (front back : List Candidate)
    → of_priority p (sink c front back) ≡ of_priority p (unwind front (c ∷ back))
unfolding unwind
sink-stable p c [] back = unfold sink in refl
sink-stable p c (d ∷ front) back = elim (Bool-cases (ltb d.priority c.priority)) [
  | inl less ↦ rw (sink_swap c d front back less) (
      sink-stable p c front (d ∷ back)
      ∙ of_priority-unwind p front (c ∷ d ∷ back) (d ∷ c ∷ back) (swap_unequal p c d back less))
  | inr stop ↦ rw (sink_stop c d front back stop)
]

pub of_priority-append :
    (p : ℕ) (xs ys : List Candidate)
    → of_priority p (xs ++ ys) ≡ of_priority p xs ++ of_priority p ys
unfolding of_priority
of_priority-append p [] ys = refl
of_priority-append p (x ∷ xs) ys = ground (arith, of_priority-append p xs ys)

unwind_last :
    (done : List Candidate) (c : Candidate) → unwind (reverse done) (c ∷ []) ≡ done ++ c ∷ []
unwind_last done c = unwind-reverse (reverse done) (c ∷ []) ∙ rw (reverse-reverse done)

sort_loop-IsRanked : (done rest : List Candidate) → IsRanked done → IsRanked (sort_loop done rest)
unfolding sort_loop
sort_loop-IsRanked done [] r = r
sort_loop-IsRanked done (c ∷ rest) r =
    sort_loop-IsRanked (sink c (reverse done) []) rest
      (sink-IsRanked c (reverse done) [] tt (rw (unwind_done done) r))

sort_loop-perm : (done rest : List Candidate) → Perm (sort_loop done rest) (done ++ rest)
unfolding sort_loop
sort_loop-perm done [] = rw (append-nil done) (Perm.refl done)
sort_loop-perm done (c ∷ rest) =
    let placed = rw (unwind_last done c) at (sink-perm c (reverse done) []) in
    Perm.trans (sort_loop-perm (sink c (reverse done) []) rest)
      (rw (append_assoc done (c ∷ []) rest) at (Perm.append placed (Perm.refl rest)))

sort_loop-stable :
    (p : ℕ) (done rest : List Candidate)
    → of_priority p (sort_loop done rest) ≡ of_priority p (done ++ rest)
unfolding sort_loop
sort_loop-stable p done [] = rw (append-nil done)
sort_loop-stable p done (c ∷ rest) =
    sort_loop-stable p (sink c (reverse done) []) rest
    ∙ of_priority-append p (sink c (reverse done) []) rest
    ∙ ap (λ r. r ++ of_priority p rest)
        (sink-stable p c (reverse done) [] ∙ ap (of_priority p) (unwind_last done c))
    ∙ sym (of_priority-append p (done ++ c ∷ []) rest)
    ∙ ap (of_priority p) (append_assoc done (c ∷ []) rest)

-- The result of Sort descends in priority.
pub sort-IsRanked : (cs : List Candidate) → IsRanked (sort cs)
unfolding sort
sort-IsRanked cs = sort_loop-IsRanked [] cs tt

-- The result of Sort is a rearrangement of its argument.
pub sort-perm : (cs : List Candidate) → Perm (sort cs) cs
unfolding sort
sort-perm cs = sort_loop-perm [] cs

-- Sort keeps the order of candidates of one priority.
pub sort-stable : (cs : List Candidate) (p : ℕ) → of_priority p (sort cs) ≡ of_priority p cs
unfolding sort
sort-stable cs p = sort_loop-stable p [] cs
