-- ===== src/Candidate/Unique.antt =====
-- Sort against a reference: the candidates of each priority, from the greatest priority down.
use mathlib.Core.List.{append-nil}
use outrelay_agent.Base.{
  subst, ℕ, zero, suc, ◌≤◌, ◌<◌, ◌≡◌, refl, sym, ◌∙◌, ltb, Bool-cases, inl, inr, List, [], ◌∷◌,
  ◌++◌, All, arith, ◌==◌,
}
use outrelay_agent.Candidate.{Candidate, sort}
use outrelay_agent.Candidate.Sorting.{
  IsRanked, of_priority, of_priority-append, sort-IsRanked, sort-stable,
}

-- The reference: for each priority from `m` down, the candidates of that priority in their order.
pub by_priority : ℕ → List Candidate → List Candidate
by_priority zero cs = of_priority 0 cs
by_priority (suc m) cs = of_priority (suc m) cs ++ by_priority m cs

of_priority-below :
    (p q : ℕ) (cs : List Candidate) → q < p → All (λ d. d.priority ≤ q) cs → of_priority p cs ≡ []
unfolding of_priority
of_priority-below p q [] h b = refl
of_priority-below p q (c ∷ cs) h b = ground (arith, of_priority-below p q cs h b.1)

-- A ranked list starts with a candidate of the greatest priority that it has one of.
first_is_greatest :
    (x y : Candidate) (xs ys : List Candidate)
    → IsRanked (y ∷ ys)
    → of_priority x.priority (x ∷ xs) ≡ of_priority x.priority (y ∷ ys)
    → x.priority ≤ y.priority
unfolding of_priority
first_is_greatest x y xs ys r e =
    let below : y.priority < x.priority → of_priority x.priority ys ≡ [] =
      λ h. of_priority-below x.priority y.priority ys h r.0 in
    ground (arith, below)

drop_first :
    (p : ℕ) (x : Candidate) (xs ys : List Candidate)
    → of_priority p (x ∷ xs) ≡ of_priority p (x ∷ ys)
    → of_priority p xs ≡ of_priority p ys
unfolding of_priority
drop_first p x xs ys e = ground arith

same_first :
    (x y : Candidate) (xs ys : List Candidate)
    → x.priority ≡ y.priority
    → of_priority x.priority (x ∷ xs) ≡ of_priority x.priority (y ∷ ys)
    → x ≡ y
unfolding of_priority
same_first x y xs ys h e = ground arith

never_empty :
    (x : Candidate) (xs : List Candidate) → of_priority x.priority (x ∷ xs) ≡ [] → [] ≡ x ∷ xs
unfolding of_priority
never_empty x xs e = ground arith

-- Two ranked lists with the same candidates of each priority, in the same order, are the same list.
pub ranked_unique :
    (xs ys : List Candidate)
    → IsRanked xs
    → IsRanked ys
    → ((p : ℕ) → of_priority p xs ≡ of_priority p ys)
    → xs ≡ ys
unfolding of_priority
ranked_unique [] [] r s e = refl
ranked_unique [] (y ∷ ys) r s e = never_empty y ys (sym (e y.priority))
ranked_unique (x ∷ xs) [] r s e = sym (never_empty x xs (e x.priority))
ranked_unique (x ∷ xs) (y ∷ ys) r s e =
    let up : x.priority ≤ y.priority = first_is_greatest x y xs ys s (e x.priority) in
    let down : y.priority ≤ x.priority = first_is_greatest y x ys xs r (sym (e y.priority)) in
    let first : x ≡ y = same_first x y xs ys (omega arith) (e x.priority) in
    let rest : xs ≡ ys =
      ranked_unique xs ys r.1 s.1 (λ p. drop_first p x xs ys (rw (sym first) at (e p))) in
    cc

All-weaken :
    (p q : ℕ) (xs : List Candidate)
    → p ≤ q
    → All (λ d. d.priority ≤ p) xs
    → All (λ d. d.priority ≤ q) xs
All-weaken p q [] h b = tt
All-weaken p q (x ∷ xs) h b = (omega arith, All-weaken p q xs h b.1)

of_priority-within : (p : ℕ) (cs : List Candidate) → All (λ d. d.priority ≡ p) (of_priority p cs)
unfolding of_priority
of_priority-within p [] = tt
of_priority-within p (c ∷ cs) = ground (arith, of_priority-within p cs)

within-append :
    (p q : ℕ) (xs ys : List Candidate)
    → p ≤ q
    → All (λ d. d.priority ≡ p) xs
    → All (λ d. d.priority ≤ q) ys
    → All (λ d. d.priority ≤ q) (xs ++ ys)
within-append p q [] ys h a b = b
within-append p q (x ∷ xs) ys h a b = (omega arith, within-append p q xs ys h a.1 b)

IsRanked-append :
    (p : ℕ) (xs ys : List Candidate)
    → All (λ d. d.priority ≡ p) xs
    → All (λ d. d.priority ≤ p) ys
    → IsRanked ys
    → IsRanked (xs ++ ys)
IsRanked-append p [] ys a b r = r
IsRanked-append p (x ∷ xs) ys a b r = (
  within-append p x.priority xs ys (omega arith) a.1 (All-weaken p x.priority ys (omega arith) b),
  IsRanked-append p xs ys a.1 b r,
)

by_priority-within : (m : ℕ) (cs : List Candidate) → All (λ d. d.priority ≤ m) (by_priority m cs)
unfolding by_priority
by_priority-within zero cs =
    rw (append-nil (of_priority 0 cs)) at
      (within-append 0 0 (of_priority 0 cs) [] (omega arith) (of_priority-within 0 cs) tt)
by_priority-within (suc m) cs =
    within-append (suc m) (suc m) (of_priority (suc m) cs) (by_priority m cs) (omega arith)
      (of_priority-within (suc m) cs)
      (All-weaken m (suc m) (by_priority m cs) (omega arith) (by_priority-within m cs))

by_priority-IsRanked : (m : ℕ) (cs : List Candidate) → IsRanked (by_priority m cs)
unfolding by_priority
by_priority-IsRanked zero cs =
    rw (append-nil (of_priority 0 cs)) at
      (IsRanked-append 0 (of_priority 0 cs) [] (of_priority-within 0 cs) tt tt)
by_priority-IsRanked (suc m) cs =
    IsRanked-append (suc m) (of_priority (suc m) cs) (by_priority m cs)
      (of_priority-within (suc m) cs)
      (All-weaken m (suc m) (by_priority m cs) (omega arith) (by_priority-within m cs))
      (by_priority-IsRanked m cs)

of_priority-same :
    (p : ℕ) (cs : List Candidate) → of_priority p (of_priority p cs) ≡ of_priority p cs
unfolding of_priority
of_priority-same p [] = refl
of_priority-same p (c ∷ cs) = ground (arith, of_priority-same p cs)

of_priority-other : (p q : ℕ) (cs : List Candidate) → p < q → of_priority p (of_priority q cs) ≡ []
unfolding of_priority
of_priority-other p q [] h = refl
of_priority-other p q (c ∷ cs) h = ground (arith, of_priority-other p q cs h)

of_priority-by_priority :
    (p m : ℕ) (cs : List Candidate) → p ≤ m → of_priority p (by_priority m cs) ≡ of_priority p cs
unfolding by_priority
of_priority-by_priority p zero cs h =
    subst (λ k. of_priority p (of_priority k cs) ≡ of_priority p cs) (omega arith)
      (of_priority-same p cs)
of_priority-by_priority p (suc m) cs h =
    of_priority-append p (of_priority (suc m) cs) (by_priority m cs)
    ∙ elim (Bool-cases (p == suc m)) [
      | inl top ↦
          let e : p ≡ suc m = ground arith in
          let below =
            of_priority-below p m (by_priority m cs) (omega arith) (by_priority-within m cs) in
          rw (below, append-nil)
            (subst (λ k. of_priority p (of_priority k cs) ≡ of_priority p cs) e
              (of_priority-same p cs))
      | inr low ↦
          let less : p < suc m = ground arith in
          rw (of_priority-other p (suc m) cs less) (of_priority-by_priority p m cs (omega arith))
    ]

of_priority-above :
    (p m : ℕ) (cs : List Candidate)
    → m < p
    → All (λ d. d.priority ≤ m) cs
    → of_priority p (by_priority m cs) ≡ of_priority p cs
of_priority-above p m cs h b =
    of_priority-below p m (by_priority m cs) h (by_priority-within m cs)
    ∙ sym (of_priority-below p m cs h b)

-- Sort gives, for candidates of priorities up to `m`, what is had without comparing them: the
-- candidates of priority `m` in their order, then those of the priority below it, down to 0.
pub sort-by_priority :
    (m : ℕ) (cs : List Candidate) → All (λ d. d.priority ≤ m) cs → sort cs ≡ by_priority m cs
sort-by_priority m cs b =
    ranked_unique (sort cs) (by_priority m cs) (sort-IsRanked cs) (by_priority-IsRanked m cs) (λ p.
      sort-stable cs p
      ∙ sym (elim (Bool-cases (ltb m p)) [
        | inl above ↦ of_priority-above p m cs (ground arith) b
        | inr within ↦ of_priority-by_priority p m cs (ground arith)
      ]))
