-- ===== src/P2p/Check/Laws.antt =====
-- Check tries the valid candidates by descending priority, and its result tells how far it came.
use mathlib.Core.List.{Perm}
use outrelay_agent.Base.{
  ◌≤◌, ◌≡◌, refl, sym, ap, subst, ◌⊎◌, inl, inr, true, false, Bool-cases, Option, none, some,
  Option-cases, Result, ok, err, List, [], ◌∷◌, ◌++◌, All,
}
use outrelay_agent.Netip.{is_valid}
use outrelay_agent.Candidate.{Candidate, sort}
use outrelay_agent.Candidate.Sorting.{IsRanked, sort-IsRanked, sort-perm}
use outrelay_agent.P2p.Check.{
  CheckError, no_pair, ctx_done, CheckResult, Engine, Dialer, best_local, dial_one, after_dial,
  check_loop, check,
}

module _ {W Conn Err : Type 0} (dial_quic : Dialer W Conn Err) (ctx_err : W → Option Err)
    (e : Engine W Conn Err) where
  -- A dial that failed while the context was alive.
  abbrev pub Fails : W → Candidate → W → Type 0
  Fails w r w' =
      (x : Err) × (is_valid r.addr.addr ≡ true)
      × (dial_one dial_quic ctx_err e w r ≡ (w', err x))
      × (ctx_err w' ≡ none)

  -- The rounds over these candidates, each skipped or failed, lead from one state to the other.
  abbrev pub Failed : W → List Candidate → W → Type 0
  Failed w [] w' = w ≡ w'
  Failed w (r ∷ rs) w' =
      ((is_valid r.addr.addr ≡ false) × Failed w rs w')
      ⊎ ((w1 : W) × Fails w r w1 × Failed w1 rs w')

  -- What each outcome says of the rounds over the candidates `cs`.
  abbrev pub Checked :
      List Candidate → List Candidate → W → W × Result (CheckError Err) (CheckResult Conn) → Type 0
  Checked locals cs w (w', ok res) =
      (pre post : List Candidate) × (w1 : W) × (cs ≡ pre ++ res.remote ∷ post)
      × Failed w pre w1
      × (is_valid res.remote.addr.addr ≡ true)
      × (dial_one dial_quic ctx_err e w1 res.remote ≡ (w', ok res.conn))
      × (res.local ≡ best_local locals)
  Checked locals cs w (w', err no_pair) = Failed w cs w'
  Checked locals cs w (w', err (ctx_done c)) =
      (pre post : List Candidate) × (r : Candidate) × (w1 : W) × (x : Err) × (cs ≡ pre ++ r ∷ post)
      × Failed w pre w1
      × (dial_one dial_quic ctx_err e w1 r ≡ (w', err x))
      × (ctx_err w' ≡ some c)

  abbrev Round : W → Candidate → W → Type 0
  Round w r w1 = ((is_valid r.addr.addr ≡ false) × (w ≡ w1)) ⊎ Fails w r w1

  Failed-step :
      (w w1 w2 : W) (r : Candidate) (rs : List Candidate)
      → Round w r w1
      → Failed w1 rs w2
      → Failed w (r ∷ rs) w2
  Failed-step w w1 w2 r rs (inl (bad, same)) f = inl (bad, subst (λ v. Failed v rs w2) (sym same) f)
  Failed-step w w1 w2 r rs (inr failed) f = inr (w1, failed, f)

  Checked-step :
      (locals cs : List Candidate) (r : Candidate) (w w1 : W)
      (out : W × Result (CheckError Err) (CheckResult Conn))
      → Round w r w1
      → Checked locals cs w1 out
      → Checked locals (r ∷ cs) w out
  Checked-step locals cs r w w1 (w', ok res) s (pre, post, w2, split, f, valid, dialled, best) =
      (r ∷ pre, post, w2, ap (◌∷◌ r) split, Failed-step w w1 w2 r pre s f, valid, dialled, best)
  Checked-step locals cs r w w1 (w', err no_pair) s f = Failed-step w w1 w' r cs s f
  Checked-step locals cs r w w1 (w', err (ctx_done c)) s
        (pre, post, d, w2, x, split, f, dialled, over) =
      (r ∷ pre, post, d, w2, x, ap (◌∷◌ r) split, Failed-step w w1 w2 r pre s f, dialled, over)

  check_loop-Checked :
      (locals cs : List Candidate) (w : W)
      → Checked locals cs w (check_loop dial_quic ctx_err e locals cs w)
  unfolding check_loop
  check_loop-Checked locals [] w = refl
  check_loop-Checked locals (r ∷ rs) w = elim (Bool-cases (is_valid r.addr.addr)) [
    | inr bad ↦ rw bad (
        Checked-step locals rs r w w (check_loop dial_quic ctx_err e locals rs w) (inl (bad, refl))
          (check_loop-Checked locals rs w))
    | inl good ↦ rw good (
        dialled_round locals r rs w good (dial_one dial_quic ctx_err e w r) refl
          (check_loop-Checked locals rs))
  ]
    where
      dialled_round :
          (locals : List Candidate) (r : Candidate) (rs : List Candidate) (w : W)
          → is_valid r.addr.addr ≡ true
          → (d : W × Result Err Conn) → dial_one dial_quic ctx_err e w r ≡ d
          → ((v : W) → Checked locals rs v (check_loop dial_quic ctx_err e locals rs v))
          → Checked locals
              (r ∷ rs)
              w
              (after_dial dial_quic ctx_err e locals r (check_loop dial_quic ctx_err e locals rs) d)
      dialled_round locals r rs w good (w1, ok conn) p ih = ([], rs, w, refl, refl, good, p, refl)
      dialled_round locals r rs w good (w1, err x) p ih = elim (Option-cases (ctx_err w1)) [
        | inl alive ↦
            rw (alive, after_dial)
              (Checked-step locals rs r w w1 (check_loop dial_quic ctx_err e locals rs w1)
                (inr (x, good, p, alive)) (ih w1))
        | inr (c, over) ↦ rw (over, after_dial) ([], rs, r, w, x, refl, refl, p, over)
      ]

  -- The result of Check tells its rounds. A connection comes from the first candidate, in the order
  -- of Sort, whose dial succeeds, all before it being invalid or having failed; ErrNoPair, from
  -- rounds on all candidates without success; a context's error, from a failed dial after which the
  -- context was over.
  pub check-Checked :
      (locals remotes : List Candidate) (w : W)
      → Checked locals (sort remotes) w (check dial_quic ctx_err e locals remotes w)
  unfolding check
  check-Checked locals remotes w = check_loop-Checked locals (sort remotes) w

  IsRanked-tail :
      (pre post : List Candidate) (r : Candidate)
      → IsRanked (pre ++ r ∷ post)
      → All (λ d. d.priority ≤ r.priority) post
  IsRanked-tail [] post r h = h.0
  IsRanked-tail (c ∷ pre) post r h = IsRanked-tail pre post r h.1

  -- The candidate that Check returns is one of the remotes, and each remote of a greater priority
  -- was tried before it without success.
  pub check_best :
      (locals remotes : List Candidate) (w w' : W) (res : CheckResult Conn)
      → check dial_quic ctx_err e locals remotes w ≡ (w', ok res)
      → (pre post : List Candidate) × (w1 : W) × Perm (pre ++ res.remote ∷ post) remotes
        × Failed w pre w1
        × All (λ d. d.priority ≤ res.remote.priority) post
  check_best locals remotes w w' res p =
      let (pre, post, w1, split, f, valid, dialled, best) =
        subst (Checked locals (sort remotes) w) p (check-Checked locals remotes w) in
      (
        pre,
        post,
        w1,
        subst (λ cs. Perm cs remotes) split (sort-perm remotes),
        f,
        IsRanked-tail pre post res.remote (subst IsRanked split (sort-IsRanked remotes)),
      )
