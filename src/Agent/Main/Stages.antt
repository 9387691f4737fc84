-- ===== src/Agent/Main/Stages.antt =====
-- Rules for the stages of main: what each call needs of a state, along the trace.
use outrelay_agent.Base.{
  zero, suc, Bool, true, false, if◌then◌else◌, refl, sym, subst, ℕ, Bool, true, false, ◌≡◌, ok, err,
  List, [], ◌∷◌, ◌++◌,
}
use outrelay_agent.Agent.Main.{Action, Stage, and_then, doing}

-- An exit code that is not 0.
abbrev pub is_failure : ℕ → Bool
is_failure zero = false
is_failure (suc n) = true

module _ {S : Type 0} (after : S → Action → S) (needs : S → Action → Type 0) where
  abbrev pub after_all : S → List Action → S
  after_all s [] = s
  after_all s (a ∷ acts) = after_all (after s a) acts

  -- Each call of the trace finds what it needs.
  abbrev pub Allowed : S → List Action → Type 0
  Allowed s [] = Unit {0}
  Allowed s (a ∷ acts) = needs s a × Allowed (after s a) acts

  pub Allowed-append :
      (s : S) (acts more : List Action)
      → Allowed s acts
      → Allowed (after_all s acts) more
      → Allowed s (acts ++ more)
  Allowed-append s [] more p q = q
  Allowed-append s (a ∷ acts) more p q = (p.0, Allowed-append (after s a) acts more p.1 q)

  pub after_all-append :
      (s : S) (acts more : List Action)
      → after_all s (acts ++ more) ≡ after_all (after_all s acts) more
  after_all-append s [] more = refl
  after_all-append s (a ∷ acts) more = after_all-append (after s a) acts more

  -- The trace is allowed from `s`, and a value that it goes on with has `post` in the last state; its
  -- exit codes are failures.
  pub record Runs {A : Type 0} (s : S) (st : Stage A) (post : A → S → Type 0) : Type 0 where
    pub allowed : Allowed s st.0
    pub reaches : (a : A) → st.1 ≡ ok a → post a (after_all s st.0)
    pub fails : (code : ℕ) → st.1 ≡ err code → is_failure code ≡ true

  pub stops :
      {A : Type 0} (s : S) (code : ℕ) (post : A → S → Type 0)
      → is_failure code ≡ true
      → Runs s ([], err code) post
  stops s code post p = record { allowed = tt; reaches = λ a e. cc; fails = λ c e. cc }

  pub goes_on :
      {A : Type 0} (s : S) (a : A) (post : A → S → Type 0) → post a s → Runs s ([], ok a) post
  goes_on s a post p = record {
    allowed = tt;
    reaches = λ b e. subst (λ x. post x s) (cc) p;
    fails = λ c e. cc;
  }

  pub and_then-Runs :
      {A B : Type 0} (s : S) (st : Stage A) (next : A → Stage B) (mid : A → S → Type 0)
      (post : B → S → Type 0)
      → Runs s st mid
      → ((a : A) (t : S) → mid a t → Runs t (next a) post)
      → Runs s (and_then st next) post
  unfolding and_then
  and_then-Runs s (acts, err code) next mid post first rest = record {
    allowed = first.allowed;
    reaches = λ b e. cc;
    fails = λ c e. first.fails c (cc);
  }
  and_then-Runs s (acts, ok a) next mid post first rest =
      let then_ : Runs (after_all s acts) (next a) post =
        rest a (after_all s acts) (first.reaches a refl) in
      record {
        allowed = Allowed-append s acts (next a).0 first.allowed then_.allowed;
        reaches =
            λ b e. subst (post b) (sym (after_all-append s acts (next a).0)) (then_.reaches b e);
        fails = then_.fails;
      }

  pub if-Runs :
      {A : Type 0} (s : S) (b : Bool) (x y : Stage A) (post : A → S → Type 0)
      → Runs s x post
      → Runs s y post
      → Runs s (if b then x else y) post
  if-Runs s true x y post p q = p
  if-Runs s false x y post p q = q

  -- The same, where a branch knows its test.
  pub branch-Runs :
      {A : Type 0} (s : S) (b : Bool) (x y : Stage A) (post : A → S → Type 0)
      → (b ≡ true → Runs s x post)
      → (b ≡ false → Runs s y post)
      → Runs s (if b then x else y) post
  branch-Runs s true x y post p q = p refl
  branch-Runs s false x y post p q = q refl

  pub Allowed-if :
      {A : Type 0} (s : S) (b : Bool) (x y : Stage A)
      → Allowed s x.0
      → Allowed s y.0
      → Allowed s (if b then x else y).0
  Allowed-if s true x y p q = p
  Allowed-if s false x y p q = q

  pub doing-Runs :
      {A : Type 0} (s : S) (a : Action) (st : Stage A) (post : A → S → Type 0)
      → needs s a
      → Runs (after s a) st post
      → Runs s (doing a st) post
  unfolding doing
  doing-Runs s a st post p rest = record {
    allowed = (p, rest.allowed);
    reaches = rest.reaches;
    fails = rest.fails;
  }
