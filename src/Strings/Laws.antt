-- ===== src/Strings/Laws.antt =====
-- Suffixes taken off and put on, and lower case.
use mathlib.Core.List.{map-append}
use outrelay_agent.Base.{
  ℕ, zero, suc, ◌==◌, leb, ◌&&◌, ◌-◌, ◌≤◌, ◌≡◌, ◌≢◌, refl, sym, ap, ◌∙◌, true, List, [], ◌∷◌, ◌++◌,
  map, Text, text_beq, text_beq_iff, length, take, drop, length-append, take-append-drop, arith,
  Bool-cases, inl, inr,
}
use outrelay_agent.Strings.{lower_code, to_lower, has_suffix, trim_suffix}

module _ {ℓ} {A : Type ℓ} where
  pub drop-length : (s t : List A) → drop (length s) (s ++ t) ≡ t
  drop-length [] t = refl
  drop-length (x ∷ s) t = drop-length s t

  pub take-length : (s t : List A) → take (length s) (s ++ t) ≡ s
  take-length [] t = refl
  take-length (x ∷ s) t = rw (take-length s t)

  before_suffix : (s t : List A) → length (s ++ t) - length t ≡ length s
  before_suffix s t = omega (arith, length-append s t)

pub has_suffix-append : (s t : Text) → has_suffix (s ++ t) t ≡ true
unfolding has_suffix
has_suffix-append s t =
    rw (before_suffix s t, drop-length s t) (ground (arith, length-append s t, text_beq_iff t t))

pub trim_suffix-append : (s t : Text) → trim_suffix (s ++ t) t ≡ s
unfolding trim_suffix
trim_suffix-append s t = rw (has_suffix-append s t, before_suffix s t) (take-length s t)

-- A text with a suffix is what is left without it, and the suffix.
pub has_suffix_split : (s t : Text) → has_suffix s t ≡ true → take (length s - length t) s ++ t ≡ s
unfolding has_suffix
has_suffix_split s t h =
    let e : drop (length s - length t) s ≡ t =
      (text_beq_iff (drop (length s - length t) s) t).0 (ground arith) in
    ap (◌++◌ (take (length s - length t) s)) (sym e) ∙ take-append-drop (length s - length t) s

pub length-map {ℓ κ} :
    {A : Type ℓ} {B : Type κ} (f : A → B) (s : List A) → length (map f s) ≡ length s
length-map f [] = refl
length-map f (x ∷ s) = ap suc (length-map f s)

pub map-take {ℓ κ} :
    {A : Type ℓ} {B : Type κ} (f : A → B) (n : ℕ) (s : List A) → map f (take n s) ≡ take n (map f s)
map-take f zero s = refl
map-take f (suc n) [] = refl
map-take f (suc n) (x ∷ s) = ap (◌∷◌ (f x)) (map-take f n s)

map-drop {ℓ κ} :
    {A : Type ℓ} {B : Type κ} (f : A → B) (n : ℕ) (s : List A) → map f (drop n s) ≡ drop n (map f s)
map-drop f zero s = refl
map-drop f (suc n) [] = refl
map-drop f (suc n) (x ∷ s) = map-drop f n s

-- What is used of Unicode's lower-case table: its values are lower case, and none is a dot.
pub record IsLowerTable (fold : ℕ → ℕ) : Type 0 where
  pub stable : (c : ℕ) → 128 ≤ c → lower_code fold (fold c) ≡ fold c
  pub no_dot : (c : ℕ) → 128 ≤ c → fold c ≢ b'.'

module _ (fold : ℕ → ℕ) (table : IsLowerTable fold) where
  lower_code_stable : (c : ℕ) → lower_code fold (lower_code fold c) ≡ lower_code fold c
  unfolding lower_code
  lower_code_stable c = ground (arith, table.stable c)

  pub to_lower-to_lower : (s : Text) → to_lower fold (to_lower fold s) ≡ to_lower fold s
  unfolding to_lower
  to_lower-to_lower [] = refl
  to_lower-to_lower (c ∷ s) = λ i. lower_code_stable c i ∷ to_lower-to_lower s i

  -- A part of a lower-case text is in lower case.
  pub to_lower-take : (n : ℕ) (s : Text) → to_lower fold s ≡ s → to_lower fold (take n s) ≡ take n s
  unfolding to_lower
  to_lower-take n s e = map-take (lower_code fold) n s ∙ ap (take n) e

  lower_dot : (c : ℕ) → (lower_code fold c == b'.') ≡ (c == b'.')
  unfolding lower_code
  lower_dot c = ground (arith, table.no_dot c)

  is_dot-to_lower : (d : Text) → text_beq (to_lower fold d) (b'.' ∷ []) ≡ text_beq d (b'.' ∷ [])
  unfolding to_lower
  is_dot-to_lower [] = refl
  is_dot-to_lower (c ∷ []) = ap (λ b. b && true) (lower_dot c)
  is_dot-to_lower (c ∷ x ∷ d) = ground (arith, lower_dot c)

  has_dot-to_lower :
      (s : Text) → has_suffix (to_lower fold s) (b'.' ∷ []) ≡ has_suffix s (b'.' ∷ [])
  unfolding has_suffix to_lower
  has_dot-to_lower s =
      rw (length-map (lower_code fold) s, ← map-drop (lower_code fold) (length s - 1) s)
        (ap (λ b. leb 1 (length s) && b) (is_dot-to_lower (drop (length s - 1) s)))

  -- Lower case and the trailing dot do not interfere.
  pub to_lower-trim_dot :
      (s : Text)
      → to_lower fold (trim_suffix s (b'.' ∷ [])) ≡ trim_suffix (to_lower fold s) (b'.' ∷ [])
  unfolding trim_suffix to_lower
  to_lower-trim_dot s = elim (Bool-cases (has_suffix s (b'.' ∷ []))) [
    | inl dot ↦
        rw (dot, has_dot-to_lower s, dot, length-map (lower_code fold) s)
          (map-take (lower_code fold) (length s - 1) s)
    | inr bare ↦ rw (bare, has_dot-to_lower s, bare)
  ]

pub to_lower-append :
    (fold : ℕ → ℕ) (s t : Text) → to_lower fold (s ++ t) ≡ to_lower fold s ++ to_lower fold t
unfolding to_lower
to_lower-append fold s t = map-append (lower_code fold) s t

pub lower_after_dot :
    (fold : ℕ → ℕ) (s : Text) → to_lower fold s ≡ s → to_lower fold (b'.' ∷ s) ≡ b'.' ∷ s
unfolding to_lower lower_code
lower_after_dot fold s e = ap (◌∷◌ b'.') e
