-- ===== src/Strings.antt =====
-- What the agent uses of Go's package strings, on texts as their code points. Unicode's lower-case
-- table above ASCII is a parameter, `fold`.
pub mod Laws
use outrelay_agent.Base.{
  ℕ, ◌+◌, ◌-◌, Bool, true, false, ◌&&◌, ◌||◌, ◌==◌, ltb, leb, if◌then◌else◌, List, [], ◌∷◌, map,
  reverse, Text, text_beq, length, take, drop, Option, none, some,
}

unfoldable pub lower_code : (ℕ → ℕ) → ℕ → ℕ
lower_code fold c = if ltb c 128 then (if leb b'A' c && leb c b'Z' then c + 32 else c) else fold c

unfoldable pub to_lower : (ℕ → ℕ) → Text → Text
to_lower fold s = map (lower_code fold) s

-- `unicode.IsSpace`.
unfoldable pub is_space : ℕ → Bool
is_space c =
    (leb 9 c && leb c 13)
    || c == 32
    || c == 0x85
    || c == 0xa0
    || c == 0x1680
    || (leb 0x2000 c && leb c 0x200a)
    || c == 0x2028
    || c == 0x2029
    || c == 0x202f
    || c == 0x205f
    || c == 0x3000

unfoldable pub skip_space : Text → Text
unfolding is_space
skip_space [] = []
skip_space (c ∷ s) = let rest = skip_space s in if is_space c then rest else c ∷ s

unfoldable pub trim_space : Text → Text
unfolding skip_space
trim_space s = reverse (skip_space (reverse (skip_space s)))

unfoldable pub has_prefix : Text → Text → Bool
has_prefix s p = leb (length p) (length s) && text_beq (take (length p) s) p

unfoldable pub has_suffix : Text → Text → Bool
has_suffix s t = leb (length t) (length s) && text_beq (drop (length s - length t) s) t

unfoldable pub trim_suffix : Text → Text → Text
unfolding has_suffix
trim_suffix s t = if has_suffix s t then take (length s - length t) s else s

-- `strings.Cut` at a separator of one character.
unfoldable pub cut : Text → ℕ → Option (Text × Text)
cut [] sep = none
cut (c ∷ s) sep =
    let rest = cut s sep in
    if c == sep
    then some ([], s)
    else elim rest [ none ↦ none | some (before, after) ↦ some (c ∷ before, after) ]

-- `strings.Split` at a separator of one character: it has one part more than separators.
unfoldable pub split : Text → ℕ → List Text
split [] sep = [] ∷ []
split (c ∷ s) sep =
    let rest = split s sep in
    if c == sep
    then [] ∷ rest
    else elim rest [ [] ↦ (c ∷ []) ∷ [] | part ∷ parts ↦ (c ∷ part) ∷ parts ]
