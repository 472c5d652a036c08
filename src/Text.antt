-- ===== src/Text.antt =====
-- Texts as lists of code points, and the methods of `str` that the program computes with.
pub mod Split
use hilforge.Base.{
  ℕ, ◌+◌, ◌<◌, Bool, true, false, List, [], ◌∷◌, ◌++◌, map, leb, ◌==◌, ◌&&◌, ◌||◌, if◌then◌else◌,
  ◌≡◌, refl, ap, arith, not, where_true,
}
use Prim.Native.Nat.{compare, Ordering}
use Prim.Native.Char.{Char, code}
use Prim.Native.String.{String}

abbrev pub Codes : Type 0
Codes = List ℕ

abbrev pub codes : String → Codes
codes String.[] = []
codes (String.◌∷◌ c s) = code c ∷ codes s

-- Equality.
abbrev pub codes_eq : Codes → Codes → Bool
codes_eq [] [] = true
codes_eq [] (d ∷ t) = false
codes_eq (c ∷ s) [] = false
codes_eq (c ∷ s) (d ∷ t) = c == d && codes_eq s t

pub codes_eq-eq : (s t : Codes) → codes_eq s t ≡ true → s ≡ t
codes_eq-eq [] [] h = refl
codes_eq-eq [] (d ∷ t) h = cc
codes_eq-eq (c ∷ s) [] h = cc
codes_eq-eq (c ∷ s) (d ∷ t) h = ground (arith, codes_eq-eq s t)

-- `isspace` of one character.
unfoldable pub is_space : ℕ → Bool
is_space c =
    (leb 9 c && leb c 13)
    || (leb 28 c && leb c 32)
    || c == 0x85
    || c == 0xa0
    || c == 0x1680
    || (leb 0x2000 c && leb c 0x200a)
    || c == 0x2028
    || c == 0x2029
    || c == 0x202f
    || c == 0x205f
    || c == 0x3000

unfoldable pub lstrip : Codes → Codes
unfolding is_space
lstrip [] = []
lstrip (c ∷ s) = if is_space c then lstrip s else c ∷ s

is_empty : Codes → Bool
is_empty [] = true
is_empty (c ∷ s) = false

unfoldable pub rstrip : Codes → Codes
unfolding is_space is_empty
rstrip [] = []
rstrip (c ∷ s) = let rest = rstrip s in if is_space c && is_empty rest then [] else c ∷ rest

unfoldable pub strip : Codes → Codes
unfolding lstrip rstrip
strip s = rstrip (lstrip s)

-- `lower` on the letters of ASCII; no other character becomes a letter of a word that the program
-- compares with.
unfoldable pub lower : Codes → Codes
lower = map (λ c. if leb b'A' c && leb c b'Z' then c + 32 else c)

prepend : ℕ → List Codes → List Codes
prepend c [] = (c ∷ []) ∷ []
prepend c (w ∷ ws) = (c ∷ w) ∷ ws

-- `s.split(sep)` for a separator of one character.
unfoldable pub split_on : ℕ → Codes → List Codes
unfolding prepend
split_on sep [] = [] ∷ []
split_on sep (c ∷ s) = let rest = split_on sep s in if c == sep then [] ∷ rest else prepend c rest

-- `sep.join(words)`.
unfoldable pub join : ℕ → List Codes → Codes
join sep [] = []
join sep (w ∷ []) = w
join sep (w ∷ v ∷ ws) = w ++ (sep ∷ join sep (v ∷ ws))

-- The order of texts.
unfoldable pub compare_codes : Codes → Codes → Ordering
compare_codes [] [] = Ordering.eq
compare_codes [] (d ∷ t) = Ordering.lt
compare_codes (c ∷ s) [] = Ordering.gt
compare_codes (c ∷ s) (d ∷ t) = elim (compare c d) [
  | Ordering.lt ↦ Ordering.lt
  | Ordering.gt ↦ Ordering.gt
  | Ordering.eq ↦ compare_codes s t
]

-- `s.split()`: the words between white space, the empty ones left out.
split_at_spaces : Codes → List Codes
unfolding prepend is_space
split_at_spaces [] = [] ∷ []
split_at_spaces (c ∷ s) =
    let rest = split_at_spaces s in if is_space c then [] ∷ rest else prepend c rest

unfoldable pub words : Codes → List Codes
unfolding split_at_spaces is_empty
words s = where_true (λ w. not (is_empty w)) (split_at_spaces s)

-- `s.replace(old, new)` for single characters.
unfoldable pub replace : ℕ → ℕ → Codes → Codes
replace old new [] = []
replace old new (c ∷ s) = (if c == old then new else c) ∷ replace old new s
