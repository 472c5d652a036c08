-- ===== src/Text/Split.antt =====
-- Splitting undoes joining, and words hold no white space.
use hilforge.Base.{
  ℕ, ◌≡◌, ◌≢◌, refl, ap, ◌∙◌, List, [], ◌∷◌, ◌++◌, arith, All, All-where, Bool-cases, inl, inr,
  false,
}
use hilforge.Text.{Codes, split_on, join, is_space, split_at_spaces, prepend, words}

split_on-word : (sep : ℕ) (w : Codes) → All (λ c. c ≢ sep) w → split_on sep w ≡ w ∷ []
unfolding split_on
split_on-word sep [] n = refl
split_on-word sep (c ∷ w) n = ground (arith, split_on-word sep w n.1)

split_on-append :
    (sep : ℕ) (w rest : Codes)
    → All (λ c. c ≢ sep) w
    → split_on sep (w ++ (sep ∷ rest)) ≡ w ∷ split_on sep rest
unfolding split_on
split_on-append sep [] rest n = ground arith
split_on-append sep (c ∷ w) rest n = ground (arith, split_on-append sep w rest n.1)

-- Words that are joined by a separator that none of them holds are split into the same words.
pub split_on-join :
    (sep : ℕ) (w : Codes) (ws : List Codes)
    → All (All (λ c. c ≢ sep)) (w ∷ ws)
    → split_on sep (join sep (w ∷ ws)) ≡ w ∷ ws
unfolding join
split_on-join sep w [] n = split_on-word sep w n.0
split_on-join sep w (v ∷ ws) n =
    split_on-append sep w (join sep (v ∷ ws)) n.0
    ∙ ap (λ (l : List Codes). w ∷ l) (split_on-join sep v ws n.1)

prepend-black :
    (c : ℕ) (ws : List Codes)
    → is_space c ≡ false
    → All (All (λ d. is_space d ≡ false)) ws
    → All (All (λ d. is_space d ≡ false)) (prepend c ws)
unfolding prepend
prepend-black c [] n h = ((n, tt), tt)
prepend-black c (w ∷ ws) n h = ((n, h.0), h.1)

split_at_spaces-black : (s : Codes) → All (All (λ d. is_space d ≡ false)) (split_at_spaces s)
unfolding split_at_spaces
split_at_spaces-black [] = (tt, tt)
split_at_spaces-black (c ∷ s) = elim (Bool-cases (is_space c)) [
  | inl space ↦ rw space (tt, split_at_spaces-black s)
  | inr black ↦ rw black (prepend-black c (split_at_spaces s) black (split_at_spaces-black s))
]

pub words-black : (s : Codes) → All (All (λ d. is_space d ≡ false)) (words s)
unfolding words
words-black s = All-where _ _ (split_at_spaces s) (split_at_spaces-black s)
