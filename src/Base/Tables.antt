-- ===== src/Base/Tables.antt =====
-- A table of the database: rows with a numeric key, found by it and written back under it.
use Prim.Native.Nat.{ℕ, ◌+◌}
use mathlib.Core.Path.{◌≡◌, refl, sym, subst, ◌∙◌}
use mathlib.Core.Logic.{◌≢◌, inl, inr}
use mathlib.Core.Bool.{Bool, true, false}
use mathlib.Core.Option.{Option, none, some, some-injective}
use mathlib.Core.List.{List, [], ◌∷◌, ◌++◌, map}
use native.Mathlib.Omega.{arith}
use hilforge.Base.Tests.{◌==◌, ==_iff, if◌then◌else◌, if_intro, Bool-cases}
use hilforge.Base.Lists.{
  All, All-map, All-of_map, All-append, All-insert_by, All-order_by, All-where, insert_by, order_by,
  where_true,
}

-- No key stands twice.
abbrev pub Distinct : List ℕ → Type 0
Distinct [] = Unit {0}
Distinct (k ∷ ks) = All (λ m. m ≢ k) ks × Distinct ks

module _ {ℓ} {A : Type ℓ} (key : A → ℕ) where
  -- `SELECT … WHERE key = k`, for at most one row.
  unfoldable pub find_by : ℕ → List A → Option A
  find_by k [] = none
  find_by k (x ∷ xs) = if key x == k then some x else find_by k xs

  -- Flushing a changed object: `UPDATE … WHERE key = …`. A row that is not there changes nothing.
  unfoldable pub put_by : A → List A → List A
  put_by x' [] = []
  put_by x' (x ∷ xs) = if key x == key x' then x' ∷ xs else x ∷ put_by x' xs

  abbrev pub sum_by : (A → ℕ) → List A → ℕ
  sum_by w [] = 0
  sum_by w (x ∷ xs) = w x + sum_by w xs

  pub find_by-key : (k : ℕ) (xs : List A) {x : A} → find_by k xs ≡ some x → key x ≡ k
  unfolding find_by
  find_by-key k [] h = cc
  find_by-key k (y ∷ xs) {x} h = ground (arith, find_by-key k xs {x = x})

  pub keys-put_by : (x' : A) (xs : List A) → map key (put_by x' xs) ≡ map key xs
  unfolding put_by
  keys-put_by x' [] = refl
  keys-put_by x' (x ∷ xs) = ground (arith, keys-put_by x' xs)

  -- What a row weighs is exchanged for what its new value weighs.
  pub sum_by-put_by :
      (w : A → ℕ) (x x' : A) (xs : List A)
      → find_by (key x') xs ≡ some x
      → sum_by w (put_by x' xs) + w x ≡ sum_by w xs + w x'
  unfolding find_by put_by
  sum_by-put_by w x x' [] h = cc
  sum_by-put_by w x x' (y ∷ xs) h = ground (arith, sum_by-put_by w x x' xs)

  pub find_by-put_by_self :
      (x x' : A) (xs : List A)
      → find_by (key x') xs ≡ some x
      → find_by (key x') (put_by x' xs) ≡ some x'
  unfolding find_by put_by
  find_by-put_by_self x x' [] h = cc
  find_by-put_by_self x x' (y ∷ xs) h = ground (arith, find_by-put_by_self x x' xs)

  pub find_by-put_by_ne :
      (k : ℕ) (x' : A) (xs : List A) → k ≢ key x' → find_by k (put_by x' xs) ≡ find_by k xs
  unfolding find_by put_by
  find_by-put_by_ne k x' [] h = refl
  find_by-put_by_ne k x' (y ∷ xs) h = ground (arith, find_by-put_by_ne k x' xs)

  pub sum_by-append : (w : A → ℕ) (xs ys : List A) → sum_by w (xs ++ ys) ≡ sum_by w xs + sum_by w ys
  sum_by-append w [] ys = omega arith
  sum_by-append w (x ∷ xs) ys = omega (arith, sum_by-append w xs ys)

  module _ {κ} (P : A → Type κ) where
    pick :
        (b : Bool) {x y : A} {o : Option A}
        → P y
        → (o ≡ some x → P x)
        → (if b then some y else o) ≡ some x
        → P x
    pick true {x} {y} py rest e = subst P (some-injective y x e) py
    pick false py rest e = rest e

    pub All-find_by : (k : ℕ) (xs : List A) {x : A} → All P xs → find_by k xs ≡ some x → P x
    unfolding find_by
    All-find_by k [] h e = cc
    All-find_by k (y ∷ xs) {x} h e = pick (key y == k) h.0 (All-find_by k xs {x = x} h.1) e

    pub All-put_by : (x' : A) (xs : List A) → All P xs → P x' → All P (put_by x' xs)
    unfolding put_by
    All-put_by x' [] h p = tt
    All-put_by x' (x ∷ xs) h p =
        if_intro (All P) (key x == key x') (p, h.1) (h.0, All-put_by x' xs h.1 p)

  -- A row written under a key that stands once: the others need the property under other keys only.
  pub All-put_by_ne {κ} :
      (P : A → Type κ) (x' : A) (xs : List A)
      → Distinct (map key xs)
      → All (λ x. key x ≢ key x' → P x) xs
      → P x'
      → All P (put_by x' xs)
  unfolding put_by
  All-put_by_ne P x' [] d h p = tt
  All-put_by_ne P x' (x ∷ xs) d h p = elim (Bool-cases (key x == key x')) [
    | inl e ↦ rw e (p, others xs ((==_iff _ _).0 e) d.0 h.1)
    | inr e ↦ rw e (h.0 (ground arith), All-put_by_ne P x' xs d.1 h.1 p)
  ]
    where
      others :
          (ys : List A)
          → key x ≡ key x'
          → All (λ m. m ≢ key x) (map key ys)
          → All (λ y. key y ≢ key x' → P y) ys
          → All P ys
      others [] e d h = tt
      others (y ∷ ys) e d h = (h.0 (λ q. d.0 (q ∙ sym e)), others ys e d.1 h.1)

  -- Rows that are there are found under their keys.
  pub All-find_by_self :
      (xs : List A) → Distinct (map key xs) → All (λ x. find_by (key x) xs ≡ some x) xs
  unfolding find_by
  All-find_by_self [] d = tt
  All-find_by_self (x ∷ xs) d = (ground arith, past xs (All-find_by_self xs d.1) d.0)
    where
      past :
          (ys : List A)
          → All (λ y. find_by (key y) xs ≡ some y) ys
          → All (λ m. m ≢ key x) (map key ys)
          → All (λ y. (if key x == key y then some x else find_by (key y) xs) ≡ some y) ys
      past [] h n = tt
      past (y ∷ ys) h n = (ground arith, past ys h.1 n.1)

  pub Distinct-put_by :
      (x' : A) (xs : List A) → Distinct (map key xs) → Distinct (map key (put_by x' xs))
  Distinct-put_by x' xs d = rw (keys-put_by x' xs) d

  pub Distinct-where :
      (p : A → Bool) (xs : List A) → Distinct (map key xs) → Distinct (map key (where_true p xs))
  Distinct-where p [] d = tt
  Distinct-where p (x ∷ xs) d =
      if_intro (λ ys. Distinct (map key ys)) (p x)
        (
          All-map (λ m. m ≢ key x) key _
              (All-where _ p xs (All-of_map (λ m. m ≢ key x) key xs d.0)),
          Distinct-where p xs d.1,
        )
        (Distinct-where p xs d.1)

  Distinct-insert_by :
      (le : A → A → Bool) (x : A) (ys : List A)
      → All (λ m. m ≢ key x) (map key ys)
      → Distinct (map key ys)
      → Distinct (map key (insert_by le x ys))
  unfolding insert_by
  Distinct-insert_by le x [] n d = (tt, tt)
  Distinct-insert_by le x (y ∷ ys) n d =
      if_intro (λ zs. Distinct (map key zs)) (le x y) (n, d)
        (
          All-map (λ m. m ≢ key y) key _
              (All-insert_by _ le x ys (λ e. n.0 (sym e)) (All-of_map (λ m. m ≢ key y) key ys d.0)),
          Distinct-insert_by le x ys n.1 d.1,
        )

  pub Distinct-order_by :
      (le : A → A → Bool) (xs : List A)
      → Distinct (map key xs)
      → Distinct (map key (order_by le xs))
  unfolding order_by
  Distinct-order_by le [] d = tt
  Distinct-order_by le (x ∷ xs) d =
      Distinct-insert_by le x (order_by le xs)
        (All-map (λ m. m ≢ key x) key _
          (All-order_by _ le xs (All-of_map (λ m. m ≢ key x) key xs d.0)))
        (Distinct-order_by le xs d.1)

  -- A row with a fresh key at the end.
  pub Distinct-append :
      (xs : List A) (x : A)
      → All (λ y. key y ≢ key x) xs
      → Distinct (map key xs)
      → Distinct (map key (xs ++ x ∷ []))
  Distinct-append [] x n d = (tt, tt)
  Distinct-append (y ∷ xs) x n d = (
    All-map (λ m. m ≢ key y) key _
        (All-append _ xs (x ∷ []) (All-of_map (λ m. m ≢ key y) key xs d.0) (λ e. n.0 (sym e), tt)),
    Distinct-append xs x n.1 d.1,
  )
