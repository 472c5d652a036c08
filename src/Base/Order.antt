-- ===== src/Base/Order.antt =====
-- What `order_by` does to the entries of a list: they stay, and stand by their rank.
use Prim.Native.Nat.{ℕ, ◌≤◌}
use mathlib.Core.Path.{◌≡◌, refl, ap, ◌∙◌}
use mathlib.Core.Logic.{inl, inr}
use mathlib.Core.Bool.{Bool, true, false, ◌||◌}
use mathlib.Core.List.{List, [], ◌∷◌}
use native.Mathlib.Omega.{arith}
use hilforge.Base.Tests.{Bool-cases}
use hilforge.Base.Lists.{any, insert_by, order_by, All, All-imp, All-insert_by}

-- No entry has a smaller rank than one before it.
abbrev pub Ascending {ℓ} : {A : Type ℓ} → (A → ℕ) → List A → Type 0
Ascending rank [] = Unit
Ascending rank (x ∷ xs) = All (λ y. rank x ≤ rank y) xs × Ascending rank xs

module _ {ℓ} {A : Type ℓ} (le : A → A → Bool) where
  any-insert_by :
      (p : A → Bool) (x : A) (xs : List A) → any p (insert_by le x xs) ≡ (p x || any p xs)
  unfolding insert_by
  any-insert_by p x [] = refl
  any-insert_by p x (y ∷ ys) = ground (arith, any-insert_by p x ys)

  pub any-order_by : (p : A → Bool) (xs : List A) → any p (order_by le xs) ≡ any p xs
  unfolding order_by
  any-order_by p [] = refl
  any-order_by p (x ∷ xs) =
      any-insert_by p x (order_by le xs) ∙ ap (λ b. p x || b) (any-order_by p xs)

  module _ (rank : A → ℕ) (may : (x y : A) → le x y ≡ true → rank x ≤ rank y)
      (must : (x y : A) → le x y ≡ false → rank y ≤ rank x) where
    insert_by-Ascending :
        (x : A) (xs : List A) → Ascending rank xs → Ascending rank (insert_by le x xs)
    unfolding insert_by
    insert_by-Ascending x [] a = (tt, tt)
    insert_by-Ascending x (y ∷ ys) a = elim (Bool-cases (le x y)) [
      | inl before ↦
          let l = may x y before in
          rw before ((l, All-imp _ _ ys (λ z (m : rank y ≤ rank z). omega (arith, l, m)) a.0), a)
      | inr after ↦
          rw after (All-insert_by _ le x ys (must x y after) a.0, insert_by-Ascending x ys a.1)
    ]

    pub order_by-Ascending : (xs : List A) → Ascending rank (order_by le xs)
    unfolding order_by
    order_by-Ascending [] = tt
    order_by-Ascending (x ∷ xs) = insert_by-Ascending x (order_by le xs) (order_by-Ascending xs)
