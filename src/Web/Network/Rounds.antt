-- ===== src/Web/Network/Rounds.antt =====
-- What a round of the loop over the interfaces appends.
use hilforge.Base.{
  ℕ, ◌≤◌, Ascending, All-map, arith, ◌≡◌, ◌⊎◌, refl, ap, ◌∙◌, Bool, true, false, Option, none, some,
  List, [], ◌∷◌, map, ◌&&◌, ◌||◌, not, any, where_true, order_by, is_some, any-order_by, All,
  Bool-cases, Option-cases, inl, inr,
}
use hilforge.Text.{Codes}
use hilforge.Web.Network.{
  AddressLibrary, Listed, Useful, priority_of, is_virtual, is_routed, consider, useful, may_precede,
}

-- An interface is shown for its name, and for an address that others can reach.
unfoldable pub is_primary : AddressLibrary → Listed → Bool
is_primary lib (name, addresses) =
    is_some (priority_of (lib.casefold name))
    && not (is_virtual (lib.casefold name))
    && any (is_routed lib) addresses

-- What is shown of it.
abbrev pub shown_of : AddressLibrary → Listed → Listed
shown_of lib (name, addresses) = (name, where_true (is_routed lib) addresses)

abbrev pub rank_of : Option ℕ → ℕ
rank_of none = 0
rank_of (some priority) = priority

-- The rank of a name: 0 for wireless, 1 for wired.
abbrev pub rank : AddressLibrary → Listed → ℕ
rank lib interface = rank_of (priority_of (lib.casefold interface.0))

any-map :
    (p : Listed → Bool) (us : List Useful)
    → any p (map (λ u. (u.name, u.routed)) us) ≡ any (λ u. p (u.name, u.routed)) us
any-map p [] = refl
any-map p (u ∷ us) = ap (λ b. p (u.name, u.routed) || b) (any-map p us)

pub any-where :
    (p : Codes → Bool) (xs : List Codes)
    → ((where_true p xs ≡ []) × (any p xs ≡ false))
      ⊎ ((a : Codes) × (more : List Codes) × (where_true p xs ≡ a ∷ more) × (any p xs ≡ true))
any-where p [] = inl (refl, refl)
any-where p (x ∷ xs) = elim (Bool-cases (p x)) [
  | inl kept ↦ inr (x, where_true p xs, rw kept refl, rw kept refl)
  | inr dropped ↦ elim (any-where p xs) [
    | inl (e, n) ↦ inl (rw dropped e, rw dropped n)
    | inr (a, more, e, y) ↦ inr (a, more, rw dropped e, rw dropped y)
  ]
]

-- A round passes an interface over, or appends what is shown of it with its rank.
pub consider_lem :
    (lib : AddressLibrary) (i : Listed) (rest : List Useful)
    → ((is_primary lib i ≡ false) × (consider lib i rest ≡ rest))
      ⊎ ((u : Useful) × (is_primary lib i ≡ true)
          × (consider lib i rest ≡ u ∷ rest)
          × ((u.name, u.routed) ≡ shown_of lib i)
          × (rank lib (u.name, u.routed) ≡ u.priority))
unfolding is_primary consider
consider_lem lib (name, addresses) rest = elim (Option-cases (priority_of (lib.casefold name))) [
  | inl unknown ↦ inl (rw unknown refl, rw unknown refl)
  | inr (priority, e) ↦ elim (Bool-cases (is_virtual (lib.casefold name))) [
    | inl virtual ↦ inl (rw (e, virtual) refl, rw e (rw virtual refl))
    | inr physical ↦ elim (any-where (is_routed lib) addresses) [
      | inl (none_left, n) ↦ inl (rw (e, physical) n, rw e (rw physical (rw none_left refl)))
      | inr (a, more, kept, y) ↦ inr (
        record { priority = priority; name = name; routed = a ∷ more },
        rw (e, physical) y,
        rw e (rw physical (rw kept refl)),
        rw kept refl,
        rw e refl,
      )
    ]
  ]
]

any-useful :
    (lib : AddressLibrary) (p : Listed → Bool) (interfaces : List Listed)
    → any (λ u. p (u.name, u.routed)) (useful lib interfaces)
      ≡ any (λ i. is_primary lib i && p (shown_of lib i)) interfaces
unfolding useful
any-useful lib p [] = refl
any-useful lib p (i ∷ is) = elim (consider_lem lib i (useful lib is)) [
  | inl (passed, e) ↦ rw e (rw passed (any-useful lib p is))
  | inr (u, kept, e, same, r) ↦
      rw e (rw kept (rw same (ap (λ b. p (shown_of lib i) || b) (any-useful lib p is))))
]

-- Whatever one asks of an entry.
pub any-shown :
    (lib : AddressLibrary) (interfaces : List Listed) (p : Listed → Bool)
    → any p (map (λ u. (u.name, u.routed)) (order_by may_precede (useful lib interfaces)))
      ≡ any (λ i. is_primary lib i && p (shown_of lib i)) interfaces
any-shown lib interfaces p =
    any-map p (order_by may_precede (useful lib interfaces))
    ∙ any-order_by may_precede (λ u. p (u.name, u.routed)) (useful lib interfaces)
    ∙ any-useful lib p interfaces

pub useful-rank :
    (lib : AddressLibrary) (interfaces : List Listed)
    → All (λ u. rank lib (u.name, u.routed) ≡ u.priority) (useful lib interfaces)
unfolding useful
useful-rank lib [] = tt
useful-rank lib (i ∷ is) = elim (consider_lem lib i (useful lib is)) [
  | inl (passed, e) ↦ rw e (useful-rank lib is)
  | inr (u, kept, e, same, r) ↦ rw e (r, useful-rank lib is)
]

pub may_precede-rank :
    (u v : Useful)
    → ((may_precede u v ≡ true → u.priority ≤ v.priority)
        × (may_precede u v ≡ false → v.priority ≤ u.priority))
unfolding may_precede
may_precede-rank u v = (λ e. ground arith, λ e. ground arith)

pub All-with {ℓ κ μ ν} :
    {A : Type ℓ} (P : A → Type κ) (Q : A → Type μ) (R : A → Type ν)
    → ((x : A) → P x → Q x → R x)
    → (xs : List A) → All P xs
    → All Q xs
    → All R xs
All-with P Q R f [] p q = tt
All-with P Q R f (x ∷ xs) p q = (f x p.0 q.0, All-with P Q R f xs p.1 q.1)

pub Ascending-shown :
    (lib : AddressLibrary) (us : List Useful)
    → All (λ u. rank lib (u.name, u.routed) ≡ u.priority) us
    → Ascending (λ u. u.priority) us
    → Ascending (rank lib) (map (λ u. (u.name, u.routed)) us)
Ascending-shown lib [] r a = tt
Ascending-shown lib (u ∷ us) r a = (
  All-map _ _ us (
      All-with (λ v. rank lib (v.name, v.routed) ≡ v.priority) (λ v. u.priority ≤ v.priority) _
        (λ v e l. rw (r.0, e) l) us r.1 a.0),
  Ascending-shown lib us r.1 a.1,
)
