-- ===== src/Web/Network/Shown.antt =====
-- Which interfaces the page shows, and in which order.
use hilforge.Base.{
  ◌≡◌, ◌⊎◌, ◌≤◌, refl, ◌∙◌, Bool, true, false, List, [], ◌∷◌, map, ◌&&◌, ◌||◌, any, where_true,
  order_by, arith, Ascending, order_by-Ascending, All, All-map, All-order_by, Bool-cases, all,
  length, ◌<◌, All-imp, All-where, All-where_imp, All-intro, subst, sym, inl, inr,
}
use hilforge.Text.{Codes, codes_eq}
use hilforge.Web.Network.Names.{
  IsWireless, IsWired, IsVirtual, priority_of-cases, is_virtual-IsVirtual,
}
use hilforge.Web.Network.Addresses.{IsRouted, is_routed-IsRouted}
use hilforge.Web.Network.{
  AddressLibrary, Listed, is_virtual, is_routed, useful, may_precede, primary_network_addresses,
}
use hilforge.Web.Network.Rounds.{
  may_precede-rank, Ascending-shown, All-with, is_primary, shown_of, rank, any-where, consider_lem,
  useful-rank, any-shown,
}

-- What the page promises of an entry: the name is wireless or wired and not virtual, the entry is that
-- of an interface, with some of its addresses and at least one, and each can be reached.
abbrev pub IsShownFor : AddressLibrary → List Listed → Listed → Type 0
IsShownFor lib interfaces (name, addresses) =
    (IsWireless (lib.casefold name) ⊎ IsWired (lib.casefold name))
    × ¬ IsVirtual (lib.casefold name)
    × (0 < length addresses)
    × All (IsRouted lib) addresses
    × (any (λ i. codes_eq i.0 name && all (λ a. any (codes_eq a) i.1) addresses) interfaces ≡ true)

-- An address of an interface is shown under its name.
abbrev pub Shows : List Listed → Codes → Codes → Type 0
Shows shown name address = any (λ s. codes_eq s.0 name && any (codes_eq address) s.1) shown ≡ true

-- After an entry that is not wireless none is.
abbrev pub WirelessFirst : AddressLibrary → List Listed → Type 0
WirelessFirst lib [] = Unit
WirelessFirst lib (s ∷ shown) =
    (¬ IsWireless (lib.casefold s.0) → All (λ t. ¬ IsWireless (lib.casefold t.0)) shown)
    × WirelessFirst lib shown

codes_eq_refl : (s : Codes) → codes_eq s s ≡ true
codes_eq_refl [] = refl
codes_eq_refl (c ∷ s) = ground (arith, codes_eq_refl s)

-- What the tests say is what the predicates say.
primary_name :
    (lib : AddressLibrary) (i : Listed)
    → is_primary lib i ≡ true
    → (IsWireless (lib.casefold i.0) ⊎ IsWired (lib.casefold i.0))
      × ¬ IsVirtual (lib.casefold i.0)
      × (any (is_routed lib) i.1 ≡ true)
unfolding is_primary
primary_name lib (name, addresses) h =
    let label = lib.casefold name in
    let virtual : is_virtual label ≡ false = ground (arith, h) in
    let not_virtual : ¬ IsVirtual label = λ v. let t = (is_virtual-IsVirtual label).1 v in cc in
    let some_routed : any (is_routed lib) addresses ≡ true = ground (arith, h) in
    elim (priority_of-cases label) [
      | inl (e, w) ↦ (inl w, not_virtual, some_routed)
      | inr (inl (e, w)) ↦ (inr w, not_virtual, some_routed)
      | inr (inr (e, n, m)) ↦ absurd (ground (arith, h, e))
    ]

primary_named :
    (lib : AddressLibrary) (i : Listed)
    → IsWireless (lib.casefold i.0) ⊎ IsWired (lib.casefold i.0)
    → ¬ IsVirtual (lib.casefold i.0)
    → any (is_routed lib) i.1 ≡ true
    → is_primary lib i ≡ true
unfolding is_primary
primary_named lib (name, addresses) w n r =
    let label = lib.casefold name in
    elim (Bool-cases (is_virtual label)) [
      | inl virtual ↦ absurd (n ((is_virtual-IsVirtual label).0 virtual))
      | inr physical ↦ elim (priority_of-cases label) [
        | inl (e, i) ↦ rw (e, physical) r
        | inr (inl (e, i)) ↦ rw (e, physical) r
        | inr (inr (e, a, b)) ↦ absurd (elim w [ inl i ↦ a i | inr i ↦ b i ])
      ]
    ]

or_right : (a b : Bool) → b ≡ true → (a || b) ≡ true
or_right a b h = ground arith

-- An entry that passes a test makes the test pass for the list.
members {ℓ} :
    {A : Type ℓ} (xs : List A) → All (λ x. (q : A → Bool) → q x ≡ true → any q xs ≡ true) xs
members [] = tt
members (x ∷ xs) =
    (λ q t. rw t refl, All-imp _ _ xs (λ y h q t. or_right (q x) (any q xs) (h q t)) (members xs))

all-of_All {ℓ} :
    {A : Type ℓ} (q : A → Bool) (xs : List A) → All (λ x. q x ≡ true) xs → all q xs ≡ true
all-of_All q [] h = refl
all-of_All q (x ∷ xs) h = rw h.0 (all-of_All q xs h.1)

-- What a selection keeps of a list of texts.
where_has :
    (p : Codes → Bool) (xs : List Codes)
    → All (λ a. p a ≡ true → any (codes_eq a) (where_true p xs) ≡ true) xs
where_has p [] = tt
where_has p (x ∷ xs) = (
  λ t. rw t (rw (codes_eq_refl x) refl),
  All-imp (λ a. p a ≡ true → any (codes_eq a) (where_true p xs) ≡ true) _ xs
      (λ a h t. elim (Bool-cases (p x)) [
        | inl kept ↦ rw kept (or_right (codes_eq a x) _ (h t))
        | inr dropped ↦ rw dropped (h t)
      ])
      (where_has p xs),
)

-- The entry of an interface is as promised, in any list that holds the interface.
shown_of-IsShownFor :
    (lib : AddressLibrary) (i : Listed) (rest : List Listed)
    → is_primary lib i ≡ true
    → IsShownFor lib (i ∷ rest) (shown_of lib i)
shown_of-IsShownFor lib (name, addresses) rest h =
    let (w, n, r) = primary_name lib (name, addresses) h in
    let kept : List Codes = where_true (is_routed lib) addresses in
    let inside : all (λ a. any (codes_eq a) addresses) kept ≡ true = all-of_All _ kept (
      All-where (λ a. any (codes_eq a) addresses ≡ true) (is_routed lib) addresses
        (All-imp _ _ addresses (λ a f. f (codes_eq a) (codes_eq_refl a)) (members addresses))) in
    (
      w,
      n,
      elim (any-where (is_routed lib) addresses) [
        | inl (e, none_left) ↦ cc
        | inr (a, more, e, y) ↦ rw e (omega arith)
      ],
      All-where_imp _ (is_routed lib) addresses
          (All-intro _ addresses (λ a t. (is_routed-IsRouted lib a).0 t)),
      rw (codes_eq_refl name) (rw inside refl),
    )

widen :
    (lib : AddressLibrary) (i : Listed) (interfaces : List Listed) (s : Listed)
    → IsShownFor lib interfaces s
    → IsShownFor lib (i ∷ interfaces) s
widen lib i interfaces (name, addresses) (w, n, l, r, h) = (w, n, l, r, or_right _ _ h)

useful-IsShownFor :
    (lib : AddressLibrary) (interfaces : List Listed)
    → All (λ u. IsShownFor lib interfaces (u.name, u.routed)) (useful lib interfaces)
unfolding useful
useful-IsShownFor lib [] = tt
useful-IsShownFor lib (i ∷ is) =
    let rest =
      All-imp _ (λ u. IsShownFor lib (i ∷ is) (u.name, u.routed)) (useful lib is)
        (λ u. widen lib i is (u.name, u.routed)) (useful-IsShownFor lib is) in
    elim (consider_lem lib i (useful lib is)) [
      | inl (passed, e) ↦ rw e rest
      | inr (u, kept, e, same, r) ↦
          rw e
            (subst (IsShownFor lib (i ∷ is)) (sym same) (shown_of-IsShownFor lib i is kept), rest)
    ]

rank-wireless : (lib : AddressLibrary) (s : Listed) → IsWireless (lib.casefold s.0) → rank lib s ≡ 0
rank-wireless lib s w = elim (priority_of-cases (lib.casefold s.0)) [
  | inl (e, i) ↦ rw e refl
  | inr (inl (e, i)) ↦ absurd (i.0 w)
  | inr (inr (e, n, m)) ↦ absurd (n w)
]

rank-wired : (lib : AddressLibrary) (s : Listed) → IsWired (lib.casefold s.0) → rank lib s ≡ 1
rank-wired lib s w = elim (priority_of-cases (lib.casefold s.0)) [
  | inl (e, i) ↦ absurd (w.0 i)
  | inr (inl (e, i)) ↦ rw e refl
  | inr (inr (e, n, m)) ↦ absurd (m w)
]

Ascending-WirelessFirst :
    (lib : AddressLibrary) (interfaces shown : List Listed)
    → All (IsShownFor lib interfaces) shown
    → Ascending (rank lib) shown
    → WirelessFirst lib shown
Ascending-WirelessFirst lib interfaces [] h a = tt
Ascending-WirelessFirst lib interfaces (s ∷ shown) h a = (
  λ n.
      let one : rank lib s ≡ 1 = elim h.0.0 [ inl w ↦ absurd (n w) | inr w ↦ rank-wired lib s w ] in
      All-imp (λ t. rank lib s ≤ rank lib t) _ shown
        (λ t l w. omega (arith, l, one, rank-wireless lib t w)) a.0,
  Ascending-WirelessFirst lib interfaces shown h.1 a.1,
)

-- Every entry that the page shows is that of an interface whose name, casefolded, starts as those
-- of wireless or of wired ones do and holds no word of virtual ones; it has at least one address, each
-- of the interface and of a host that is not link-local, loopback, multicast or unspecified. Every
-- such address of every such interface is shown. No wired interface stands before a wireless one.
pub primary_network_addresses_lem :
    (lib : AddressLibrary) (interfaces : List Listed)
    → let shown = primary_network_addresses lib interfaces in
      All (IsShownFor lib interfaces) shown
      × All
          (λ i.
            IsWireless (lib.casefold i.0) ⊎ IsWired (lib.casefold i.0)
            → ¬ IsVirtual (lib.casefold i.0)
            → All (λ a. IsRouted lib a → Shows shown i.0 a) i.1)
          interfaces
      × WirelessFirst lib shown
unfolding primary_network_addresses
primary_network_addresses_lem lib interfaces =
    let us = order_by may_precede (useful lib interfaces) in
    let sound : All (IsShownFor lib interfaces) (map (λ u. (u.name, u.routed)) us) =
      All-map _ _ us (All-order_by _ may_precede _ (useful-IsShownFor lib interfaces)) in
    (
      sound,
      All-imp _ _ interfaces
          (λ i found w n.
            All-with (λ a. (q : Codes → Bool) → q a ≡ true → any q i.1 ≡ true)
              (λ a.
                is_routed lib a ≡ true → any (codes_eq a) (where_true (is_routed lib) i.1) ≡ true)
              (λ a. IsRouted lib a → Shows (map (λ u. (u.name, u.routed)) us) i.0 a)
              (λ a here kept r.
                let routed = (is_routed-IsRouted lib a).1 r in
                let primary = primary_named lib i w n (here (is_routed lib) routed) in
                any-shown lib interfaces (λ s. codes_eq s.0 i.0 && any (codes_eq a) s.1)
                ∙ found _ (rw primary (rw (codes_eq_refl i.0) (kept routed))))
              i.1 (members i.1) (where_has (is_routed lib) i.1))
          (members interfaces),
      Ascending-WirelessFirst lib interfaces _ sound (
          Ascending-shown lib us (All-order_by _ may_precede _ (useful-rank lib interfaces)) (
            order_by-Ascending may_precede (λ u. u.priority) (λ u v. (may_precede-rank u v).0)
              (λ u v. (may_precede-rank u v).1) (useful lib interfaces))),
    )
