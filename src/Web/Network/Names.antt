-- ===== src/Web/Network/Names.antt =====
-- What the names of the interfaces are, said of the texts themselves.
use hilforge.Base.{
  ◌≡◌, ◌⊎◌, ◌↔◌, inl, inr, refl, ap, String, Bool, true, false, none, some, List, [], ◌∷◌, ◌++◌,
  ◌||◌, any, arith, Bool-cases,
}
use hilforge.Text.{Codes, codes}
use hilforge.Web.Network.{starts_with, occurs_in, priority_of, is_virtual}

abbrev pub StartsAs : Codes → Codes → Type 0
StartsAs prefix label = (rest : Codes) × (label ≡ prefix ++ rest)

abbrev pub Occurs : Codes → Codes → Type 0
Occurs part label = (before : Codes) × (rest : Codes) × (label ≡ before ++ (part ++ rest))

abbrev pub IsWireless : Codes → Type 0
IsWireless label =
    StartsAs (codes "wi-fi") label ⊎ StartsAs (codes "wifi") label ⊎ StartsAs (codes "wl") label

abbrev pub IsWired : Codes → Type 0
IsWired label = ¬ IsWireless label × (StartsAs (codes "eth") label ⊎ StartsAs (codes "en") label)

abbrev pub IsVirtual : Codes → Type 0
IsVirtual label =
    Occurs (codes "virtual") label
    ⊎ Occurs (codes "vethernet") label
    ⊎ Occurs (codes "bluetooth") label
    ⊎ Occurs (codes "loopback") label

starts_with-StartsAs : (p label : Codes) → (starts_with p label ≡ true) ↔ StartsAs p label
unfolding starts_with
starts_with-StartsAs [] label = (λ h. (label, refl), λ s. refl)
starts_with-StartsAs (c ∷ p) [] = (λ h. cc, λ (rest, e). cc)
starts_with-StartsAs (c ∷ p) (d ∷ label) = (
  λ h.
      let (same, more) : (c ≡ d) × (starts_with p label ≡ true) = ground (arith, h) in
      let (rest, e) = (starts_with-StartsAs p label).0 more in (rest, cc),
  λ (rest, e).
      let more : starts_with p label ≡ true = (starts_with-StartsAs p label).1 (rest, cc) in
      let same : d ≡ c = cc in ground (arith, same, more),
)

or_cases : (a b : Bool) → (a || b) ≡ true → (a ≡ true) ⊎ (b ≡ true)
or_cases true b h = inl refl
or_cases false b h = inr h

or_right : (a b : Bool) → b ≡ true → (a || b) ≡ true
or_right a b h = ground arith

abbrev starts : Codes → List String → Bool
starts label = any (λ p. starts_with (codes p) label)

starts-IsWireless :
    (label : Codes)
    → (starts label ("wi-fi" ∷ "wifi" ∷ "wlan" ∷ "wl" ∷ []) ≡ true) ↔ IsWireless label
starts-IsWireless label = (
  λ h. elim (or_cases (starts_with (codes "wi-fi") label) _ h) [
    | inl a ↦ inl ((starts_with-StartsAs (codes "wi-fi") label).0 a)
    | inr h₁ ↦ elim (or_cases (starts_with (codes "wifi") label) _ h₁) [
      | inl a ↦ inr (inl ((starts_with-StartsAs (codes "wifi") label).0 a))
      | inr h₂ ↦ elim (or_cases (starts_with (codes "wlan") label) _ h₂) [
        | inl a ↦
            let (rest, e) = (starts_with-StartsAs (codes "wlan") label).0 a in
            inr (inr (codes "an" ++ rest, e))
        | inr h₃ ↦ inr (inr ((starts_with-StartsAs (codes "wl") label).0 (ground (arith, h₃))))
      ]
    ]
  ],
  λ w. elim w [
    | inl a ↦ let t = (starts_with-StartsAs (codes "wi-fi") label).1 a in rw t refl
    | inr (inl a) ↦
        let t = (starts_with-StartsAs (codes "wifi") label).1 a in
        or_right (starts_with (codes "wi-fi") label) _ (rw t refl)
    | inr (inr a) ↦
        let t = (starts_with-StartsAs (codes "wl") label).1 a in
        or_right (starts_with (codes "wi-fi") label) _ (
          or_right (starts_with (codes "wifi") label) _
            (or_right (starts_with (codes "wlan") label) _ (rw t refl)))
  ],
)

starts-IsWired :
    (label : Codes)
    → (starts label ("ethernet" ∷ "eth" ∷ "en" ∷ []) ≡ true)
      ↔ (StartsAs (codes "eth") label ⊎ StartsAs (codes "en") label)
starts-IsWired label = (
  λ h. elim (or_cases (starts_with (codes "ethernet") label) _ h) [
    | inl a ↦
        let (rest, e) = (starts_with-StartsAs (codes "ethernet") label).0 a in
        inl (codes "ernet" ++ rest, e)
    | inr h₁ ↦ elim (or_cases (starts_with (codes "eth") label) _ h₁) [
      | inl a ↦ inl ((starts_with-StartsAs (codes "eth") label).0 a)
      | inr h₂ ↦ inr ((starts_with-StartsAs (codes "en") label).0 (ground (arith, h₂)))
    ]
  ],
  λ w. elim w [
    | inl a ↦
        let t = (starts_with-StartsAs (codes "eth") label).1 a in
        or_right (starts_with (codes "ethernet") label) _ (rw t refl)
    | inr a ↦
        let t = (starts_with-StartsAs (codes "en") label).1 a in
        or_right (starts_with (codes "ethernet") label) _
          (or_right (starts_with (codes "eth") label) _ (rw t refl))
  ],
)

-- The priority says what the name is.
pub priority_of-cases :
    (label : Codes)
    → ((priority_of label ≡ some 0) × IsWireless label)
      ⊎ ((priority_of label ≡ some 1) × IsWired label)
      ⊎ ((priority_of label ≡ none) × ¬ IsWireless label × ¬ IsWired label)
unfolding priority_of
priority_of-cases label = elim (Bool-cases (starts label ("wi-fi" ∷ "wifi" ∷ "wlan" ∷ "wl" ∷ []))) [
  | inl w ↦ inl (rw w refl, (starts-IsWireless label).0 w)
  | inr n ↦
      let not_wireless : ¬ IsWireless label = λ i. let t = (starts-IsWireless label).1 i in cc in
      elim (Bool-cases (starts label ("ethernet" ∷ "eth" ∷ "en" ∷ []))) [
        | inl e ↦ inr (inl (rw n (rw e refl), (not_wireless, (starts-IsWired label).0 e)))
        | inr m ↦
            inr (
              inr (rw n (rw m refl), not_wireless, λ i. let t = (starts-IsWired label).1 i.1 in cc))
      ]
]

occurs_in-Occurs : (part label : Codes) → (occurs_in part label ≡ true) ↔ Occurs part label
unfolding occurs_in
occurs_in-Occurs part [] = (
  λ h. let (rest, e) = (starts_with-StartsAs part []).0 h in ([], rest, e),
  λ (before, rest, e). (starts_with-StartsAs part []).1 (at_end before rest e),
)
  where
    at_end : (before rest : Codes) → [] ≡ before ++ (part ++ rest) → StartsAs part []
    at_end [] rest e = (rest, e)
    at_end (c ∷ before) rest e = cc
occurs_in-Occurs part (c ∷ label) = (
  λ h. elim (or_cases (starts_with part (c ∷ label)) _ h) [
    | inl a ↦ let (rest, e) = (starts_with-StartsAs part (c ∷ label)).0 a in ([], rest, e)
    | inr b ↦
        let (before, rest, e) = (occurs_in-Occurs part label).0 b in
        (c ∷ before, rest, ap (λ (l : Codes). c ∷ l) e)
  ],
  λ (before, rest, e). later (occurs_in-Occurs part label).1 before rest e,
)
  where
    later :
        (Occurs part label → occurs_in part label ≡ true)
        → (before rest : Codes) → (c ∷ label) ≡ before ++ (part ++ rest)
        → (starts_with part (c ∷ label) || occurs_in part label) ≡ true
    later found [] rest e = let t = (starts_with-StartsAs part (c ∷ label)).1 (rest, e) in rw t refl
    later found (d ∷ before) rest e =
        or_right (starts_with part (c ∷ label)) _ (found (before, rest, cc))

pub is_virtual-IsVirtual : (label : Codes) → (is_virtual label ≡ true) ↔ IsVirtual label
unfolding is_virtual
is_virtual-IsVirtual label = (
  λ h. elim (or_cases (occurs_in (codes "virtual") label) _ h) [
    | inl a ↦ inl ((occurs_in-Occurs (codes "virtual") label).0 a)
    | inr h₁ ↦ elim (or_cases (occurs_in (codes "vethernet") label) _ h₁) [
      | inl a ↦ inr (inl ((occurs_in-Occurs (codes "vethernet") label).0 a))
      | inr h₂ ↦ elim (or_cases (occurs_in (codes "bluetooth") label) _ h₂) [
        | inl a ↦ inr (inr (inl ((occurs_in-Occurs (codes "bluetooth") label).0 a)))
        | inr h₃ ↦
            inr (inr (inr ((occurs_in-Occurs (codes "loopback") label).0 (ground (arith, h₃)))))
      ]
    ]
  ],
  λ v. elim v [
    | inl a ↦ let t = (occurs_in-Occurs (codes "virtual") label).1 a in rw t refl
    | inr (inl a) ↦
        let t = (occurs_in-Occurs (codes "vethernet") label).1 a in
        or_right (occurs_in (codes "virtual") label) _ (rw t refl)
    | inr (inr (inl a)) ↦
        let t = (occurs_in-Occurs (codes "bluetooth") label).1 a in
        or_right (occurs_in (codes "virtual") label) _
          (or_right (occurs_in (codes "vethernet") label) _ (rw t refl))
    | inr (inr (inr a)) ↦
        let t = (occurs_in-Occurs (codes "loopback") label).1 a in
        or_right (occurs_in (codes "virtual") label) _ (
          or_right (occurs_in (codes "vethernet") label) _
            (or_right (occurs_in (codes "bluetooth") label) _ (rw t refl)))
  ],
)
