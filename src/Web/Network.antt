-- ===== src/Web/Network.antt =====
-- `primary_network_addresses` of web.py: the addresses of a laptop that its page shows. What
-- `str.casefold` and `ip_address` make of a text is that of the language.
pub mod Names
pub mod Addresses
pub mod Rounds
pub mod Shown
use hilforge.Base.{
  ℕ, Bool, true, false, Option, none, some, List, [], ◌∷◌, map, if◌then◌else◌, ◌==◌, ◌&&◌, ◌||◌,
  not, any, where_true, order_by,
}
use Prim.Native.Nat.{compare, Ordering}
use hilforge.Text.{Codes, codes, compare_codes}

-- The properties of a parsed address that are asked for.
pub record IpAddress : Type 0 where
  pub is_link_local : Bool
  pub is_loopback : Bool
  pub is_multicast : Bool
  pub is_unspecified : Bool

pub record AddressLibrary : Type 0 where
  pub casefold : Codes → Codes
  pub ip_address : Codes → Option IpAddress

-- An interface: its name and its addresses.
abbrev pub Listed : Type 0
Listed = Codes × List Codes

unfoldable pub starts_with : Codes → Codes → Bool
starts_with [] text = true
starts_with (c ∷ prefix) [] = false
starts_with (c ∷ prefix) (d ∷ text) = c == d && starts_with prefix text

-- `part in text`.
unfoldable pub occurs_in : Codes → Codes → Bool
unfolding starts_with
occurs_in part [] = starts_with part []
occurs_in part (c ∷ text) = starts_with part (c ∷ text) || occurs_in part text

-- The two lists of prefixes, and the rank that they give; the others are passed over.
unfoldable pub priority_of : Codes → Option ℕ
unfolding starts_with
priority_of label =
    if any (λ p. starts_with (codes p) label) ("wi-fi" ∷ "wifi" ∷ "wlan" ∷ "wl" ∷ [])
    then some 0
    else if any (λ p. starts_with (codes p) label) ("ethernet" ∷ "eth" ∷ "en" ∷ [])
    then some 1
    else none

unfoldable pub is_virtual : Codes → Bool
unfolding occurs_in
is_virtual label =
    any (λ p. occurs_in (codes p) label) ("virtual" ∷ "vethernet" ∷ "bluetooth" ∷ "loopback" ∷ [])

-- `address.split("%", 1)[0]`.
unfoldable pub without_zone : Codes → Codes
without_zone [] = []
without_zone (c ∷ rest) = if c == b'%' then [] else c ∷ without_zone rest

-- Whether the loop over the addresses keeps one.
unfoldable pub is_routed : AddressLibrary → Codes → Bool
unfolding without_zone
is_routed lib address = elim (lib.ip_address (without_zone address)) [
  | none ↦ false
  | some parsed ↦
      not
        (parsed.is_link_local || parsed.is_loopback || parsed.is_multicast || parsed.is_unspecified)
]

-- An entry of `useful`.
pub record Useful : Type 0 where
  pub priority : ℕ
  pub name : Codes
  pub routed : List Codes

-- One round of the loop over the interfaces, `rest` being what the next rounds append.
unfoldable pub consider : AddressLibrary → Listed → List Useful → List Useful
unfolding priority_of is_virtual is_routed
consider lib (name, addresses) rest = elim (priority_of (lib.casefold name)) [
  | none ↦ rest
  | some priority ↦
      if is_virtual (lib.casefold name) then rest else elim (where_true (is_routed lib) addresses) [
        | [] ↦ rest
        | a ∷ more ↦ record { priority = priority; name = name; routed = a ∷ more } ∷ rest
      ]
]

unfoldable pub useful : AddressLibrary → List Listed → List Useful
unfolding consider
useful lib [] = []
useful lib (interface ∷ interfaces) = consider lib interface (useful lib interfaces)

-- The order of lists of texts.
unfoldable pub compare_lists : List Codes → List Codes → Ordering
unfolding compare_codes
compare_lists [] [] = Ordering.eq
compare_lists [] (d ∷ t) = Ordering.lt
compare_lists (c ∷ s) [] = Ordering.gt
compare_lists (c ∷ s) (d ∷ t) = elim (compare_codes c d) [
  | Ordering.lt ↦ Ordering.lt
  | Ordering.gt ↦ Ordering.gt
  | Ordering.eq ↦ compare_lists s t
]

-- The order of the triples that `sorted` compares.
unfoldable pub may_precede : Useful → Useful → Bool
unfolding compare_codes compare_lists
may_precede u v = elim (compare u.priority v.priority) [
  | Ordering.lt ↦ true
  | Ordering.gt ↦ false
  | Ordering.eq ↦ elim (compare_codes u.name v.name) [
    | Ordering.lt ↦ true
    | Ordering.gt ↦ false
    | Ordering.eq ↦ elim (compare_lists u.routed v.routed) [ Ordering.gt ↦ false | _ ↦ true ]
  ]
]

unfoldable pub primary_network_addresses : AddressLibrary → List Listed → List Listed
unfolding useful may_precede
primary_network_addresses lib interfaces =
    map (λ u. (u.name, u.routed)) (order_by may_precede (useful lib interfaces))
