-- ===== src/Web/Network/Addresses.antt =====
-- Which addresses others can reach, said of the parsed address and of the part before its zone.
use hilforge.Base.{
  ◌≡◌, ◌≢◌, ◌⊎◌, ◌↔◌, inl, inr, refl, ap, true, false, some, [], ◌∷◌, ◌++◌, ◌||◌, ◌==◌, not, All,
  arith, Bool-cases, Option-cases,
}
use hilforge.Text.{Codes}
use hilforge.Web.Network.{IpAddress, AddressLibrary, without_zone, is_routed}

-- The part of an address before its zone.
abbrev pub HasHost : Codes → Codes → Type 0
HasHost host address =
    All (λ c. c ≢ b'%') host
    × ((address ≡ host) ⊎ ((zone : Codes) × (address ≡ host ++ (b'%' ∷ zone))))

-- An address that is one of the internet protocols and names a host that others can reach.
abbrev pub IsRouted : AddressLibrary → Codes → Type 0
IsRouted lib address =
    (host : Codes) × (parsed : IpAddress) × HasHost host address
    × (lib.ip_address host ≡ some parsed)
    × (parsed.is_link_local ≡ false)
    × (parsed.is_loopback ≡ false)
    × (parsed.is_multicast ≡ false)
    × (parsed.is_unspecified ≡ false)

without_zone-HasHost : (address : Codes) → HasHost (without_zone address) address
unfolding without_zone
without_zone-HasHost [] = (tt, inl refl)
without_zone-HasHost (c ∷ address) = elim (Bool-cases (c == b'%')) [
  | inl percent ↦
      let here : c ≡ b'%' = ground (arith, percent) in
      rw percent (tt, inr (address, ap (λ d. d ∷ address) here))
  | inr other ↦
      let apart : c ≢ b'%' = ground (arith, other) in
      let (no_zone, how) = without_zone-HasHost address in
      rw other (
        (apart, no_zone),
        elim how [
          | inl e ↦ inl (ap (λ (l : Codes). c ∷ l) e)
          | inr (zone, e) ↦ inr (zone, ap (λ (l : Codes). c ∷ l) e)
        ],
      )
]

without_zone-host : (host : Codes) → All (λ c. c ≢ b'%') host → without_zone host ≡ host
unfolding without_zone
without_zone-host [] n = refl
without_zone-host (c ∷ host) n = ground (arith, without_zone-host host n.1)

without_zone-zone :
    (host zone : Codes) → All (λ c. c ≢ b'%') host → without_zone (host ++ (b'%' ∷ zone)) ≡ host
unfolding without_zone
without_zone-zone [] zone n = ground arith
without_zone-zone (c ∷ host) zone n = ground (arith, without_zone-zone host zone n.1)

pub is_routed-IsRouted :
    (lib : AddressLibrary) (address : Codes) → (is_routed lib address ≡ true) ↔ IsRouted lib address
unfolding is_routed
is_routed-IsRouted lib address = (
  λ h. elim (Option-cases (lib.ip_address (without_zone address))) [
    | inl absent ↦ let refused : false ≡ true = rw (absent, is_routed) at h in cc
    | inr (parsed, e) ↦
        let good : not (
              parsed.is_link_local || parsed.is_loopback || parsed.is_multicast
              || parsed.is_unspecified)
            ≡ true =
          rw (e, is_routed) at h in
        (
          without_zone address,
          parsed,
          without_zone-HasHost address,
          e,
          ground (arith, good),
          ground (arith, good),
          ground (arith, good),
          ground (arith, good),
        )
  ],
  λ (host, parsed, (no_zone, how), e, a, b, c, d).
      let same : without_zone address ≡ host = elim how [
        | inl whole ↦ rw whole (without_zone-host host no_zone)
        | inr (zone, joined) ↦ rw joined (without_zone-zone host zone no_zone)
      ] in
      rw (same, is_routed) (rw e (rw (a, b, c, d) refl)),
)
