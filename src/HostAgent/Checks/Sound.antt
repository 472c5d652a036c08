-- ===== src/HostAgent/Checks/Sound.antt =====
-- The checks pass on a sound machine only.
use hilforge.Base.{
  any-order_by, ℕ, ◌<◌, ◌≡◌, ◌⊎◌, inl, inr, refl, String, sym, ap, ◌∙◌, subst, Bool, true, false,
  not, Option, none, some, List, [], ◌∷◌, map, where_true, order_by, any, arith, ltb, ◌==◌, ◌||◌,
}
use hilforge.Domain.Json.{Json}
use hilforge.Text.{codes_eq, codes_eq-eq}
use hilforge.HostAgent.Checks.Probes.{
  Check, returned, raised, ◌>>=◌, ◌>>◌, raise_if, Interface, Disk, Machine,
}
use hilforge.HostAgent.Checks.{
  memory_test_bytes, storage_test_bytes, test_payload, is_ip, is_nonempty, counted, validate_memory,
  validate_storage, network_addresses, collect_host_checks,
}

-- An interface with an address of the internet protocols.
abbrev pub has_ip : Interface → Bool
has_ip i = any is_ip i.1

-- What the suite promises of the machine that it ran on.
pub record IsSound (m : Machine) : Type 0 where
  pub cpus :
      (physical : ℕ) × (logical : ℕ) × (m.cpu_count ≡ returned (some physical, some logical))
      × (0 < physical)
      × (0 < logical)
  pub memory :
      (total : ℕ) × (available : ℕ) × (m.virtual_memory ≡ returned (total, available)) × (0 < total)
  pub boots : (boot : ℕ) × (m.boot_time ≡ returned boot)
  pub disk : (usage : Disk) × (m.disk_usage ≡ returned usage)
  pub stores :
      m.read_back (test_payload storage_test_bytes) ≡ returned (test_payload storage_test_bytes)
  pub copies :
      (copy : List ℕ) × (m.copied (test_payload memory_test_bytes) ≡ returned copy)
      × (m.sha256 copy ≡ m.sha256 (test_payload memory_test_bytes))
  pub reachable :
      (interfaces : List Interface) × (m.net_if_addrs ≡ returned interfaces)
      × (any has_ip interfaces ≡ true)
  pub named : (hostname : String) × (m.hostname ≡ returned hostname)

>>=-eq-returned {ℓ κ} :
    {A : Type ℓ} {B : Type κ} (call : Check A) (rest : A → Check B) {b : B}
    → (call >>= rest) ≡ returned b
    → (a : A) × (call ≡ returned a) × (rest a ≡ returned b)
>>=-eq-returned (returned a) rest h = (a, refl, h)
>>=-eq-returned (raised reason) rest h = cc

-- A guard that did not raise.
passed_guard {ℓ} :
    (b : Bool) (reason : String) {A : Type ℓ} (rest : Check A) {a : A}
    → (raise_if b reason >> rest) ≡ returned a
    → (b ≡ false) × (rest ≡ returned a)
passed_guard true reason rest h = cc
passed_guard false reason rest h = (refl, h)

neither : (a b : Bool) → (not a || not b) ≡ false → (a ≡ true) × (b ≡ true)
neither a b h = ground arith

not_zero : (a : Bool) → not a ≡ false → a ≡ true
not_zero a h = ground arith

pub Check-cases {ℓ} :
    {A : Type ℓ} (c : Check A) → ((a : A) × (c ≡ returned a)) ⊎ ((r : String) × (c ≡ raised r))
Check-cases (returned a) = inl (a, refl)
Check-cases (raised r) = inr (r, refl)

pub positive : (n : ℕ) → 0 < n → ltb 0 n ≡ true
positive n h = ground arith

returned-injective {ℓ} :
    {A : Type ℓ} {a b : A} → ◌≡◌ {A = Check A} (returned a) (returned b) → a ≡ b
returned-injective {A} {a} e = ap (λ (c : Check A). elim c [ returned x ↦ x | raised _ ↦ a ]) e

-- Some interface is left exactly if one has an address.
is_nonempty-where :
    (addresses : List _) → is_nonempty (where_true is_ip addresses) ≡ any is_ip addresses
unfolding is_nonempty
is_nonempty-where [] = refl
is_nonempty-where (a ∷ addresses) = ground (arith, is_nonempty-where addresses)

abbrev pub with_ip : Interface → Interface
with_ip i = (i.0, where_true is_ip i.1)

pub is_nonempty-with_ip :
    (is : List Interface)
    → is_nonempty (where_true (λ i. is_nonempty i.1) (map with_ip is)) ≡ any has_ip is
unfolding is_nonempty
is_nonempty-with_ip [] = refl
is_nonempty-with_ip (i ∷ is) = ground (arith, is_nonempty-where i.1, is_nonempty-with_ip is)

pub codes_eq_refl : (bytes : List ℕ) → codes_eq bytes bytes ≡ true
codes_eq_refl [] = refl
codes_eq_refl (b ∷ bytes) = ground (arith, codes_eq_refl bytes)

module _ (m : Machine) where
  memory-copies :
      {r : Json}
      → validate_memory m ≡ returned r
      → (copy : List ℕ) × (m.copied (test_payload memory_test_bytes) ≡ returned copy)
        × (m.sha256 copy ≡ m.sha256 (test_payload memory_test_bytes))
  unfolding validate_memory
  memory-copies h =
      let (copy, e, rest) = >>=-eq-returned (m.copied (test_payload memory_test_bytes)) _ h in
      let (same, rest') =
        passed_guard (not (m.sha256 copy == m.sha256 (test_payload memory_test_bytes))) _ _ rest in
      (copy, e, ground (arith, same))

  storage-stores :
      {r : Disk × Json}
      → validate_storage m ≡ returned r
      → (usage : Disk) × (m.disk_usage ≡ returned usage)
        × (m.read_back (test_payload storage_test_bytes)
            ≡ returned (test_payload storage_test_bytes))
  unfolding validate_storage
  storage-stores h =
      let (usage, d, rest) = >>=-eq-returned m.disk_usage _ h in
      let (actual, e, rest') =
        >>=-eq-returned (m.read_back (test_payload storage_test_bytes)) _ rest in
      let payload = test_payload storage_test_bytes in
      let (good, rest'') =
        passed_guard (not (codes_eq actual payload) || not (m.sha256 actual == m.sha256 payload)) _
          _ rest' in
      let same = codes_eq-eq actual payload (neither _ _ good).0 in
      (usage, d, e ∙ ap (λ (b : List ℕ). returned b) same)

  network-reachable :
      {is : List Interface}
      → network_addresses m ≡ returned is
      → is_nonempty is ≡ true
      → (interfaces : List Interface) × (m.net_if_addrs ≡ returned interfaces)
        × (any has_ip interfaces ≡ true)
  unfolding network_addresses
  network-reachable {is} h n =
      let (interfaces, e, rest) = >>=-eq-returned m.net_if_addrs _ h in
      let named = order_by (λ i j. m.name_le i.0 j.0) interfaces in
      (
        interfaces,
        e,
        sym (any-order_by _ has_ip interfaces)
            ∙ sym (is_nonempty-with_ip named)
            ∙ subst (λ l. is_nonempty l ≡ true) (sym (returned-injective rest)) n,
      )

  cores :
      (physical logical : Option ℕ)
      → m.cpu_count ≡ returned (physical, logical)
      → counted physical ≡ true
      → counted logical ≡ true
      → (p : ℕ) × (l : ℕ) × (m.cpu_count ≡ returned (some p, some l)) × (0 < p) × (0 < l)
  cores (some p) (some l) c g h = (p, l, c, ground (arith, g), ground (arith, h))
  cores (some p) none c g h = cc
  cores none logical c g h = cc

  pub collect_host_checks-IsSound : {r : Json} → collect_host_checks m ≡ returned r → IsSound m
  unfolding collect_host_checks
  collect_host_checks-IsSound h =
      let ((physical, logical), c, h₁) = >>=-eq-returned m.cpu_count _ h in
      let (g₁, h₂) = passed_guard (not (counted physical) || not (counted logical)) _ _ h₁ in
      let ((total, available), v, h₃) = >>=-eq-returned m.virtual_memory _ h₂ in
      let (g₂, h₄) = passed_guard (not (ltb 0 total)) _ _ h₃ in
      let (boot, b, h₅) = >>=-eq-returned m.boot_time _ h₄ in
      let ((disk, storage), s, h₆) = >>=-eq-returned (validate_storage m) _ h₅ in
      let (memory, w, h₇) = >>=-eq-returned (validate_memory m) _ h₆ in
      let (interfaces, i, h₈) = >>=-eq-returned (network_addresses m) _ h₇ in
      let (g₃, h₉) = passed_guard (not (is_nonempty interfaces)) _ _ h₈ in
      let (hostname, y, h₁₀) = >>=-eq-returned m.hostname _ h₉ in
      let (p, q) = neither (counted physical) (counted logical) g₁ in
      let (usage, d, r) = storage-stores s in
      record {
        cpus = cores physical logical c p q;
        memory = (total, available, v, ground (arith, g₂));
        boots = (boot, b);
        disk = (usage, d);
        stores = r;
        copies = memory-copies w;
        reachable = network-reachable i (not_zero (is_nonempty interfaces) g₃);
        named = (hostname, y);
      }
