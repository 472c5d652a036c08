-- ===== src/HostAgent/Checks/Passes.antt =====
-- The checks pass exactly on a sound machine.
use hilforge.Base.{
  any-order_by, ℕ, ◌↔◌, ◌-◌, ◌≡◌, ◌⊎◌, inl, inr, refl, ◌∙◌, true, some, List, map, where_true,
  order_by, any, ◌==◌, ==_iff,
}
use hilforge.Domain.Json.{Json}
use hilforge.Protocol.{AgentExecutionRequest, AgentOutcome}
use hilforge.HostAgent.Endpoint.{run_host}
use hilforge.HostAgent.Checks.Probes.{returned, Interface, Disk, Machine}
use hilforge.HostAgent.Checks.{
  memory_test_bytes, storage_test_bytes, test_payload, is_nonempty, validate_memory,
  validate_storage, validation, host_report, network_addresses, collect_host_checks, host_checks,
}
use hilforge.HostAgent.Checks.Sound.{
  IsSound, Check-cases, positive, with_ip, is_nonempty-with_ip, codes_eq_refl, has_ip,
  collect_host_checks-IsSound,
}

module _ (m : Machine) where
  network-returns :
      (interfaces : List Interface)
      → m.net_if_addrs ≡ returned interfaces
      → any has_ip interfaces ≡ true
      → (is : List Interface) × (network_addresses m ≡ returned is) × (is_nonempty is ≡ true)
  unfolding network_addresses
  network-returns interfaces e h =
      let named = order_by (λ i j. m.name_le i.0 j.0) interfaces in
      (
        where_true (λ i. is_nonempty i.1) (map with_ip named),
        rw e refl,
        is_nonempty-with_ip named ∙ any-order_by _ has_ip interfaces ∙ h,
      )

  storage-returns :
      (usage : Disk)
      → m.disk_usage ≡ returned usage
      → m.read_back (test_payload storage_test_bytes) ≡ returned (test_payload storage_test_bytes)
      → (r : Disk × Json) × (validate_storage m ≡ returned r)
  unfolding validate_storage
  storage-returns usage d e =
      let payload = test_payload storage_test_bytes in
      let same : (m.sha256 payload == m.sha256 payload) ≡ true = (==_iff _ _).1 refl in
      (
        (usage, validation storage_test_bytes (m.rounded_ms m.storage_elapsed)),
        simp (d, e, codes_eq_refl payload, same),
      )

  memory-returns :
      (copy : List ℕ)
      → m.copied (test_payload memory_test_bytes) ≡ returned copy
      → m.sha256 copy ≡ m.sha256 (test_payload memory_test_bytes)
      → (r : Json) × (validate_memory m ≡ returned r)
  unfolding validate_memory
  memory-returns copy e same =
      let equal : (m.sha256 copy == m.sha256 (test_payload memory_test_bytes)) ≡ true =
        (==_iff _ _).1 same in
      (validation memory_test_bytes (m.rounded_ms m.memory_elapsed), simp (e, equal))

  IsSound-collect_host_checks : IsSound m → (r : Json) × (collect_host_checks m ≡ returned r)
  unfolding collect_host_checks
  IsSound-collect_host_checks v =
      let (physical, logical, c, p, l) = v.cpus in
      let (total, available, w, t) = v.memory in
      let (boot, b) = v.boots in
      let (usage, d) = v.disk in
      let (copy, e, same) = v.copies in
      let (addresses, n, some_ip) = v.reachable in
      let (hostname, y) = v.named in
      let (stored, s) = storage-returns usage d v.stores in
      let (copied, k) = memory-returns copy e same in
      let (interfaces, i, found) = network-returns addresses n some_ip in
      (
        host_report m (some physical) (some logical) (total, available) (m.now - boot) stored copied
            interfaces hostname,
        simp
            (c, positive physical p, positive logical l, w, positive total t, b, s, k, i, found, y),
      )

-- The host agent answers that its checks have passed exactly if the machine is sound: its core counts
-- and its memory are known and positive, its start time and its disk usage are known, the file is
-- read back as it was written, the copy in memory has the hash of the original, an interface has an
-- address of the internet protocols, and its host name is known. Any other machine is answered with a failure.
pub host_passed_iff :
    (m : Machine) (request : AgentExecutionRequest) (duration : ℕ)
    → let answer = run_host request duration (host_checks m) in
      ((answer.outcome ≡ AgentOutcome.passed) ↔ IsSound m)
      × ((answer.outcome ≡ AgentOutcome.passed) ⊎ (answer.outcome ≡ AgentOutcome.failed))
unfolding host_checks run_host
host_passed_iff m request duration = elim (Check-cases (collect_host_checks m)) [
  | inl (r, e) ↦
      let passed : (run_host request duration (host_checks m)).outcome ≡ AgentOutcome.passed =
        rw (e, host_checks) refl in
      ((λ h. collect_host_checks-IsSound m e, λ v. passed), inl passed)
  | inr (reason, e) ↦
      let failed : (run_host request duration (host_checks m)).outcome ≡ AgentOutcome.failed =
        rw (e, host_checks) refl in
      ((λ h. cc, λ v. let (r, returns) = IsSound-collect_host_checks m v in cc), inr failed)
]
