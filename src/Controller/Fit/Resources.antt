-- ===== src/Controller/Fit/Resources.antt =====
-- resourceFitReason: which machines it lets onto a node.
use smolvm_operator.Prelude.{
  ℕ, String, ◌≡◌, ◌≢◌, ◌↔◌, refl, false, List, [], ◌∷◌, ◌+◌, ◌%◌, ◌^◌, ◌≤◌, ◌<◌, arith, str_eq,
  append-ne-nil, All, if◌then◌else◌,
}
use smolvm_operator.Api.{SmolVm, SmolVmNode}
use smolvm_operator.Controller.Fit.{
  Usage, add_usage, usage_on, no_usage, cpu_exceeded, memory_exceeded, storage_exceeded,
  cpu_message, memory_message, storage_message, fit_reason, resource_fit_reason,
}

module _ (node : SmolVmNode) (vm : SmolVm) (used : Usage) where
  cpu_message-ne-nil : cpu_message node vm used ≢ ""
  unfolding cpu_message
  cpu_message-ne-nil = append-ne-nil "insufficient cpu: requested " _ refl

  memory_message-ne-nil : memory_message node vm used ≢ ""
  unfolding memory_message
  memory_message-ne-nil = append-ne-nil "insufficient memory: requested " _ refl

  storage_message-ne-nil : storage_message node vm used ≢ ""
  unfolding storage_message
  storage_message-ne-nil = append-ne-nil "insufficient storage: requested " _ refl

  -- The empty reason is given exactly when none of the three tests fails.
  fit_reason_iff : (fit_reason node vm used ≡ "") ↔ (
      (cpu_exceeded node vm used ≡ false)
      × (memory_exceeded node vm used ≡ false)
      × (storage_exceeded node vm used ≡ false))
  unfolding fit_reason
  fit_reason_iff = ground (arith, cpu_message-ne-nil, memory_message-ne-nil, storage_message-ne-nil)

-- The sum, over the machines bound to a node, of what each asks for; as a number, which has no bound.
abbrev pub total_on : String → (SmolVm → ℕ) → List SmolVm → ℕ
total_on node_name amount [] = 0
total_on node_name amount (vm ∷ vms) =
    (if str_eq vm.status.node_name node_name then amount vm else 0) + total_on node_name amount vms

abbrev pub cpus_of : SmolVm → ℕ
cpus_of vm = vm.spec.resources.cpus

abbrev pub memory_of : SmolVm → ℕ
memory_of vm = vm.spec.resources.memory_mib

abbrev pub storage_of : SmolVm → ℕ
storage_of vm = vm.spec.storage.storage_gib + vm.spec.storage.overlay_gib

usage_on-cpus :
    (node_name : String) (vms : List SmolVm) (u : Usage)
    → u.cpus < 2 ^ 32
    → (usage_on node_name vms u).cpus ≡ (u.cpus + total_on node_name cpus_of vms) % 2 ^ 32
unfolding usage_on
usage_on-cpus node_name [] u small = omega arith
usage_on-cpus node_name (vm ∷ vms) u small = ground (
  arith,
  usage_on-cpus node_name vms (add_usage u vm) (omega arith),
  usage_on-cpus node_name vms u small,
)

-- Memory sizes are not negative.
abbrev pub MemoryValid : List SmolVm → Type 0
MemoryValid vms = All (λ vm. memory_of vm < 2 ^ 31) vms

usage_on-memory :
    (node_name : String) (vms : List SmolVm) (u : Usage)
    → MemoryValid vms
    → u.memory < 2 ^ 64
    → (usage_on node_name vms u).memory ≡ (u.memory + total_on node_name memory_of vms) % 2 ^ 64
unfolding usage_on
usage_on-memory node_name [] u valid small = omega arith
usage_on-memory node_name (vm ∷ vms) u (here_valid, valid) small = ground (
  arith,
  usage_on-memory node_name vms (add_usage u vm) valid (omega arith),
  usage_on-memory node_name vms u valid small,
)

usage_on-storage :
    (node_name : String) (vms : List SmolVm) (u : Usage)
    → u.storage < 2 ^ 64
    → (usage_on node_name vms u).storage ≡ (u.storage + total_on node_name storage_of vms) % 2 ^ 64
unfolding usage_on
usage_on-storage node_name [] u small = omega arith
usage_on-storage node_name (vm ∷ vms) u small = ground (
  arith,
  usage_on-storage node_name vms (add_usage u vm) (omega arith),
  usage_on-storage node_name vms u small,
)

-- All sizes on the node and of the machine are not negative, and their sums do not overflow.
pub record NoOverflow (node : SmolVmNode) (vm : SmolVm) (bound : List SmolVm) : Type 0 where
  pub cpus : total_on node.meta.name cpus_of bound + cpus_of vm < 2 ^ 31
  pub memory_valid : MemoryValid (vm ∷ bound)
  pub memory : total_on node.meta.name memory_of bound + memory_of vm < 2 ^ 63
  pub storage : total_on node.meta.name storage_of bound + storage_of vm < 2 ^ 63
  pub allocatable_cpus : node.status.allocatable.cpus < 2 ^ 31
  pub allocatable_memory : node.status.allocatable.memory_mib < 2 ^ 63
  pub allocatable_storage : node.status.allocatable.storage_gib < 2 ^ 63

-- The machine fits beside those on the node; 0 allocatable means that the resource is not bounded.
pub record Fitting (node : SmolVmNode) (vm : SmolVm) (bound : List SmolVm) : Type 0 where
  pub cpus :
      0 < node.status.allocatable.cpus
      → total_on node.meta.name cpus_of bound + cpus_of vm ≤ node.status.allocatable.cpus
  pub memory :
      0 < node.status.allocatable.memory_mib
      → total_on node.meta.name memory_of bound + memory_of vm ≤ node.status.allocatable.memory_mib
  pub storage :
      0 < node.status.allocatable.storage_gib
      → total_on node.meta.name storage_of bound + storage_of vm
        ≤ node.status.allocatable.storage_gib

module _ (node : SmolVmNode) (vm : SmolVm) (bound : List SmolVm) where
  abbrev pub used : Usage
  used = usage_on node.meta.name bound no_usage

  pub cpu_exceeded_iff :
      total_on node.meta.name cpus_of bound + cpus_of vm < 2 ^ 31
      → node.status.allocatable.cpus < 2 ^ 31
      → (cpu_exceeded node vm used ≡ false) ↔ (
          0 < node.status.allocatable.cpus
          → total_on node.meta.name cpus_of bound + cpus_of vm ≤ node.status.allocatable.cpus)
  cpu_exceeded_iff h a =
      let e = usage_on-cpus node.meta.name bound no_usage (omega arith) in
      (λ k pos. ground (arith, e, h, a, pos), λ k. ground (arith, e, h, a, k))

  pub memory_exceeded_iff :
      MemoryValid (vm ∷ bound)
      → total_on node.meta.name memory_of bound + memory_of vm < 2 ^ 63
      → node.status.allocatable.memory_mib < 2 ^ 63
      → (memory_exceeded node vm used ≡ false) ↔ (
          0 < node.status.allocatable.memory_mib
          → total_on node.meta.name memory_of bound + memory_of vm
            ≤ node.status.allocatable.memory_mib)
  memory_exceeded_iff (v, valid) h a =
      let e = usage_on-memory node.meta.name bound no_usage valid (omega arith) in
      (λ k pos. ground (arith, e, h, v, a, pos), λ k. ground (arith, e, h, v, a, k))

  pub storage_exceeded_iff :
      total_on node.meta.name storage_of bound + storage_of vm < 2 ^ 63
      → node.status.allocatable.storage_gib < 2 ^ 63
      → (storage_exceeded node vm used ≡ false) ↔ (
          0 < node.status.allocatable.storage_gib
          → total_on node.meta.name storage_of bound + storage_of vm
            ≤ node.status.allocatable.storage_gib)
  storage_exceeded_iff h a =
      let e = usage_on-storage node.meta.name bound no_usage (omega arith) in
      (λ k pos. ground (arith, e, h, a, pos), λ k. ground (arith, e, h, a, k))

  -- The empty reason is given exactly when none of the three tests fails on what is in use.
  pub resource_fit_reason-parts : (resource_fit_reason node vm bound ≡ "") ↔ (
      (cpu_exceeded node vm used ≡ false)
      × (memory_exceeded node vm used ≡ false)
      × (storage_exceeded node vm used ≡ false))
  unfolding resource_fit_reason
  resource_fit_reason-parts = fit_reason_iff node vm used

module _ (node : SmolVmNode) (vm : SmolVm) (bound : List SmolVm)
    (no_overflow : NoOverflow node vm bound) where
  -- Where no sum overflows and no size is negative, resourceFitReason accepts a machine exactly when
  -- the sums over the machines bound to the node, with the machine's own sizes, stay within each
  -- resource that the node bounds.
  pub resource_fit_reason_iff : (resource_fit_reason node vm bound ≡ "") ↔ Fitting node vm bound
  resource_fit_reason_iff =
      let n = no_overflow in
      let parts = resource_fit_reason-parts node vm bound in
      let by_cpu = cpu_exceeded_iff node vm bound n.cpus n.allocatable_cpus in
      let by_memory =
        memory_exceeded_iff node vm bound n.memory_valid n.memory n.allocatable_memory in
      let by_storage = storage_exceeded_iff node vm bound n.storage n.allocatable_storage in
      (
        (λ e.
            let (c, m, s) = parts.0 e in
            record { cpus = by_cpu.0 c; memory = by_memory.0 m; storage = by_storage.0 s }),
        (λ f. parts.1 (by_cpu.1 f.cpus, by_memory.1 f.memory, by_storage.1 f.storage)),
      )

-- The CPU test adds int32 values: where the CPUs in use and those requested, both non-negative, sum to
-- 2 ^ 31 or more, and memory and storage pass their tests, the machine is accepted, however few CPUs
-- the node has.
pub resource_fit_reason_overflow :
    (node : SmolVmNode) (vm : SmolVm) (bound : List SmolVm)
    → total_on node.meta.name cpus_of bound < 2 ^ 31
    → cpus_of vm < 2 ^ 31
    → 2 ^ 31 ≤ total_on node.meta.name cpus_of bound + cpus_of vm
    → node.status.allocatable.cpus < 2 ^ 31
    → node.status.allocatable.memory_mib ≡ 0
    → node.status.allocatable.storage_gib ≡ 0
    → resource_fit_reason node vm bound ≡ ""
unfolding resource_fit_reason
resource_fit_reason_overflow node vm bound in_use asked over cpus memory storage =
    let e = usage_on-cpus node.meta.name bound no_usage (omega arith) in
    (fit_reason_iff node vm (usage_on node.meta.name bound no_usage)).1
      (ground (arith, e), ground arith, ground arith)
