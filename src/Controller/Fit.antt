-- ===== src/Controller/Fit.antt =====
-- The tests of the scheduler in internal/controller/smolvm_controller.go that need no call: readiness,
-- selectors, resources and host ports. A reason is a text; the empty text accepts the node.
pub mod Resources
pub mod Ports
pub mod Eligible
use smolvm_operator.Prelude.{
  ℕ, String, Bool, true, false, not, ◌&&◌, ◌||◌, Option, none, some, List, [], ◌∷◌, ◌+◌, ◌*◌, ◌^◌,
  map, Int32, Int64, int32_lt, int64_lt, int32_add, int64_add, int64_of_int32, ltb, str_eq, text_at,
  concat, show_int32, show_int64, if◌then◌else◌,
}
use smolvm_operator.Api.{
  ConditionStatus, condition_true, status_eq, Port, SmolVm, SmolVmNode, KubernetesNode,
  node_condition_ready, node_condition_kvm_available, node_condition_runtime_ready,
  node_condition_schedulable,
}
use smolvm_operator.Controller.Conditions.{has_condition}
use smolvm_operator.Controller.Validation.{member}

-- The condition of the loop of boundVMs that leaves an item out.
unfoldable pub is_bound_to_other : SmolVm → SmolVm → Bool
is_bound_to_other pending item = not (
    str_eq item.meta.uid pending.meta.uid
    || str_eq item.status.node_name ""
    || elim item.meta.deletion_timestamp [ none ↦ false | some t ↦ true ])

unfoldable pub keep_bound : SmolVm → List SmolVm → List SmolVm
unfolding is_bound_to_other
keep_bound pending [] = []
keep_bound pending (item ∷ items) =
    let rest = keep_bound pending items in
    if is_bound_to_other pending item then item ∷ rest else rest

unfoldable pub node_ready : List (String × ConditionStatus) → Bool
node_ready [] = false
node_ready ((type, status) ∷ rest) =
    if str_eq type "Ready" then status_eq status condition_true else node_ready rest

unfoldable pub kubernetes_node_ready : KubernetesNode → Bool
unfolding node_ready
kubernetes_node_ready node = node_ready node.conditions

-- usedCPU, usedMemory and usedStorage
pub record Usage : Type 0 where
  pub cpus : Int32
  pub memory : Int64
  pub storage : Int64

abbrev requested_storage : SmolVm → Int64
requested_storage vm = int64_add vm.spec.storage.storage_gib vm.spec.storage.overlay_gib

abbrev add_usage : Usage → SmolVm → Usage
add_usage u vm = record {
  cpus = int32_add u.cpus vm.spec.resources.cpus;
  memory = int64_add u.memory (int64_of_int32 vm.spec.resources.memory_mib);
  storage = int64_add u.storage (requested_storage vm);
}

-- The loop of resourceFitReason.
unfoldable pub usage_on : String → List SmolVm → Usage → Usage
usage_on node_name [] u = u
usage_on node_name (vm ∷ vms) u =
    usage_on node_name vms (if str_eq vm.status.node_name node_name then add_usage u vm else u)

abbrev pub no_usage : Usage
no_usage = record { cpus = 0; memory = 0; storage = 0 }

-- The three tests of resourceFitReason: the resource is bounded, and the wrapped sum exceeds the bound.
abbrev pub cpu_exceeded : SmolVmNode → SmolVm → Usage → Bool
cpu_exceeded node vm used =
    int32_lt 0 node.status.allocatable.cpus
    && int32_lt node.status.allocatable.cpus (int32_add used.cpus vm.spec.resources.cpus)

abbrev pub memory_exceeded : SmolVmNode → SmolVm → Usage → Bool
memory_exceeded node vm used =
    int64_lt 0 node.status.allocatable.memory_mib
    && int64_lt node.status.allocatable.memory_mib
        (int64_add used.memory (int64_of_int32 vm.spec.resources.memory_mib))

abbrev pub storage_exceeded : SmolVmNode → SmolVm → Usage → Bool
storage_exceeded node vm used =
    int64_lt 0 node.status.allocatable.storage_gib
    && int64_lt node.status.allocatable.storage_gib (int64_add used.storage (requested_storage vm))

cpu_message : SmolVmNode → SmolVm → Usage → String
cpu_message node vm used = concat (
    "insufficient cpu: requested "
    ∷ show_int32 vm.spec.resources.cpus
    ∷ " used "
    ∷ show_int32 used.cpus
    ∷ " allocatable "
    ∷ show_int32 node.status.allocatable.cpus
    ∷ [])

memory_message : SmolVmNode → SmolVm → Usage → String
memory_message node vm used = concat (
    "insufficient memory: requested "
    ∷ show_int32 vm.spec.resources.memory_mib
    ∷ "MiB used "
    ∷ show_int64 used.memory
    ∷ "MiB allocatable "
    ∷ show_int64 node.status.allocatable.memory_mib
    ∷ "MiB"
    ∷ [])

storage_message : SmolVmNode → SmolVm → Usage → String
storage_message node vm used = concat (
    "insufficient storage: requested "
    ∷ show_int64 (requested_storage vm)
    ∷ "GiB used "
    ∷ show_int64 used.storage
    ∷ "GiB allocatable "
    ∷ show_int64 node.status.allocatable.storage_gib
    ∷ "GiB"
    ∷ [])

fit_reason : SmolVmNode → SmolVm → Usage → String
fit_reason node vm used =
    if cpu_exceeded node vm used
    then cpu_message node vm used
    else if memory_exceeded node vm used
    then memory_message node vm used
    else if storage_exceeded node vm used
    then storage_message node vm used
    else ""

unfoldable pub resource_fit_reason : SmolVmNode → SmolVm → List SmolVm → String
unfolding fit_reason usage_on cpu_message memory_message storage_message
resource_fit_reason node vm bound = fit_reason node vm (usage_on node.meta.name bound no_usage)

-- The inner loop of hostPortConflictReason: the first port of `existing` that is requested.
unfoldable pub requested_port : List Int32 → List Port → Option Int32
unfolding member
requested_port requested [] = none
requested_port requested (p ∷ ports) =
    if member p.host_port requested then some p.host_port else requested_port requested ports

unfoldable pub port_conflict : String → List Int32 → List SmolVm → String
unfolding requested_port
port_conflict node_name requested [] = ""
port_conflict node_name requested (existing ∷ rest) =
    let later = port_conflict node_name requested rest in
    if not (str_eq existing.status.node_name node_name)
    then later
    else elim (requested_port requested existing.spec.network.ports) [
      | some port ↦ concat (
          "hostPort "
          ∷ show_int32 port
          ∷ " conflicts with "
          ∷ existing.meta.namespace
          ∷ "/"
          ∷ existing.meta.name
          ∷ [])
      | none ↦ later
    ]

abbrev host_port_of : Port → Int32
host_port_of p = p.host_port

abbrev pub host_ports : SmolVm → List Int32
host_ports vm = map host_port_of vm.spec.network.ports

unfoldable pub host_port_conflict_reason : String → SmolVm → List SmolVm → String
unfolding port_conflict
host_port_conflict_reason node_name vm bound = elim (host_ports vm) [
  | [] ↦ ""
  | port ∷ ports ↦ port_conflict node_name (host_ports vm) bound
]

-- Two minutes, in nanoseconds.
abbrev pub heartbeat_limit : ℕ
heartbeat_limit = 2 * 60 * 10 ^ 9

abbrev heartbeat_stale : ℕ → Option ℕ → Bool
heartbeat_stale now none = true
heartbeat_stale now (some time) = ltb (time + heartbeat_limit) now

unfoldable pub smolvm_node_eligible : ℕ → SmolVmNode → Bool
unfolding has_condition
smolvm_node_eligible now node =
    let conditions = node.status.conditions in
    if not (has_condition conditions node_condition_ready condition_true)
      || not (has_condition conditions node_condition_kvm_available condition_true)
      || not (has_condition conditions node_condition_runtime_ready condition_true)
      || not (has_condition conditions node_condition_schedulable condition_true)
    then false
    else if not (str_eq node.status.protocol_version "")
        && not (str_eq node.status.protocol_version "v1alpha1")
    then false
    else if heartbeat_stale now node.status.heartbeat_time
    then false
    else not (str_eq node.status.endpoint.pod_ip "") && int32_lt 0 node.status.endpoint.port

-- The order in which Go visits the selector's entries does not change the result.
unfoldable pub matches_node_selector : SmolVmNode → List (String × String) → Bool
matches_node_selector node [] = true
matches_node_selector node ((key, value) ∷ rest) =
    if not (str_eq (text_at key node.meta.labels) value)
    then false
    else matches_node_selector node rest
