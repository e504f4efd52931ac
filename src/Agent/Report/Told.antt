-- ===== src/Agent/Report/Told.antt =====
-- What a status says that the agent of cmd/runtime-agent/main.go reports, spelled out, and that report writes it.
use smolvm_operator.Prelude.{
  ℕ, String, Bool, true, ◌&&◌, ◌≡◌, ◌≢◌, ◌↔◌, ◌⊎◌, refl, ap, List, [], ◌∷◌, eq_iff, arith, some,
  ◌%◌, ◌^◌, ◌/◌, ◌*◌, ◌<◌,
}
use smolvm_operator.Api.{
  ConditionStatus, condition_true, status_eq, SmolVmNodeStatus, KubernetesNode,
  node_condition_ready, node_condition_kvm_available, node_condition_runtime_ready,
  node_condition_schedulable,
}
use smolvm_operator.Smolvm.{Result, ok, err}
use smolvm_operator.Controller.Conditions.{has_condition}
use smolvm_operator.Controller.Conditions.Laws.{UniqueTypes}
use smolvm_operator.Agent.{Agent, Host, health_of, capability_report, storage_gib, quotient}
use smolvm_operator.Agent.Report.{
  node_or_zero, learned, kubernetes_node_ready, node_ready_in, reported_status, ReportTimes,
}
use smolvm_operator.Agent.Report.Laws.{
  reported-ready, reported-kvm, reported-runtime, reported-schedulable,
}

-- The UID that the agent goes on with: the one that was read, or the one it had.
abbrev pub uid_of : Agent → Result KubernetesNode → String
uid_of a (err e) = a.node_uid
uid_of a (ok node) = node.uid

-- The first condition of the type Ready is true.
abbrev pub FirstReady : List (String × ConditionStatus) → Type 0
FirstReady [] = ⊥
FirstReady ((type, status) ∷ rest) =
    ((type ≡ "Ready") × (status_eq status condition_true ≡ true))
    ⊎ ((type ≢ "Ready") × FirstReady rest)

-- The Kubernetes node was read, and is ready.
abbrev pub ReadyNode : Result KubernetesNode → Type 0
ReadyNode (err e) = ⊥
ReadyNode (ok node) = FirstReady node.conditions

abbrev pub CpusOf : Result KubernetesNode → ℕ → Type 0
CpusOf (err e) cpus = cpus ≡ 0
CpusOf (ok node) cpus = cpus ≡ node.allocatable_cpus % 2 ^ 32

-- In MiB, of the bytes of the node, where these are not negative.
abbrev pub MemoryOf : Result KubernetesNode → ℕ → Type 0
MemoryOf (err e) memory = memory ≡ 0
MemoryOf (ok node) memory =
    node.allocatable_memory < 2 ^ 63 → memory ≡ node.allocatable_memory / 1024 / 1024

-- In GiB, of the blocks of the disk and their size, where the product fits.
abbrev pub StorageOf : Result (ℕ × ℕ) → ℕ → Type 0
StorageOf (err e) storage = storage ≡ 0
StorageOf (ok (available, size)) storage =
    available * size < 2 ^ 64 → storage ≡ available * size / 1024 / 1024 / 1024

abbrev pub healthy : Host → Bool
healthy host = host.socket_ready && host.state_ready && host.kvm_available

-- The status that is written over another: whose it is, where, since when, what it offers, and what its
-- conditions say, if the types of the old ones were distinct.
pub record Tells (a : Agent) (host : Host) (found again : Result KubernetesNode) (heartbeat : ℕ)
    (before after : SmolVmNodeStatus) : Type 0 where
  pub uid : after.node_uid ≡ uid_of a found
  pub version : after.runtime_version ≡ a.version
  pub protocol : after.protocol_version ≡ "v1alpha1"
  pub beat : after.heartbeat_time ≡ some heartbeat
  pub pod_name : after.endpoint.pod_name ≡ a.pod_name
  pub pod_namespace : after.endpoint.pod_namespace ≡ a.pod_namespace
  pub pod_ip : after.endpoint.pod_ip ≡ a.pod_ip
  pub port : after.endpoint.port ≡ a.listen_port
  pub cpus : CpusOf again after.allocatable.cpus
  pub memory : MemoryOf again after.allocatable.memory_mib
  pub storage : StorageOf host.statfs after.allocatable.storage_gib
  pub ready :
      UniqueTypes before.conditions
      → has_condition after.conditions node_condition_ready condition_true ≡ healthy host
  pub kvm :
      UniqueTypes before.conditions
      → has_condition after.conditions node_condition_kvm_available condition_true
        ≡ host.kvm_available
  pub runtime :
      UniqueTypes before.conditions
      → has_condition after.conditions node_condition_runtime_ready condition_true
        ≡ host.socket_ready
  pub schedulable :
      UniqueTypes before.conditions
      → (has_condition after.conditions node_condition_schedulable condition_true ≡ true)
        ↔ (ReadyNode found × (healthy host ≡ true))

pub learned_lem :
    (a : Agent) (found : Result KubernetesNode)
    → learned a found ≡ record a { node_uid = uid_of a found }
learned_lem a (err e) = refl
learned_lem a (ok node) = refl

node_ready_in_iff :
    (cs : List (String × ConditionStatus)) → (node_ready_in cs ≡ true) ↔ FirstReady cs
unfolding node_ready_in
node_ready_in_iff [] = ground arith
node_ready_in_iff ((type, status) ∷ rest) =
    ground (arith, eq_iff type "Ready", node_ready_in_iff rest)

kubernetes_node_ready_iff :
    (found : Result KubernetesNode)
    → (kubernetes_node_ready (node_or_zero found) ≡ true) ↔ ReadyNode found
unfolding kubernetes_node_ready node_ready_in
kubernetes_node_ready_iff (err e) = ground arith
kubernetes_node_ready_iff (ok node) = node_ready_in_iff node.conditions

module _ (a : Agent) (host : Host) (again : Result KubernetesNode) where
  abbrev offered : Result KubernetesNode → Host
  offered x = record host { node = x }

  cpus_lem : (x : Result KubernetesNode) → CpusOf x (capability_report a (offered x)).cpus
  unfolding capability_report
  cpus_lem (err e) = refl
  cpus_lem (ok node) = refl

  memory_lem : (x : Result KubernetesNode) → MemoryOf x (capability_report a (offered x)).memory_mib
  unfolding capability_report quotient
  memory_lem (err e) = refl
  memory_lem (ok node) = λ fits. ground (arith, fits)

storage_gib_lem : (x : Result (ℕ × ℕ)) → StorageOf x (storage_gib x)
unfolding storage_gib
storage_gib_lem (err e) = refl
storage_gib_lem (ok (available, size)) =
    λ fits. ap (λ n. n / 1024 / 1024 / 1024) (mod_small (available * size) fits)
  where
    mod_small : (n : ℕ) → n < 2 ^ 64 → n % 2 ^ 64 ≡ n
    mod_small n small = omega (arith, small)

pub reported_status-Tells :
    (a : Agent) (host : Host) (found again : Result KubernetesNode) (t : ReportTimes)
    (before : SmolVmNodeStatus)
    → Tells a host found again t.heartbeat before (
        reported_status
          (learned a found)
          (record host { node = again })
          (kubernetes_node_ready (node_or_zero found))
          t
          before)
unfolding reported_status health_of capability_report
reported_status-Tells a host found again t before =
    let health = health_of (record host { node = again }) in
    let is_ready = kubernetes_node_ready (node_or_zero found) in
    let cs = before.conditions in
    record {
      uid = ap (λ b. b.node_uid) (learned_lem a found);
      version = refl;
      protocol = refl;
      beat = refl;
      pod_name = refl;
      pod_namespace = refl;
      pod_ip = refl;
      port = refl;
      cpus = cpus_lem a host again again;
      memory = memory_lem a host again again;
      storage = storage_gib_lem host.statfs;
      ready = λ unique. reported-ready health is_ready t cs unique;
      kvm = λ unique. reported-kvm health is_ready t cs unique;
      runtime = λ unique. reported-runtime health is_ready t cs unique;
      schedulable = λ unique. ground (
        arith,
        reported-schedulable health is_ready t cs unique,
        kubernetes_node_ready_iff found,
      );
    }
