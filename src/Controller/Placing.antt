-- ===== src/Controller/Placing.antt =====
-- schedule of internal/controller/smolvm_controller.go when a node suits the object.
mod Tests
use smolvm_operator.Prelude.{
  ℕ, if◌then◌else◌, concat, String, ◌≡◌, ◌⊎◌, true, false, not, List, [], ◌∷◌, All, Any, str_eq,
}
use smolvm_operator.Api.{SmolVm, SmolVmNode, KubernetesNode}
use smolvm_operator.Smolvm.{Result, ok, error_text}
use smolvm_operator.Program.{
  Program, ret, perform, ◌>>=◌, now, list_vms, list_nodes, get_node, get_kubernetes_node,
}
use smolvm_operator.Program.Control.{caught}
use smolvm_operator.Program.Progress.{Assumption}
use smolvm_operator.Controller.Fit.{keep_bound, smolvm_node_eligible, matches_node_selector}
use smolvm_operator.Controller.Reconciler.{Reconciler}
use smolvm_operator.Controller.Schedule.{placement_reason}

-- The cluster has these objects and nodes, and `chosen` reports whenever the clock is read.
abbrev pub Offers : List SmolVm → List SmolVmNode → SmolVmNode → KubernetesNode → Assumption
Offers items nodes chosen kube list_vms a = a ≡ ok items
Offers items nodes chosen kube list_nodes a = a ≡ ok nodes
Offers items nodes chosen kube (get_node name) a = a ≡ ok chosen
Offers items nodes chosen kube now time = smolvm_node_eligible time chosen ≡ true
Offers items nodes chosen kube (get_kubernetes_node name) a =
    (str_eq name chosen.meta.name ≡ false) ⊎ (a ≡ ok kube)
Offers items nodes chosen kube _ a = Unit

-- The node passes the tests that do not depend on the clock.
pub record Suits (vm : SmolVm) (items : List SmolVm) (node : SmolVmNode) (kube : KubernetesNode)
    : Type 0 where
  pub selected : matches_node_selector node vm.spec.node_selector ≡ true
  pub no_reason : placement_reason node vm (keep_bound vm items) kube ≡ ""

abbrev Named : SmolVmNode → Type 0
Named node = str_eq node.meta.name "" ≡ false

-- The object is pinned to the node, or it is free and the node is listed.
abbrev pub Candidate : SmolVm → List SmolVmNode → SmolVmNode → Type 0
Candidate vm nodes chosen =
    ((str_eq vm.spec.node_name "" ≡ false) × Named chosen)
    ⊎ ((str_eq vm.spec.node_name "" ≡ true) × All Named nodes × Any (λ node. node ≡ chosen) nodes)

-- The node passes every test: with some reading of the clock, and for some Kubernetes node.
pub record Accepts (vm : SmolVm) (items : List SmolVm) (node : SmolVmNode) : Type 0 where
  pub time : ℕ
  pub kube : KubernetesNode
  pub eligible : smolvm_node_eligible time node ≡ true
  pub selected : matches_node_selector node vm.spec.node_selector ≡ true
  pub no_reason : placement_reason node vm (keep_bound vm items) kube ≡ ""

-- The name is that of the node that the object is pinned to, or of one that is listed.
abbrev pub Offered : SmolVm → List SmolVmNode → SmolVmNode → SmolVmNode → Type 0
Offered vm nodes chosen node =
    ((str_eq vm.spec.node_name "" ≡ false) × (node ≡ chosen))
    ⊎ ((str_eq vm.spec.node_name "" ≡ true) × Any (λ listed. listed ≡ node) nodes)

abbrev pub FindsNode :
    SmolVm → List SmolVm → List SmolVmNode → SmolVmNode → Result (String × String) → Type 0
FindsNode vm items nodes chosen a =
    (node : SmolVmNode) × (a ≡ ok (node.meta.name, ""))
    × (str_eq node.meta.name "" ≡ false)
    × Accepts vm items node
    × Offered vm nodes chosen node

module _ (vm : SmolVm) (items : List SmolVm) (nodes : List SmolVmNode) (chosen : SmolVmNode)
    (kube : KubernetesNode) (suits : Suits vm items chosen kube) where
  abbrev Finds : Result (String × String) → Type 0
  Finds = FindsNode vm items nodes chosen

  -- What nodeRejectReason says of a node at a time.
  abbrev reason_at : SmolVmNode → ℕ → Program String
  reason_at node time =
      if not (smolvm_node_eligible time node)
      then ret "runtime not ready, heartbeat stale, or endpoint missing"
      else if not (matches_node_selector node vm.spec.node_selector)
      then ret "nodeSelector does not match"
      else perform (get_kubernetes_node node.meta.name)
        >>= caught (λ e. ret (concat ("Kubernetes Node unavailable: " ∷ error_text e ∷ [])))
            (λ k. ret (placement_reason node vm (keep_bound vm items) k))
