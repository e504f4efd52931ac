-- ===== src/Controller/Fit/Eligible.antt =====
-- smolVMNodeEligible and the selector, told without the source's order of tests.
use smolvm_operator.Prelude.{
  ℕ, String, ◌≡◌, ◌≢◌, ◌↔◌, ◌⊎◌, true, ◌+◌, ◌≤◌, Option, none, some, List, [], ◌∷◌, arith, int32_lt,
  eq_iff, text_at, All, Any,
}
use smolvm_operator.Api.{
  condition_true, Condition, SmolVmNode, node_condition_ready, node_condition_kvm_available,
  node_condition_runtime_ready, node_condition_schedulable,
}
use smolvm_operator.Controller.Conditions.{has_condition}
use smolvm_operator.Controller.Fit.{heartbeat_limit, smolvm_node_eligible, matches_node_selector}

abbrev pub HasTrue : SmolVmNode → String → Type 0
HasTrue node type = Any (λ c. (c.type ≡ type) × (c.status ≡ condition_true)) node.status.conditions

has_true_iff :
    (type : String) (cs : List Condition)
    → (has_condition cs type condition_true ≡ true)
      ↔ Any (λ c. (c.type ≡ type) × (c.status ≡ condition_true)) cs
unfolding has_condition
has_true_iff type [] = ground arith
has_true_iff type (c ∷ cs) = ground (arith, eq_iff c.type type, has_true_iff type cs)

-- The node reported within the last two minutes, or its clock is ahead.
abbrev pub Fresh : ℕ → Option ℕ → Type 0
Fresh now none = ⊥
Fresh now (some time) = now ≤ time + heartbeat_limit

pub record Eligible (now : ℕ) (node : SmolVmNode) : Type 0 where
  pub ready : HasTrue node node_condition_ready
  pub kvm : HasTrue node node_condition_kvm_available
  pub runtime : HasTrue node node_condition_runtime_ready
  pub schedulable : HasTrue node node_condition_schedulable
  pub protocol : (node.status.protocol_version ≡ "") ⊎ (node.status.protocol_version ≡ "v1alpha1")
  pub fresh : Fresh now node.status.heartbeat_time
  pub address : node.status.endpoint.pod_ip ≢ ""
  pub port : int32_lt 0 node.status.endpoint.port ≡ true

-- A node is eligible exactly when its four conditions are true, it speaks the controller's protocol or
-- names none, its heartbeat is at most two minutes old, and it has an address and a positive port.
pub smolvm_node_eligible_iff :
    (now : ℕ) (node : SmolVmNode) → (smolvm_node_eligible now node ≡ true) ↔ Eligible now node
unfolding smolvm_node_eligible
smolvm_node_eligible_iff now node =
    let cs = node.status.conditions in
    let ready = has_true_iff node_condition_ready cs in
    let kvm = has_true_iff node_condition_kvm_available cs in
    let runtime = has_true_iff node_condition_runtime_ready cs in
    let schedulable = has_true_iff node_condition_schedulable cs in
    (
      (λ h. record {
        ready = ready.0 (ground arith);
        kvm = kvm.0 (ground arith);
        runtime = runtime.0 (ground arith);
        schedulable = schedulable.0 (ground arith);
        protocol = ground (
          arith,
          eq_iff node.status.protocol_version "",
          eq_iff node.status.protocol_version "v1alpha1",
        );
        fresh = ground arith;
        address = ground (arith, eq_iff node.status.endpoint.pod_ip "");
        port = ground arith;
      }),
      (λ e. ground (
        arith,
        ready.1 e.ready,
        kvm.1 e.kvm,
        runtime.1 e.runtime,
        schedulable.1 e.schedulable,
        e.protocol,
        e.fresh,
        e.address,
        e.port,
        eq_iff node.status.protocol_version "",
        eq_iff node.status.protocol_version "v1alpha1",
        eq_iff node.status.endpoint.pod_ip "",
      )),
    )

-- A node matches a selector exactly when every entry's value is the node's label of that key, where a
-- label that is missing counts as the empty text.
pub matches_node_selector_iff :
    (node : SmolVmNode) (selector : List (String × String))
    → (matches_node_selector node selector ≡ true)
      ↔ All (λ entry. text_at entry.0 node.meta.labels ≡ entry.1) selector
unfolding matches_node_selector
matches_node_selector_iff node [] = ground arith
matches_node_selector_iff node ((key, value) ∷ rest) =
    ground (arith, eq_iff (text_at key node.meta.labels) value, matches_node_selector_iff node rest)
