-- ===== src/Controller/Tests/Fit.antt =====
-- Scheduling and validation at concrete inputs.
use smolvm_operator.Prelude.{show_int32, ◌≡◌, ◌↔◌, refl, true, false, none, [], ◌∷◌, arith, Any}
use smolvm_operator.Controller.Reconciler.{key_of}
use smolvm_operator.Controller.Validation.{validate_spec}
use smolvm_operator.Controller.Validation.Laws.{ValidSpec, validate_spec_iff}
use smolvm_operator.Controller.Fit.{
  smolvm_node_eligible, resource_fit_reason, host_ports, host_port_conflict_reason,
}
use smolvm_operator.Controller.Fit.Eligible.{Eligible, smolvm_node_eligible_iff}
use smolvm_operator.Controller.Fit.Ports.{NoClash, host_port_conflict_reason_iff}
use smolvm_operator.Controller.Fit.Resources.{
  NoOverflow, Fitting, resource_fit_reason_iff, resource_fit_reason_overflow,
}
use smolvm_operator.Controller.Watch.{concerned_keys}
use smolvm_operator.Controller.Watch.Laws.{Concerned, concerned_keys_iff}
use smolvm_operator.Samples.{sample_vm, bound_vm, sample_node, unbounded_node, huge_vm}
use smolvm_operator.Samples.Libraries.{libraries}

node_is_eligible : smolvm_node_eligible 1000 sample_node ≡ true
unfolding smolvm_node_eligible
node_is_eligible = refl

node_is_stale : smolvm_node_eligible 120_000_000_101 sample_node ≡ false
unfolding smolvm_node_eligible
node_is_stale = refl

smolvm_node_eligible_iff_example :
    (smolvm_node_eligible 1000 sample_node ≡ true) ↔ Eligible 1000 sample_node
smolvm_node_eligible_iff_example = smolvm_node_eligible_iff 1000 sample_node

port_is_taken :
    host_port_conflict_reason "node-a" sample_vm (bound_vm ∷ [])
    ≡ "hostPort 8080 conflicts with default/alpine"
unfolding host_port_conflict_reason show_int32
port_is_taken = refl

host_port_conflict_reason_iff_example :
    (host_port_conflict_reason "node-a" sample_vm (bound_vm ∷ []) ≡ "")
    ↔ NoClash "node-a" (host_ports sample_vm) (bound_vm ∷ [])
host_port_conflict_reason_iff_example =
    host_port_conflict_reason_iff "node-a" sample_vm (bound_vm ∷ [])

sample-NoOverflow : NoOverflow sample_node sample_vm (bound_vm ∷ [])
sample-NoOverflow = record {
  cpus = omega arith;
  memory_valid = omega arith;
  memory = omega arith;
  storage = omega arith;
  allocatable_cpus = omega arith;
  allocatable_memory = omega arith;
  allocatable_storage = omega arith;
}

resource_fit_reason_iff_example :
    (resource_fit_reason sample_node sample_vm (bound_vm ∷ []) ≡ "")
    ↔ Fitting sample_node sample_vm (bound_vm ∷ [])
resource_fit_reason_iff_example =
    resource_fit_reason_iff sample_node sample_vm (bound_vm ∷ []) sample-NoOverflow

-- A request of 2 ^ 31 - 1 CPUs beside a machine with 2, on a node with 8.
resource_fit_reason_overflow_example :
    resource_fit_reason unbounded_node huge_vm (bound_vm ∷ []) ≡ ""
resource_fit_reason_overflow_example =
    resource_fit_reason_overflow unbounded_node huge_vm (bound_vm ∷ []) (omega arith) (omega arith)
      (omega arith) (omega arith) refl refl

validate_spec_iff_example : (validate_spec libraries bound_vm ≡ none) ↔ ValidSpec libraries bound_vm
validate_spec_iff_example = validate_spec_iff libraries bound_vm

concerned_keys_iff_example :
    Any (λ k. key_of bound_vm ≡ k) (concerned_keys "node-a" (bound_vm ∷ []))
    ↔ Any (λ vm. Concerned "node-a" vm × (key_of bound_vm ≡ key_of vm)) (bound_vm ∷ [])
concerned_keys_iff_example = concerned_keys_iff "node-a" (bound_vm ∷ []) (key_of bound_vm)
