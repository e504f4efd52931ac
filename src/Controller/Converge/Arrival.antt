-- ===== src/Controller/Converge/Arrival.antt =====
-- A new object, in an environment that also answers the scheduler.
pub mod Tests
use smolvm_operator.Prelude.{◌≡◌, true, false, none, List, ◌⊎◌, str_eq}
use smolvm_operator.Api.{SmolVm, SmolVmSpec, SmolVmNode, KubernetesNode, smolvm_finalizer}
use smolvm_operator.Deps.{Documented}
use smolvm_operator.Program.Runs.{Environment}
use smolvm_operator.Controller.Fit.{matches_node_selector}
use smolvm_operator.Controller.Validation.{validate_spec}
use smolvm_operator.Controller.Reconciler.{Reconciler}
use smolvm_operator.Controller.Schedule.{placement_reason}
use smolvm_operator.Controller.Reconcile.{is_deleting, machine_name_of, add_finalizer}
use smolvm_operator.Controller.Converge.{State}
use smolvm_operator.Controller.Converge.Offering.{Offering}

-- A new object: not placed yet and without a machine, valid, and free to go to the node, which accepts it.
pub record New (r : Reconciler) (node : SmolVmNode) (bound : List SmolVm) (kube : KubernetesNode)
    (wanted : SmolVmSpec) (s : State) : Type 0 where
  pub spec : s.vm.spec ≡ wanted
  pub wanted_still : is_deleting s.vm ≡ false
  pub unplaced : s.vm.status.node_name ≡ ""
  pub valid : validate_spec r.deps s.vm ≡ none
  pub free : (s.vm.spec.node_name ≡ "") ⊎ (s.vm.spec.node_name ≡ node.meta.name)
  pub named : str_eq node.meta.name "" ≡ false
  pub selected : matches_node_selector node s.vm.spec.node_selector ≡ true
  pub accepted : placement_reason node s.vm bound kube ≡ ""
  pub called : machine_name_of r s.vm ≡ s.name
  pub no_machine : s.machine ≡ none

module _ (r : Reconciler) (documented : Documented r.deps) (node : SmolVmNode)
    (others : List SmolVmNode) (bound : List SmolVm) (kube : KubernetesNode)
    (wanted : SmolVmSpec) where
  abbrev Env : Environment State
  Env = Offering r node.meta.name node others bound kube

  abbrev Guarded : State → Type 0
  Guarded s = r.deps.contains_finalizer s.vm.meta.finalizers smolvm_finalizer ≡ true

  abbrev guarded_vm : SmolVm → SmolVm
  guarded_vm vm = record vm {
    meta = record vm.meta { finalizers = r.deps.add_finalizer vm.meta.finalizers smolvm_finalizer };
  }
