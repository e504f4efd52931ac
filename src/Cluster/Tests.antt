-- ===== src/Cluster/Tests.antt =====
-- A store with an object that is placed and one that waits.
use smolvm_operator.Prelude.{String, refl, List, [], ◌∷◌, arith, ne_of_test}
use smolvm_operator.Api.{SmolVm, SmolVmNode}
use smolvm_operator.Program.Rules.{Holds}
use smolvm_operator.Controller.Fit.{keep_bound, resource_fit_reason, host_port_conflict_reason}
use smolvm_operator.Controller.Reconcile.{reconcile_vm}
use smolvm_operator.Controller.Permitted.Writes.{AnyOutcome}
use smolvm_operator.Cluster.{create, place, Reach, empty, then_step}
use smolvm_operator.Cluster.Ports.{Exclusive, Reach-Exclusive}
use smolvm_operator.Cluster.Resources.{Modest}
use smolvm_operator.Cluster.Capacity.{Capacity, Reach-Capacity}
use smolvm_operator.Cluster.Writes.{StepsFresh, reconcile_vm-StepsFresh}
use smolvm_operator.Samples.{meta_of, sample_vm, bound_vm, sample_node}
use smolvm_operator.Samples.Libraries.{sample_reconciler}

-- All nodes are alike.
abbrev node_of : String → SmolVmNode
node_of name = record sample_node { meta = meta_of name }

sample-Modest : Modest node_of sample_vm.spec
sample-Modest name = record {
  cpus = omega arith;
  memory_word = omega arith;
  memory = omega arith;
  storage = omega arith;
}

abbrev waiting_vm : SmolVm
waiting_vm = record sample_vm { meta = meta_of "busybox" }

abbrev store : List SmolVm
store = waiting_vm ∷ bound_vm ∷ []

-- The first object is created and placed, then the second is created.
store-Reach : Reach node_of (Modest node_of) store
unfolding keep_bound resource_fit_reason host_port_conflict_reason
store-Reach =
    then_step
      (then_step (then_step empty (create sample_vm refl sample-Modest tt))
        (place [] [] sample_vm bound_vm refl refl refl refl refl))
      (create waiting_vm refl sample-Modest (ne_of_test "busybox" "alpine" refl, tt))

Reach-Exclusive_example : Exclusive store
Reach-Exclusive_example = Reach-Exclusive node_of (Modest node_of) store store-Reach

Reach-Capacity_example : Capacity node_of (λ name. refl) store
Reach-Capacity_example = Reach-Capacity node_of (λ name. refl) store store-Reach

reconcile_vm-StepsFresh_example :
    Holds
      (StepsFresh node_of (Modest node_of) waiting_vm [] (bound_vm ∷ []))
      AnyOutcome
      []
      (reconcile_vm sample_reconciler waiting_vm)
reconcile_vm-StepsFresh_example =
    reconcile_vm-StepsFresh node_of (Modest node_of) waiting_vm [] (bound_vm ∷ []) sample_reconciler
      []
