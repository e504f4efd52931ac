-- ===== src/Controller/Guarantees/Tests.antt =====
-- The guarantees at concrete objects.
use smolvm_operator.Prelude.{[]}
use smolvm_operator.Program.Rules.{Holds}
use smolvm_operator.Controller.Reconciler.{key_of}
use smolvm_operator.Controller.Reconcile.{reconcile_vm, reconcile}
use smolvm_operator.Controller.Permitted.Writes.{AnyOutcome}
use smolvm_operator.Controller.Guarantees.{
  PermittedFor, reconcile-Permitted, KeepsNode, reconcile_vm-KeepsNode, KeepsFinalizer,
  reconcile_vm-KeepsFinalizer,
}
use smolvm_operator.Samples.{sample_vm, bound_vm, deleting_vm}
use smolvm_operator.Samples.Libraries.{sample_reconciler, libraries-Documented}

reconcile-Permitted_example :
    Holds
      (PermittedFor sample_reconciler (key_of sample_vm))
      AnyOutcome
      []
      (reconcile sample_reconciler (key_of sample_vm))
reconcile-Permitted_example = reconcile-Permitted sample_reconciler (key_of sample_vm)

reconcile_vm-KeepsNode_example :
    Holds (KeepsNode bound_vm) AnyOutcome [] (reconcile_vm sample_reconciler bound_vm)
reconcile_vm-KeepsNode_example = reconcile_vm-KeepsNode sample_reconciler bound_vm []

reconcile_vm-KeepsFinalizer_example :
    Holds
      (KeepsFinalizer sample_reconciler deleting_vm)
      AnyOutcome
      []
      (reconcile_vm sample_reconciler deleting_vm)
reconcile_vm-KeepsFinalizer_example =
    reconcile_vm-KeepsFinalizer sample_reconciler deleting_vm [] libraries-Documented
