-- ===== src/Controller/Converge/Tests.antt =====
-- Rounds of a concrete object.
use smolvm_operator.Prelude.{refl, none, some, arith}
use smolvm_operator.Smolvm.{MachineInfo}
use smolvm_operator.Program.{Key}
use smolvm_operator.Controller.Reconcile.{machine_name_of}
use smolvm_operator.Program.Runs.{Leads}
use smolvm_operator.Controller.Machine.{
  validate_immutable_runtime_fields, validate_storage_does_not_shrink, needs_storage_expansion,
  same_ports,
}
use smolvm_operator.Controller.Converge.{Lawful}
use smolvm_operator.Controller.Converge.Settles.{Settled, reconcile_times, reconcile_times-Settled}
use smolvm_operator.Controller.Converge.Stuck.{Stuck, reconcile_times-Stuck}
use smolvm_operator.Samples.{sample_node, bound_vm, sample_machine}
use smolvm_operator.Samples.Libraries.{sample_reconciler}
use smolvm_operator.Samples.Serving.{bound_vm-Workable}

abbrev pub key : Key
key = record { name = "alpine"; namespace = "default" }

-- There is no machine yet.
reconcile_times-Settled_example :
    Leads
      (Lawful sample_reconciler "node-a" sample_node)
      (λ t done. Settled bound_vm.spec t)
      (record { vm = bound_vm; name = "k8s-default-alpine-0"; machine = none })
      (reconcile_times sample_reconciler 3 key)
unfolding machine_name_of
reconcile_times-Settled_example =
    reconcile_times-Settled sample_reconciler "node-a" sample_node bound_vm.spec 3
      (record { vm = bound_vm; name = "k8s-default-alpine-0"; machine = none }) key (omega arith)
      (record {
        spec = refl;
        bound = refl;
        workable = bound_vm-Workable;
        named = refl;
        manageable = tt;
      })

-- The machine's disk is smaller than the 20 GiB that the object asks for.
abbrev small_machine : MachineInfo
small_machine = record sample_machine { storage_gb = some 10 }

small_machine-Stuck :
    Stuck sample_reconciler "node-a" small_machine
      (record { vm = bound_vm; name = "k8s-default-alpine-0"; machine = some small_machine })
unfolding validate_immutable_runtime_fields validate_storage_does_not_shrink needs_storage_expansion
    same_ports machine_name_of
small_machine-Stuck = record {
  bound = refl;
  workable = bound_vm-Workable;
  named = refl;
  there = refl;
  matching = record { same_fields = refl; no_shrink = refl };
  grow = refl;
  up = refl;
}

reconcile_times-Stuck_example :
    Leads
      (Lawful sample_reconciler "node-a" sample_node)
      (λ t done. Stuck sample_reconciler "node-a" small_machine t)
      (record { vm = bound_vm; name = "k8s-default-alpine-0"; machine = some small_machine })
      (reconcile_times sample_reconciler 12 key)
reconcile_times-Stuck_example =
    reconcile_times-Stuck sample_reconciler "node-a" sample_node small_machine 12
      (record { vm = bound_vm; name = "k8s-default-alpine-0"; machine = some small_machine }) key
      small_machine-Stuck
