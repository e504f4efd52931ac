-- ===== src/Controller/Progress.antt =====
-- Reconcile of internal/controller/smolvm_controller.go for a bound object whose node's runtime serves.
mod Tests
use smolvm_operator.Prelude.{
  ℕ, String, Bool, ◌≡◌, ◌≢◌, refl, true, false, not, ◌&&◌, Option, none, some, Bool-cases, inl, inr,
  str_eq, eq_iff, arith, if◌then◌else◌,
}
use smolvm_operator.Api.{SmolVm, SmolVmNode, smolvm_finalizer}
use smolvm_operator.Smolvm.{
  MachineInfo, Identity, Health, Capabilities, Error, Result, ok, err, is_not_found,
}
use smolvm_operator.Program.{
  Call, Reply, factory, Operation, get_node, now, runtime, health, identity, capabilities,
  get_machine, create_machine, ensure_machine_running, stop_machine, resize_machine, delete_machine,
  Program, ret, normal, update_vm,
}
use smolvm_operator.Program.Progress.{
  Reaches, here, next, Ends, ends, after, Reaches-bind, Reaches-then,
}
use smolvm_operator.Controller.Fit.{smolvm_node_eligible}
use smolvm_operator.Controller.Validation.{validate_spec}
use smolvm_operator.Controller.Machine.{
  build_create_request, build_resize_request, validate_immutable_runtime_fields,
  validate_storage_does_not_shrink, needs_storage_expansion,
}
use smolvm_operator.Controller.Reconciler.{
  Reconciler, identity_mismatch, protocol_mismatch, node_client, emit, runtime_for_node, check_node,
  check_health, check_identity, check_capabilities,
}
use smolvm_operator.Controller.Delete.{
  reconcile_delete, delete_with_runtime, deleted, drop_finalizer,
}
use smolvm_operator.Controller.Reconcile.{machine_name_of, is_deleting, reconcile_vm}
use smolvm_operator.Controller.Permitted.Lookup.{eligible-has_endpoint}
use smolvm_operator.Controller.Serving.{Serves, runtime_for_node-Ends}

-- The call asks a runtime for the operation.
abbrev pub Asks : Operation → Call → Type 0
Asks op (runtime api asked) = asked ≡ op
Asks op _ = ⊥

-- An object that Reconcile is to work on: valid, placed, guarded by its finalizer, and not being deleted.
pub record Workable (r : Reconciler) (vm : SmolVm) : Type 0 where
  pub wanted : is_deleting vm ≡ false
  pub guarded : r.deps.contains_finalizer vm.meta.finalizers smolvm_finalizer ≡ true
  pub valid : validate_spec r.deps vm ≡ none
  pub placed : str_eq vm.status.node_name "" ≡ false

-- The machine has the fields of the object that cannot change, and no disk larger than the object's.
pub record Matching (vm : SmolVm) (machine : MachineInfo) : Type 0 where
  pub same_fields : validate_immutable_runtime_fields vm machine ≡ none
  pub no_shrink : validate_storage_does_not_shrink vm machine ≡ none

-- What the runtime says of the machine calls for an operation.
pub data CallsFor (vm : SmolVm) (name : String) : Result MachineInfo → Operation → Type 0 where
  creation :
      (e : Error)
      → is_not_found e ≡ true
      → CallsFor vm name (err e) (create_machine (build_create_request vm name))
  growth :
      (machine : MachineInfo)
      → Matching vm machine
      → needs_storage_expansion vm machine ≡ true
      → str_eq machine.state "running" ≡ false
      → CallsFor vm name (ok machine) (resize_machine name (build_resize_request vm))
  launch :
      (machine : MachineInfo)
      → Matching vm machine
      → needs_storage_expansion vm machine ≡ false
      → vm.spec.running ≡ true
      → str_eq machine.state "running" ≡ false
      → CallsFor vm name (ok machine) (ensure_machine_running name)
  halt :
      (machine : MachineInfo)
      → Matching vm machine
      → needs_storage_expansion vm machine ≡ false
      → vm.spec.running ≡ false
      → str_eq machine.state "running" ≡ true
      → CallsFor vm name (ok machine) (stop_machine name)

-- An object that is being deleted, is placed and names its machine: if the node's runtime serves, Reconcile
-- asks a runtime to delete the machine, and writes the object without its finalizer.
pub reconcile_vm-Deletes :
    (r : Reconciler) (vm : SmolVm) (node : SmolVmNode) (observed : Result MachineInfo)
    → is_deleting vm ≡ true
    → str_eq vm.status.node_name "" ≡ false
    → str_eq (machine_name_of r vm) "" ≡ false
    → Reaches
        (Serves r vm.status.node_name node observed)
        (Asks (delete_machine (machine_name_of r vm)))
        (reconcile_vm r vm)
      × Reaches
          (Serves r vm.status.node_name node observed)
          (λ c.
            c
            ≡ update_vm (record vm {
              meta = record vm.meta {
                finalizers = r.deps.remove_finalizer vm.meta.finalizers smolvm_finalizer;
              };
            }))
          (reconcile_vm r vm)
unfolding reconcile_vm reconcile_delete delete_with_runtime deleted drop_finalizer
reconcile_vm-Deletes r vm node observed deleting placed named = (
  rw (deleting, placed, named)
      (Reaches-bind (runtime_for_node-Ends r vm.status.node_name node observed)
        (λ a (api, e, its). rw (e) (Reaches-then (emit r normal _ _) (λ _. here refl)))),
  rw (deleting, placed, named)
      (Reaches-bind (runtime_for_node-Ends r vm.status.node_name node observed) (λ a (api, e, its).
        rw (e) (Reaches-then (emit r normal _ _) (λ _. next (λ a' e'. rw (e') (here refl)))))),
)
