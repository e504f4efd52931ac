-- ===== src/Controller/Permitted/Present.antt =====
-- Reconcile keeps the contract: of a machine that is not being deleted, and as a whole.
use Prim.Native.String.{slice}
use smolvm_operator.Prelude.{
  String, ◌≡◌, ◌≢◌, inl, inr, refl, sym, false, [], ◌∷◌, Bool-cases, arith, str_eq, eq_iff,
  concat-ne-nil,
}
use smolvm_operator.Api.{SmolVm, smolvm_finalizer}
use smolvm_operator.Smolvm.{Error, error_text, ok, err}
use smolvm_operator.Program.{warning, History}
use smolvm_operator.Program.Rules.{Holds, returns, calls, Holds-if, Holds-bind}
use smolvm_operator.Program.Control.{Holds-on_error}
use smolvm_operator.Controller.Validation.{validate_spec}
use smolvm_operator.Controller.Machine.{stable_machine_name}
use smolvm_operator.Controller.Reconciler.{Reconciler}
use smolvm_operator.Controller.Reconcile.{
  invalid_spec, assign, reconcile_unbound, reconcile_present, machine_name_of, reconcile_vm,
}
use smolvm_operator.Controller.Permitted.{Permitted, read, guard, Placed, deletion_requested}
use smolvm_operator.Controller.Permitted.Placement.{schedule-Assigned}
use smolvm_operator.Controller.Permitted.Deletion.{reconcile_delete-Permitted}
use smolvm_operator.Controller.Permitted.Writes.{
  AnyOutcome, emit-Permitted, update_status-Permitted, update_status_then_requeue-Permitted,
}
use smolvm_operator.Controller.Permitted.Bound.{reconcile_bound-Permitted}

module _ (r : Reconciler) (vm : SmolVm) (name : String) where
  assign-Permitted :
      (h : History) (node_name message : String)
      → vm.status.node_name ≡ ""
      → (node_name ≢ "" → Placed vm node_name h)
      → Holds (Permitted r vm name) AnyOutcome h (assign r vm name (node_name, message))
  unfolding assign
  assign-Permitted h node_name message unplaced placed =
      Holds-if (str_eq node_name "")
        (λ nowhere.
          update_status-Permitted r vm name
            (record { name_kept = refl; node_kept = inl (sym unplaced) }))
        (λ somewhere. update_status_then_requeue-Permitted r vm name (record {
          name_kept = refl;
          node_kept = inr (unplaced, placed (ground (arith, eq_iff node_name "")));
        }))

  invalid_spec-Permitted :
      (h : History) (e : Error)
      → Holds (Permitted r vm name) AnyOutcome h (invalid_spec r vm name e)
  unfolding invalid_spec
  invalid_spec-Permitted h e =
      Holds-bind (emit-Permitted r vm name h warning "InvalidSpec" (error_text e)) (λ g done grown.
        update_status-Permitted r vm name (record { name_kept = refl; node_kept = inl refl }))

  reconcile_unbound-Permitted :
      (h : History)
      → vm.status.node_name ≡ ""
      → Holds (Permitted r vm name) AnyOutcome h (reconcile_unbound r vm name)
  unfolding reconcile_unbound
  reconcile_unbound-Permitted h unplaced =
      Holds-bind (schedule-Assigned r vm (λ g c reads. read reads) h) (λ g. elim [
        | err e ↦ λ assigned. returns tt
        | ok (node_name, message) ↦
            λ assigned. assign-Permitted g node_name message unplaced assigned.1
      ])

  reconcile_present-Permitted :
      (h : History)
      → deletion_requested vm ≡ false
      → Holds (Permitted r vm name) AnyOutcome h (reconcile_present r vm name)
  unfolding reconcile_present
  reconcile_present-Permitted h wanted =
      elim (Bool-cases (r.deps.contains_finalizer vm.meta.finalizers smolvm_finalizer)) [
        | inr unguarded ↦ rw unguarded (calls (guard wanted) (λ e. returns tt))
        | inl guarded ↦ rw guarded (
            Holds-on_error (validate_spec r.deps vm) (λ e invalid. invalid_spec-Permitted h e)
              (λ valid. elim (Bool-cases (str_eq vm.status.node_name "")) [
                | inl unplaced ↦
                    rw unplaced (reconcile_unbound-Permitted h ((eq_iff _ _).0 unplaced))
                | inr placed ↦ rw placed (
                    reconcile_bound-Permitted r vm name wanted guarded valid h
                      (ground (arith, eq_iff vm.status.node_name "")))
              ]))
      ]

-- Every machine has a name.
pub machine_name_of-ne-nil : (r : Reconciler) (vm : SmolVm) → machine_name_of r vm ≢ ""
unfolding machine_name_of stable_machine_name
machine_name_of-ne-nil r vm = elim (Bool-cases (str_eq vm.status.machine_name "")) [
  | inl fresh ↦ rw fresh (
      concat-ne-nil "k8s-"
        (vm.meta.namespace
          ∷ "-"
          ∷ vm.meta.name
          ∷ "-"
          ∷ slice (r.deps.sha256_hex vm.meta.uid) 0 10
          ∷ [])
        refl)
  | inr old ↦ rw old (ground (arith, eq_iff vm.status.machine_name ""))
]

module _ (r : Reconciler) where
  pub reconcile_vm-Permitted :
      (vm : SmolVm) (h : History)
      → Holds (Permitted r vm (machine_name_of r vm)) AnyOutcome h (reconcile_vm r vm)
  unfolding reconcile_vm
  reconcile_vm-Permitted vm h = elim (Bool-cases (deletion_requested vm)) [
    | inl deleting ↦ rw deleting (
        reconcile_delete-Permitted r vm (machine_name_of r vm) (machine_name_of-ne-nil r vm)
          deleting h)
    | inr wanted ↦ rw wanted (reconcile_present-Permitted r vm (machine_name_of r vm) h wanted)
  ]
