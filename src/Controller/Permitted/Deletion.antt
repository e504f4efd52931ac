-- ===== src/Controller/Permitted/Deletion.antt =====
-- reconcileDelete keeps the contract.
use smolvm_operator.Prelude.{
  String, ◌≡◌, ◌≢◌, inl, inr, refl, true, not, ◌||◌, Option, none, some, ◌∷◌, Bool-cases, arith,
  str_eq, eq_iff, text_at,
}
use smolvm_operator.Api.{SmolVm, force_delete_annotation}
use smolvm_operator.Smolvm.{Error, error_text, ok, err, is_not_found}
use smolvm_operator.Program.{Runtime, normal, warning, runtime, delete_machine, History}
use smolvm_operator.Program.Past.{latest}
use smolvm_operator.Program.Rules.{Holds, returns, calls, Holds-if, Holds-bind}
use smolvm_operator.Controller.Reconciler.{Reconciler}
use smolvm_operator.Controller.Delete.{
  drop_finalizer, delete_without_runtime, deleted, delete_with_runtime, reconcile_delete,
}
use smolvm_operator.Controller.Permitted.{
  Permitted, read, release, delete, Released, never_placed, forced, removed, absent,
  deletion_requested,
}
use smolvm_operator.Controller.Permitted.Trust.{Trusted, Unusable}
use smolvm_operator.Controller.Permitted.Growth.{Trusted-grows, Unusable-grows}
use smolvm_operator.Controller.Permitted.Lookup.{runtime_for_node-Looked}
use smolvm_operator.Controller.Permitted.Writes.{
  AnyOutcome, emit-Permitted, update_status_then_requeue-Permitted, runtime_unavailable-Permitted,
}

module _ (r : Reconciler) (vm : SmolVm) (name : String) (named : name ≢ "")
    (deleting : deletion_requested vm ≡ true) where
  drop_finalizer-Permitted :
      {h : History}
      → Released r vm name h
      → Holds (Permitted r vm name) AnyOutcome h (drop_finalizer r vm name)
  unfolding drop_finalizer
  drop_finalizer-Permitted released = calls (release deleting released) (λ e. returns tt)

  delete_without_runtime-Permitted :
      (h : History) (e : Error)
      → Unusable r vm.status.node_name h
      → Holds (Permitted r vm name) AnyOutcome h (delete_without_runtime r vm name e)
  unfolding delete_without_runtime
  delete_without_runtime-Permitted h e unusable =
      Holds-if (str_eq (text_at force_delete_annotation vm.meta.annotations) "true")
        (λ asked.
          Holds-bind (emit-Permitted r vm name h warning "ForceDeleteLocalState" _) (λ g done grown.
            drop_finalizer-Permitted
              (forced ((eq_iff _ _).0 asked) (Unusable-grows grown unusable))))
        (λ not_asked.
          Holds-bind (emit-Permitted r vm name h warning "DeletionBlocked" (error_text e))
            (λ g done grown.
              update_status_then_requeue-Permitted r vm name
                (record { name_kept = refl; node_kept = inl refl })))

  deleted-Permitted :
      (h : History) (api : Runtime) (e : Option Error)
      → Holds
          (Permitted r vm name)
          AnyOutcome
          ((runtime api (delete_machine name), e) ∷ h)
          (deleted r vm name e)
  unfolding deleted
  deleted-Permitted h api none = drop_finalizer-Permitted (removed api latest)
  deleted-Permitted h api (some e) =
      Holds-if (not (is_not_found e)) (λ failed. runtime_unavailable-Permitted r vm name e)
        (λ gone. drop_finalizer-Permitted (absent api e latest (ground arith)))

  delete_with_runtime-Permitted :
      (h : History) (api : Runtime)
      → vm.status.node_name ≢ ""
      → Trusted r vm.status.node_name h api
      → Holds (Permitted r vm name) AnyOutcome h (delete_with_runtime r vm name api)
  unfolding delete_with_runtime
  delete_with_runtime-Permitted h api placed trusted =
      Holds-bind (emit-Permitted r vm name h normal "Deleting" _) (λ g done grown.
        calls (delete api deleting placed (Trusted-grows grown trusted))
          (λ e. deleted-Permitted g api e))

  pub reconcile_delete-Permitted :
      (h : History) → Holds (Permitted r vm name) AnyOutcome h (reconcile_delete r vm name)
  unfolding reconcile_delete
  reconcile_delete-Permitted h = elim (Bool-cases (str_eq vm.status.node_name "")) [
    | inl unplaced ↦ rw unplaced (drop_finalizer-Permitted (never_placed ((eq_iff _ _).0 unplaced)))
    | inr placed ↦
        Holds-if (str_eq vm.status.node_name "" || str_eq name "")
          (λ either. absurd (ground (arith, eq_iff name "")))
          (λ neither.
            Holds-bind (runtime_for_node-Looked r vm.status.node_name (λ g c reads. read reads) h)
              (λ g. elim [
                | ok api ↦ λ looked.
                    delete_with_runtime-Permitted g api
                      (ground (arith, eq_iff vm.status.node_name "")) looked.1
                | err e ↦ λ looked. delete_without_runtime-Permitted g e looked.1
              ]))
  ]
