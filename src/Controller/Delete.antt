-- ===== src/Controller/Delete.antt =====
-- reconcileDelete of internal/controller/smolvm_controller.go.
use smolvm_operator.Prelude.{
  String, not, ◌||◌, Option, none, some, [], ◌∷◌, str_eq, text_at, concat, if◌then◌else◌,
}
use smolvm_operator.Api.{condition_true, SmolVm, smolvm_finalizer, force_delete_annotation}
use smolvm_operator.Smolvm.{Error, error_text, is_not_found}
use smolvm_operator.Program.{
  Runtime, normal, warning, update_vm, runtime, delete_machine, Program, ret, perform, ◌>>=◌, ◌>>◌,
}
use smolvm_operator.Program.Control.{caught}
use smolvm_operator.Controller.Reconciler.{Reconciler, Outcome, finished, emit, runtime_for_node}
use smolvm_operator.Controller.Status.{
  bound_report, StatusInput, not_ready, update_status_then_requeue, unavailable_report,
  runtime_unavailable,
}

module _ (r : Reconciler) (vm : SmolVm) (machine_name : String) where
  unfoldable pub drop_finalizer : Program Outcome
  drop_finalizer =
      perform (
        update_vm (record vm {
          meta = record vm.meta {
            finalizers = r.deps.remove_finalizer vm.meta.finalizers smolvm_finalizer;
          };
        }))
      >>= λ e. ret (finished e)

  unfoldable pub deletion_status : Error → StatusInput
  deletion_status e = record {
    phase = "Deleting";
    node_name = vm.status.node_name;
    machine_name = machine_name;
    machine = none;
    scheduled = bound_report vm.status.node_name;
    ready = unavailable_report e;
    recon = not_ready "DeletionBlocked" (error_text e);
    deletion_blocked = record {
      status = condition_true;
      reason = "RuntimeUnavailable";
      message = concat (
          "owning node " ∷ vm.status.node_name ∷ " is unavailable; local VM state may still exist"
          ∷ []);
    };
  }

  -- The runtime of the owning node cannot be used.
  unfoldable pub delete_without_runtime : Error → Program Outcome
  unfolding drop_finalizer deletion_status
  delete_without_runtime e =
      if str_eq (text_at force_delete_annotation vm.meta.annotations) "true"
      then (do
        emit r warning "ForceDeleteLocalState" (
            concat (
              "removing finalizer while runtime for node " ∷ vm.status.node_name
              ∷ " is unavailable; local VM state may remain" ∷ []))
        drop_finalizer)
      else do
        emit r warning "DeletionBlocked" (error_text e)
        update_status_then_requeue r vm (deletion_status e)

  unfoldable pub deleted : Option Error → Program Outcome
  unfolding drop_finalizer
  deleted none = drop_finalizer
  deleted (some e) =
      if not (is_not_found e)
      then runtime_unavailable r vm vm.status.node_name machine_name e
      else drop_finalizer

  unfoldable pub delete_with_runtime : Runtime → Program Outcome
  unfolding deleted
  delete_with_runtime api = do
    emit r normal "Deleting" (concat ("deleting smolvm machine " ∷ machine_name ∷ []))
    e ← perform (runtime api (delete_machine machine_name))
    deleted e

  unfoldable pub reconcile_delete : Program Outcome
  unfolding delete_without_runtime delete_with_runtime
  reconcile_delete =
      if str_eq vm.status.node_name "" || str_eq machine_name ""
      then drop_finalizer
      else runtime_for_node r vm.status.node_name
        >>= caught delete_without_runtime delete_with_runtime
