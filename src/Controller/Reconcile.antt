-- ===== src/Controller/Reconcile.antt =====
-- Reconcile of internal/controller/smolvm_controller.go, cut where the source
-- returns: each function below is a stretch of the source's body, in its order. Log lines are left out.
use smolvm_operator.Prelude.{
  String, Bool, true, false, not, ◌&&◌, Option, none, some, [], ◌∷◌, str_eq, concat, if◌then◌else◌,
}
use smolvm_operator.Api.{condition_true, SmolVm, smolvm_finalizer}
use smolvm_operator.Smolvm.{MachineInfo, Error, error_text, is_not_found}
use smolvm_operator.Program.{
  Key, Runtime, normal, warning, get_vm, update_vm, runtime, get_machine, create_machine,
  ensure_machine_running, stop_machine, resize_machine, Program, ret, perform, ◌>>=◌, ◌>>◌,
}
use smolvm_operator.Program.Control.{caught, on_error}
use smolvm_operator.Controller.Validation.{validate_spec}
use smolvm_operator.Controller.Machine.{
  build_create_request, build_resize_request, validate_immutable_runtime_fields,
  validate_storage_does_not_shrink, needs_storage_expansion, ready_from_machine,
  stable_machine_name,
}
use smolvm_operator.Controller.Reconciler.{
  Reconciler, Outcome, finished, requeue, emit, runtime_for_node,
}
use smolvm_operator.Controller.Status.{
  Report, no_report, bound_report, not_ready, machine_status, without_machine, update_status,
  update_status_then_requeue, runtime_unavailable,
}
use smolvm_operator.Controller.Schedule.{schedule}
use smolvm_operator.Controller.Delete.{reconcile_delete}

abbrev pub is_deleting : SmolVm → Bool
is_deleting vm = elim vm.meta.deletion_timestamp [ none ↦ false | some t ↦ true ]

abbrev is_running : MachineInfo → Bool
is_running machine = str_eq machine.state "running"

abbrev observed_report : MachineInfo → Report
observed_report machine = record {
  status = ready_from_machine machine;
  reason = "Observed";
  message = concat ("smolvm machine is " ∷ machine.state ∷ []);
}

abbrev reconciled_report : Report
reconciled_report = record {
  status = condition_true;
  reason = "Reconciled";
  message = "desired state matches smolvm runtime state";
}

module _ (r : Reconciler) (vm : SmolVm) (machine_name : String) where
  -- A call of the runtime that returns an error only, and the wait after it.
  unfoldable pub then_requeue : Option Error → Program Outcome
  then_requeue = on_error (runtime_unavailable r vm vm.status.node_name machine_name) (ret requeue)

  unfoldable pub add_finalizer : Program Outcome
  add_finalizer =
      perform (
        update_vm (record vm {
          meta = record vm.meta {
            finalizers = r.deps.add_finalizer vm.meta.finalizers smolvm_finalizer;
          };
        }))
      >>= λ e. ret (finished e)

  unfoldable pub invalid_spec : Error → Program Outcome
  invalid_spec e = do
    emit r warning "InvalidSpec" (error_text e)
    update_status r vm (
        without_machine "Failed" vm.status.node_name machine_name no_report
          (not_ready "InvalidSpec" (error_text e)) (not_ready "InvalidSpec" (error_text e)))

  -- The assignment of a node to a machine that has none.
  unfoldable pub assign : String × String → Program Outcome
  assign (node_name, message) =
      if str_eq node_name ""
      then update_status r vm (
          without_machine "Pending" "" machine_name (not_ready "NoEligibleNodes" message)
            (not_ready "AwaitingNodeAssignment" message)
            (not_ready "AwaitingNodeAssignment" message))
      else update_status_then_requeue r vm (
          without_machine "Scheduled" node_name machine_name (bound_report node_name)
            (not_ready "Scheduled" "waiting for node runtime reconciliation")
            (not_ready "RuntimePending" "waiting for node runtime reconciliation"))

  unfoldable pub reconcile_unbound : Program Outcome
  unfolding assign
  reconcile_unbound = schedule r vm >>= caught (λ e. ret (finished (some e))) assign

  unfoldable pub create : Runtime → Program Outcome
  create api = do
    emit r normal "Creating" (concat ("creating smolvm machine " ∷ machine_name ∷ []))
    made ← perform (runtime api (create_machine (build_create_request vm machine_name)))
    caught (runtime_unavailable r vm vm.status.node_name machine_name)
        (λ machine. update_status_then_requeue r vm (
          machine_status vm machine_name machine
            (not_ready "Created" "smolvm machine has been created; waiting before start")
            (not_ready "StartPending"
              "waiting for smolvm create operation to release runtime locks")))
        made

  unfoldable pub resize : Runtime → Program Outcome
  unfolding then_requeue
  resize api = do
    emit r normal "Resizing" (concat ("resizing smolvm machine " ∷ machine_name ∷ []))
    e ← perform (runtime api (resize_machine machine_name (build_resize_request vm)))
    then_requeue e

  unfoldable pub start : Runtime → Program Outcome
  unfolding then_requeue
  start api = do
    emit r normal "Starting" (concat ("starting smolvm machine " ∷ machine_name ∷ []))
    e ← perform (runtime api (ensure_machine_running machine_name))
    then_requeue e

  unfoldable pub stop : Runtime → Program Outcome
  unfolding then_requeue
  stop api = do
    emit r normal "Stopping" (concat ("stopping smolvm machine " ∷ machine_name ∷ []))
    e ← perform (runtime api (stop_machine machine_name))
    then_requeue e

  -- The end of Reconcile: an error of the status update is returned with its result.
  unfoldable pub report_reconciled : MachineInfo → Program Outcome
  report_reconciled machine =
      update_status r vm
        (machine_status vm machine_name machine (observed_report machine) reconciled_report)
      >>= λ outcome. on_error (λ e. ret outcome) (ret requeue) outcome.error

  -- From the test on spec.running on: the machine's disks are as large as wanted.
  unfoldable pub reconcile_power : Runtime → MachineInfo → Program Outcome
  unfolding start stop report_reconciled
  reconcile_power api machine =
      if vm.spec.running && not (is_running machine)
      then start api
      else if not vm.spec.running && is_running machine
      then stop api
      else report_reconciled machine

  unfoldable pub reconcile_storage : Runtime → MachineInfo → Program Outcome
  unfolding resize reconcile_power
  reconcile_storage api machine =
      if needs_storage_expansion vm machine
      then (if is_running machine
          then update_status r vm (
              machine_status vm machine_name machine
                (record {
                  status = ready_from_machine machine;
                  reason = "ResizePending";
                  message = "storage expansion requires the machine to be stopped";
                })
                (not_ready "ResizeRequiresStoppedMachine"
                  "set spec.running=false before expanding storage"))
          else resize api)
      else reconcile_power api machine

  -- The machine exists: the checks on what cannot change, then the rest.
  unfoldable pub reconcile_machine : Runtime → MachineInfo → Program Outcome
  unfolding reconcile_storage
  reconcile_machine api machine =
      on_error
        (λ e. do
          emit r warning "UnsupportedUpdate" (error_text e)
          update_status r vm (
              machine_status vm machine_name machine (observed_report machine)
                (not_ready "UnsupportedUpdate" (error_text e))))
        (on_error
          (λ e. update_status r vm (
            machine_status vm machine_name machine (observed_report machine)
              (not_ready "InvalidStorageResize" (error_text e))))
          (reconcile_storage api machine) (validate_storage_does_not_shrink vm machine))
        (validate_immutable_runtime_fields vm machine)

  unfoldable pub missing_machine : Runtime → Error → Program Outcome
  unfolding create
  missing_machine api e =
      if is_not_found e
      then create api
      else runtime_unavailable r vm vm.status.node_name machine_name e

  unfoldable pub reconcile_bound : Program Outcome
  unfolding missing_machine reconcile_machine
  reconcile_bound =
      runtime_for_node r vm.status.node_name
      >>= caught (runtime_unavailable r vm vm.status.node_name machine_name) (λ api.
        perform (runtime api (get_machine machine_name))
        >>= caught (missing_machine api) (reconcile_machine api))

  unfoldable pub reconcile_present : Program Outcome
  unfolding add_finalizer invalid_spec reconcile_unbound reconcile_bound
  reconcile_present =
      if not (r.deps.contains_finalizer vm.meta.finalizers smolvm_finalizer)
      then add_finalizer
      else on_error invalid_spec
          (if str_eq vm.status.node_name "" then reconcile_unbound else reconcile_bound)
          (validate_spec r.deps vm)

module _ (r : Reconciler) where
  unfoldable pub machine_name_of : SmolVm → String
  machine_name_of vm =
      if str_eq vm.status.machine_name ""
      then stable_machine_name r.deps vm
      else vm.status.machine_name

  unfoldable pub reconcile_vm : SmolVm → Program Outcome
  unfolding reconcile_delete reconcile_present machine_name_of
  reconcile_vm vm =
      if is_deleting vm
      then reconcile_delete r vm (machine_name_of vm)
      else reconcile_present r vm (machine_name_of vm)

  unfoldable pub reconcile : Key → Program Outcome
  unfolding reconcile_vm
  reconcile key =
      perform (get_vm key) >>= caught (λ e. ret (finished (r.deps.ignore_not_found e))) reconcile_vm
