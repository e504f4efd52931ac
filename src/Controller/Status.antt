-- ===== src/Controller/Status.antt =====
-- statusInput, updateStatus and runtimeUnavailable of internal/controller/smolvm_controller.go. The
-- clock is read before each setCondition, also where the reading is not used.
pub mod Puts
pub mod Laws
pub mod Settled
use smolvm_operator.Prelude.{
  ℕ, String, Option, none, some, List, [], ◌∷◌, str_eq, concat, if◌then◌else◌,
}
use smolvm_operator.Api.{
  ConditionStatus, condition_true, condition_false, condition_unknown, unset, Condition, SmolVm,
  SmolVmStatus, condition_ready, condition_runtime_ready, condition_guest_ready,
  condition_reconciled, condition_scheduled, condition_deletion_blocked,
}
use smolvm_operator.Smolvm.{MachineInfo, Error, error_text}
use smolvm_operator.Program.{
  warning, get_vm, now, update_vm_status, Program, ret, perform, ◌>>=◌, ◌>>◌,
}
use smolvm_operator.Program.Control.{caught, on_error}
use smolvm_operator.Controller.Conditions.{set_condition}
use smolvm_operator.Controller.Machine.{ports_from_runtime, phase_from_machine}
use smolvm_operator.Controller.Reconciler.{Reconciler, Outcome, finished, requeue, key_of, emit}

-- What a caller says of one condition: its status, its reason and its message.
pub record Report : Type 0 where
  pub status : ConditionStatus
  pub reason : String
  pub message : String

-- The zero value.
abbrev pub no_report : Report
no_report = record { status = unset; reason = ""; message = "" }

-- The fields Scheduled, ScheduledReason and ScheduledMsg are `scheduled`, and so on.
pub record StatusInput : Type 0 where
  pub phase : String
  pub node_name : String
  pub machine_name : String
  pub machine : Option MachineInfo
  pub scheduled : Report
  pub ready : Report
  pub recon : Report
  pub deletion_blocked : Report

abbrev pub bound_report : String → Report
bound_report node_name = record {
  status = condition_true;
  reason = "Bound";
  message = concat ("assigned to node " ∷ node_name ∷ []);
}

-- The report on scheduling, filled in for a bound machine where the caller gives none.
unfoldable pub scheduled_report : StatusInput → Report
scheduled_report given =
    if str_eq given.scheduled.reason ""
    then (if str_eq given.node_name "" then given.scheduled else bound_report given.node_name)
    else given.scheduled

abbrev guest_report : Report
guest_report = record {
  status = condition_unknown;
  reason = "GuestReadinessUnavailable";
  message = "smolvm guest readiness is not reported by the runtime API";
}

-- The readings of the clock, in the order of the calls of setCondition.
pub record Times : Type 0 where
  pub scheduled : ℕ
  pub ready : ℕ
  pub runtime_ready : ℕ
  pub guest_ready : ℕ
  pub reconciled : ℕ
  pub deletion_blocked : ℕ

abbrev put : SmolVm → ℕ → String → Report → List Condition → List Condition
put latest time type report =
    set_condition time type report.status report.reason report.message latest.meta.generation

abbrev put_if_given : SmolVm → ℕ → String → Report → List Condition → List Condition
put_if_given latest time type report conditions =
    if str_eq report.reason "" then conditions else put latest time type report conditions

unfoldable pub next_conditions : StatusInput → SmolVm → Times → List Condition
unfolding scheduled_report
next_conditions given latest t =
    let c1 =
      put_if_given latest t.scheduled condition_scheduled (scheduled_report given)
        latest.status.conditions in
    let c2 = put latest t.ready condition_ready given.ready c1 in
    let c3 = put latest t.runtime_ready condition_runtime_ready given.ready c2 in
    let c4 = put latest t.guest_ready condition_guest_ready guest_report c3 in
    let c5 = put latest t.reconciled condition_reconciled given.recon c4 in
    put_if_given latest t.deletion_blocked condition_deletion_blocked given.deletion_blocked c5

observed : Option MachineInfo → SmolVmStatus → SmolVmStatus
observed none status = status
observed (some m) status = record status {
  runtime_pid = m.pid;
  network = m.network;
  ports = ports_from_runtime m.ports;
  storage_gib = m.storage_gb;
  overlay_gib = m.overlay_gb;
}

unfoldable pub next_status : StatusInput → SmolVm → Times → SmolVmStatus
unfolding observed next_conditions
next_status given latest t = record (observed given.machine latest.status) {
  phase = given.phase;
  node_name = given.node_name;
  machine_name = given.machine_name;
  observed_generation = latest.meta.generation;
  conditions = next_conditions given latest t;
}

abbrev pub unavailable_report : Error → Report
unavailable_report e = record {
  status = condition_false;
  reason = "RuntimeUnavailable";
  message = error_text e;
}

abbrev pub not_ready : (reason message : String) → Report
not_ready reason message = record { status = condition_false; reason = reason; message = message }

-- The status of a machine that exists, with the reports on readiness and on reconciliation.
abbrev pub machine_status : SmolVm → String → MachineInfo → (ready recon : Report) → StatusInput
machine_status vm machine_name machine ready recon = record {
  phase = phase_from_machine machine;
  node_name = vm.status.node_name;
  machine_name = machine_name;
  machine = some machine;
  scheduled = no_report;
  ready = ready;
  recon = recon;
  deletion_blocked = no_report;
}

abbrev pub without_machine :
    String → String → String → (scheduled ready recon : Report) → StatusInput
without_machine phase node_name machine_name scheduled ready recon = record {
  phase = phase;
  node_name = node_name;
  machine_name = machine_name;
  machine = none;
  scheduled = scheduled;
  ready = ready;
  recon = recon;
  deletion_blocked = no_report;
}

module _ (r : Reconciler) where
  unfoldable pub write_status : StatusInput → SmolVm → Times → Program Outcome
  write_status given latest t =
      let next = next_status given latest t in
      if r.deps.deep_equal latest.status next
      then ret (finished none)
      else perform (update_vm_status (record latest { status = next })) >>= λ e. ret (finished e)

  unfoldable pub publish : StatusInput → SmolVm → Program Outcome
  unfolding write_status
  publish given latest = do
    t1 ← perform now
    t2 ← perform now
    t3 ← perform now
    t4 ← perform now
    t5 ← perform now
    t6 ← perform now
    write_status given latest (record {
      scheduled = t1;
      ready = t2;
      runtime_ready = t3;
      guest_ready = t4;
      reconciled = t5;
      deletion_blocked = t6;
    })

  unfoldable pub update_status : SmolVm → StatusInput → Program Outcome
  unfolding publish
  update_status vm given =
      perform (get_vm (key_of vm))
      >>= caught (λ e. ret (finished (r.deps.ignore_not_found e))) (publish given)

  -- A status update whose error ends the reconciliation, which otherwise runs again after the wait.
  unfoldable pub update_status_then_requeue : SmolVm → StatusInput → Program Outcome
  update_status_then_requeue vm given = update_status vm given >>= λ outcome.
      on_error (λ e. ret (finished (some e))) (ret requeue) outcome.error

  unfoldable pub runtime_unavailable :
      SmolVm → (node_name machine_name : String) → Error → Program Outcome
  unfolding update_status_then_requeue
  runtime_unavailable vm node_name machine_name e = do
    emit r warning "RuntimeUnavailable" (error_text e)
    update_status_then_requeue vm (record {
      phase = "Unknown";
      node_name = node_name;
      machine_name = machine_name;
      machine = none;
      scheduled = no_report;
      ready = unavailable_report e;
      recon = unavailable_report e;
      deletion_blocked = no_report;
    })
