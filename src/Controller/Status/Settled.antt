-- ===== src/Controller/Status/Settled.antt =====
-- updateStatus over its own result: the same input writes the same status, so nothing is written.
use smolvm_operator.Prelude.{◌≡◌, refl, ap, ◌∙◌, Option, none, some, List}
use smolvm_operator.Api.{
  SmolVm, SmolVmStatus, Condition, condition_ready, condition_runtime_ready, condition_guest_ready,
  condition_reconciled, condition_scheduled, condition_deletion_blocked,
}
use smolvm_operator.Smolvm.{MachineInfo}
use smolvm_operator.Deps.{Documented}
use smolvm_operator.Program.{now, History}
use smolvm_operator.Program.Rules.{Holds, returns, calls}
use smolvm_operator.Controller.Reconciler.{Reconciler, finished}
use smolvm_operator.Controller.Status.{
  StatusInput, scheduled_report, guest_report, Times, put, put_if_given, next_conditions, observed,
  next_status, write_status, publish,
}
use smolvm_operator.Controller.Status.Puts.{put_settled, put_if_given_settled}
use smolvm_operator.Controller.Status.Laws.{next_conditions-Reported}

-- The object as it stands after the status has been written.
abbrev pub updated : StatusInput → SmolVm → Times → SmolVm
updated given latest t = record latest { status = next_status given latest t }

module _ (given : StatusInput) (latest : SmolVm) (t u : Times) where
  abbrev settled : List Condition
  settled = next_conditions given latest t

  next_conditions_again :
      next_conditions given
        (record latest { status = record latest.status { conditions = settled } })
        u
      ≡ settled
  unfolding next_conditions
  next_conditions_again =
      let facts = next_conditions-Reported given latest t in
      let e1 =
        put_if_given_settled latest u.scheduled condition_scheduled (scheduled_report given)
          latest.status.conditions settled facts.scheduled in
      let e2 = put_settled latest u.ready condition_ready given.ready settled facts.ready in
      let e3 =
        put_settled latest u.runtime_ready condition_runtime_ready given.ready settled
          facts.runtime_ready in
      let e4 =
        put_settled latest u.guest_ready condition_guest_ready guest_report settled
          facts.guest_ready in
      let e5 =
        put_settled latest u.reconciled condition_reconciled given.recon settled facts.reconciled in
      let e6 =
        put_if_given_settled latest u.deletion_blocked condition_deletion_blocked
          given.deletion_blocked latest.status.conditions settled facts.deletion_blocked in
      ap
        (λ cs.
          put_if_given latest u.deletion_blocked condition_deletion_blocked given.deletion_blocked (
            put latest u.reconciled condition_reconciled given.recon (
              put latest u.guest_ready condition_guest_ready guest_report (
                put latest u.runtime_ready condition_runtime_ready given.ready
                  (put latest u.ready condition_ready given.ready cs)))))
        e1
      ∙ ap
          (λ cs.
            put_if_given latest u.deletion_blocked condition_deletion_blocked given.deletion_blocked
              (put latest u.reconciled condition_reconciled given.recon (
                put latest u.guest_ready condition_guest_ready guest_report
                  (put latest u.runtime_ready condition_runtime_ready given.ready cs))))
          e2
      ∙ ap
          (λ cs.
            put_if_given latest u.deletion_blocked condition_deletion_blocked given.deletion_blocked
              (put latest u.reconciled condition_reconciled given.recon
                (put latest u.guest_ready condition_guest_ready guest_report cs)))
          e3
      ∙ ap
          (λ cs.
            put_if_given latest u.deletion_blocked condition_deletion_blocked given.deletion_blocked
              (put latest u.reconciled condition_reconciled given.recon cs))
          e4
      ∙ ap
          (λ cs.
            put_if_given latest u.deletion_blocked condition_deletion_blocked given.deletion_blocked
              cs)
          e5
      ∙ e6

  observed_again :
      (machine : Option MachineInfo) (s : SmolVmStatus) (cs : List Condition)
      → cs ≡ settled
      → (record (observed machine (record (observed machine s) {
        phase = given.phase;
        node_name = given.node_name;
        machine_name = given.machine_name;
        observed_generation = latest.meta.generation;
        conditions = settled;
      })) {
        phase = given.phase;
        node_name = given.node_name;
        machine_name = given.machine_name;
        observed_generation = latest.meta.generation;
        conditions = cs;
      })
        ≡ (record (observed machine s) {
          phase = given.phase;
          node_name = given.node_name;
          machine_name = given.machine_name;
          observed_generation = latest.meta.generation;
          conditions = settled;
        })
  unfolding observed
  observed_again none s cs e = rw e refl
  observed_again (some m) s cs e = rw e refl

  next_status_again : next_status given (updated given latest t) u ≡ next_status given latest t
  unfolding next_status
  next_status_again =
      observed_again given.machine latest.status (next_conditions given (updated given latest t) u)
        next_conditions_again

-- Reporting the same again after a status has been written reads the clock and writes nothing, so a
-- reconciliation that finds nothing new does not trigger itself by its own status.
pub publish_again :
    (r : Reconciler) (given : StatusInput) (latest : SmolVm) (t : Times) (h : History)
    → Documented r.deps
    → Holds
        (λ g c. c ≡ now)
        (λ g outcome. outcome ≡ finished none)
        h
        (publish r given (updated given latest t))
unfolding publish write_status
publish_again r given latest t h documented = calls refl λ t1. calls refl λ t2. calls refl λ t3.
    calls refl λ t4. calls refl λ t5. calls refl λ t6.
      let same = next_status_again given latest t (record {
        scheduled = t1;
        ready = t2;
        runtime_ready = t3;
        guest_ready = t4;
        reconciled = t5;
        deletion_blocked = t6;
      }) in
      rw (same, documented.deep_equal_refl (next_status given latest t)) (returns refl)
