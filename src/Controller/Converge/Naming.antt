-- ===== src/Controller/Converge/Naming.antt =====
-- A status that is written names the node and the machine that it was given.
use smolvm_operator.Prelude.{String, ◌≡◌, refl, ap, none, inl, inr, Bool-cases}
use smolvm_operator.Api.{SmolVm, SmolVmStatus, SmolVmNode}
use smolvm_operator.Deps.{Documented}
use smolvm_operator.Program.Runs.{Leads, done, Leads-bind}
use smolvm_operator.Controller.Reconciler.{Reconciler}
use smolvm_operator.Controller.Status.{
  StatusInput, Times, next_status, write_status, publish, update_status, update_status_then_requeue,
}
use smolvm_operator.Controller.Converge.{State, Lawful}
use smolvm_operator.Controller.Converge.Statuses.{on_now, on_get_vm, on_update}

module _ (r : Reconciler) (documented : Documented r.deps) (node_name : String)
    (node : SmolVmNode) where
  abbrev pub Names : StatusInput → State → State → Type 0
  Names given s t =
      (t.machine ≡ s.machine)
      × (t.name ≡ s.name)
      × (status : SmolVmStatus) × (t.vm ≡ record s.vm { status = status })
      × (status.node_name ≡ given.node_name)
      × (status.machine_name ≡ given.machine_name)

  write_status-Names :
      (s : State) (given : StatusInput) (times : Times)
      → Leads
          (Lawful r node_name node)
          (λ t o. Names given s t × (o.error ≡ none))
          s
          (write_status r given s.vm times)
  unfolding write_status next_status
  write_status-Names s given times =
      elim (Bool-cases (r.deps.deep_equal s.vm.status (next_status given s.vm times))) [
        | inl equal ↦ rw equal (
            done (
              (
                refl,
                refl,
                s.vm.status,
                refl,
                ap (λ status. status.node_name) (documented.deep_equal_sound _ _ equal),
                ap (λ status. status.machine_name) (documented.deep_equal_sound _ _ equal),
              ),
              refl,
            ))
        | inr other ↦ rw other (
            on_update r node_name node
              (done ((refl, refl, next_status given s.vm times, refl, refl, refl), refl)))
      ]

  update_status-Names :
      (s : State) (vm : SmolVm) (given : StatusInput)
      → Leads
          (Lawful r node_name node)
          (λ t o. Names given s t × (o.error ≡ none))
          s
          (update_status r vm given)
  unfolding update_status publish
  update_status-Names s vm given = on_get_vm r node_name node (
      on_now r node_name node λ t1. on_now r node_name node λ t2. on_now r node_name node λ t3.
        on_now r node_name node λ t4.
          on_now r node_name node λ t5. on_now r node_name node λ t6. write_status-Names s given _)

  pub update_status_then_requeue-Names :
      (s : State) (vm : SmolVm) (given : StatusInput)
      → Leads
          (Lawful r node_name node)
          (λ t o. Names given s t)
          s
          (update_status_then_requeue r vm given)
  unfolding update_status_then_requeue
  update_status_then_requeue-Names s vm given =
      Leads-bind (update_status-Names s vm given) (λ t o (written, fine). rw fine (done written))
