-- ===== src/Controller/Permitted/Writes.antt =====
-- The status updates of Reconcile keep its contract.
use smolvm_operator.Prelude.{String, inl, refl}
use smolvm_operator.Api.{SmolVm}
use smolvm_operator.Smolvm.{Error, error_text, ok, err}
use smolvm_operator.Program.{EventType, warning, get_vm, History}
use smolvm_operator.Program.Past.{Got, Extends, past}
use smolvm_operator.Program.Rules.{Holds, returns, calls, Holds-if, Holds-bind}
use smolvm_operator.Program.Control.{Holds-on_error}
use smolvm_operator.Controller.Reconciler.{Reconciler, Outcome, key_of, emit}
use smolvm_operator.Controller.Status.{
  StatusInput, next_status, write_status, publish, Times, update_status, update_status_then_requeue,
  runtime_unavailable,
}
use smolvm_operator.Controller.Permitted.{Publishes, Permitted, read}
use smolvm_operator.Controller.Permitted.Growth.{Publishes-grows}
use smolvm_operator.Controller.Permitted as Contract

-- Nothing is said of the result.
abbrev pub AnyOutcome : History → Outcome → Type 0
AnyOutcome h outcome = Unit

module _ (r : Reconciler) (vm : SmolVm) (name : String) where
  pub emit-Permitted :
      (h : History) (kind : EventType) (reason message : String)
      → Holds (Permitted r vm name) (λ g done. Extends h g) h (emit r kind reason message)
  unfolding emit
  emit-Permitted h kind reason message =
      Holds-if r.has_recorder (λ on. calls (read tt) (λ done. returns (search past)))
        (λ off. returns (search past))

  write_status-Permitted :
      (h : History) (given : StatusInput) (newest : SmolVm) (times : Times)
      → Got (get_vm (key_of vm)) (ok newest) h
      → Publishes r vm name given h
      → Holds (Permitted r vm name) AnyOutcome h (write_status r given newest times)
  unfolding write_status
  write_status-Permitted h given newest times got p =
      Holds-if (r.deps.deep_equal newest.status (next_status given newest times))
        (λ same. returns tt)
        (λ other. calls (Contract.publish given newest times got p) (λ e. returns tt))

  pub update_status-Permitted :
      {h : History} {given : StatusInput}
      → Publishes r vm name given h
      → Holds (Permitted r vm name) AnyOutcome h (update_status r vm given)
  unfolding update_status publish
  update_status-Permitted {h} {given} p = calls (read tt) (elim [
    | err e ↦ returns tt
    | ok newest ↦ calls (read tt) λ t1. calls (read tt) λ t2. calls (read tt) λ t3.
        calls (read tt) λ t4. calls (read tt) λ t5. calls (read tt) λ t6.
          write_status-Permitted _ given newest _ (search past depth 9)
            (Publishes-grows (search past depth 9) p)
  ])

  pub update_status_then_requeue-Permitted :
      {h : History} {given : StatusInput}
      → Publishes r vm name given h
      → Holds (Permitted r vm name) AnyOutcome h (update_status_then_requeue r vm given)
  unfolding update_status_then_requeue
  update_status_then_requeue-Permitted p =
      Holds-bind (update_status-Permitted p) (λ g outcome done.
        Holds-on_error outcome.error (λ e is_err. returns tt) (λ fine. returns tt))

  pub runtime_unavailable-Permitted :
      {h : History} (e : Error)
      → Holds
          (Permitted r vm name)
          AnyOutcome
          h
          (runtime_unavailable r vm vm.status.node_name name e)
  unfolding runtime_unavailable
  runtime_unavailable-Permitted {h} e =
      Holds-bind (emit-Permitted h warning "RuntimeUnavailable" (error_text e)) (λ g done grown.
        update_status_then_requeue-Permitted (record { name_kept = refl; node_kept = inl refl }))
