-- ===== src/Controller/Permitted/Bound.antt =====
-- Reconcile keeps the contract: of a machine that has its node and is not being deleted.
use smolvm_operator.Prelude.{
  String, ◌≡◌, ◌≢◌, inl, refl, true, false, not, ◌&&◌, Option, none, arith, str_eq,
}
use smolvm_operator.Api.{SmolVm, smolvm_finalizer}
use smolvm_operator.Smolvm.{MachineInfo, Error, error_text, ok, err, is_not_found}
use smolvm_operator.Program.{Runtime, normal, warning, runtime, get_machine, History}
use smolvm_operator.Program.Past.{latest, Got, Extends-refl, Extends-cons}
use smolvm_operator.Program.Rules.{Holds, returns, calls, Holds-if, Holds-bind}
use smolvm_operator.Program.Control.{Holds-on_error}
use smolvm_operator.Controller.Validation.{validate_spec}
use smolvm_operator.Controller.Machine.{
  validate_immutable_runtime_fields, validate_storage_does_not_shrink, needs_storage_expansion,
}
use smolvm_operator.Controller.Reconciler.{Reconciler}
use smolvm_operator.Controller.Reconcile.{
  then_requeue, add_finalizer, invalid_spec, assign, reconcile_unbound, resize, report_reconciled,
  reconcile_power, reconcile_storage, reconcile_machine, missing_machine, reconcile_bound,
  reconcile_present, machine_name_of, reconcile_vm,
}
use smolvm_operator.Controller.Reconcile as Code
use smolvm_operator.Controller.Permitted.{
  Permitted, read, create, start, stop, resize as resize_call, Active, Found, deletion_requested,
}
use smolvm_operator.Controller.Permitted.Growth.{Active-grows, Found-grows}
use smolvm_operator.Controller.Permitted.Lookup.{runtime_for_node-Looked}
use smolvm_operator.Controller.Permitted.Writes.{
  AnyOutcome, emit-Permitted, update_status-Permitted, update_status_then_requeue-Permitted,
  runtime_unavailable-Permitted,
}

module _ (r : Reconciler) (vm : SmolVm) (name : String) where
  then_requeue-Permitted :
      {h : History} (e : Option Error)
      → Holds (Permitted r vm name) AnyOutcome h (then_requeue r vm name e)
  unfolding then_requeue
  then_requeue-Permitted e =
      Holds-on_error e (λ x is_x. runtime_unavailable-Permitted r vm name x) (λ fine. returns tt)

  module _ (h : History) (api : Runtime) where
    create-Permitted :
        (e : Error)
        → Active r vm name api h
        → Got (runtime api (get_machine name)) (err e) h
        → is_not_found e ≡ true
        → Holds (Permitted r vm name) AnyOutcome h (Code.create r vm name api)
    unfolding Code.create
    create-Permitted e active got missing =
        Holds-bind (emit-Permitted r vm name h normal "Creating" _) (λ g done grown.
          calls (create api e (Active-grows grown active) (grown.keeps _ _ got) missing) (elim [
            | err x ↦ runtime_unavailable-Permitted r vm name x
            | ok machine ↦
                update_status_then_requeue-Permitted r vm name
                  (record { name_kept = refl; node_kept = inl refl })
          ]))

    module _ (machine : MachineInfo) (found : Found r vm name api machine h) where
      reconcile_power-Permitted :
          needs_storage_expansion vm machine ≡ false
          → Holds (Permitted r vm name) AnyOutcome h (reconcile_power r vm name api machine)
      unfolding reconcile_power
      reconcile_power-Permitted enough =
          Holds-if (vm.spec.running && not (str_eq machine.state "running"))
            (λ to_start.
              Holds-bind (emit-Permitted r vm name h normal "Starting" _) (λ g done grown.
                calls
                  (start api machine (Found-grows grown found) (ground arith) (ground arith) enough)
                  (λ e. then_requeue-Permitted e)))
            (λ no_start.
              Holds-if (not vm.spec.running && str_eq machine.state "running")
                (λ to_stop.
                  Holds-bind (emit-Permitted r vm name h normal "Stopping" _) (λ g done grown.
                    calls
                      (stop api machine (Found-grows grown found) (ground arith) (ground arith)
                        enough)
                      (λ e. then_requeue-Permitted e)))
                (λ no_stop.
                  Holds-bind
                    (update_status-Permitted r vm name
                      (record { name_kept = refl; node_kept = inl refl }))
                    (λ g outcome done.
                      Holds-on_error outcome.error (λ e is_e. returns tt) (λ fine. returns tt))))

      reconcile_storage-Permitted :
          Holds (Permitted r vm name) AnyOutcome h (reconcile_storage r vm name api machine)
      unfolding reconcile_storage
      reconcile_storage-Permitted =
          Holds-if (needs_storage_expansion vm machine)
            (λ more.
              Holds-if (str_eq machine.state "running")
                (λ on.
                  update_status-Permitted r vm name
                    (record { name_kept = refl; node_kept = inl refl }))
                (λ off. Holds-bind (emit-Permitted r vm name h normal "Resizing" _) (λ g done grown.
                  calls (resize_call api machine (Found-grows grown found) off more)
                    (λ e. then_requeue-Permitted e))))
            (λ enough. reconcile_power-Permitted enough)

    -- The machine has been read.
    missing_machine-Permitted :
        (e : Error)
        → Active r vm name api h
        → Got (runtime api (get_machine name)) (err e) h
        → Holds (Permitted r vm name) AnyOutcome h (missing_machine r vm name api e)
    unfolding missing_machine
    missing_machine-Permitted e active got =
        Holds-if (is_not_found e) (λ missing. create-Permitted e active got missing)
          (λ other. runtime_unavailable-Permitted r vm name e)

    reconcile_machine-Permitted :
        (machine : MachineInfo)
        → Active r vm name api h
        → Got (runtime api (get_machine name)) (ok machine) h
        → Holds (Permitted r vm name) AnyOutcome h (reconcile_machine r vm name api machine)
    unfolding reconcile_machine
    reconcile_machine-Permitted machine active got =
        Holds-on_error (validate_immutable_runtime_fields vm machine)
          (λ e differs.
            Holds-bind (emit-Permitted r vm name h warning "UnsupportedUpdate" (error_text e))
              (λ g done grown.
                update_status-Permitted r vm name
                  (record { name_kept = refl; node_kept = inl refl })))
          (λ same.
            Holds-on_error (validate_storage_does_not_shrink vm machine)
              (λ e less.
                update_status-Permitted r vm name
                  (record { name_kept = refl; node_kept = inl refl }))
              (λ fits.
                reconcile_storage-Permitted machine
                  (record { active = active; seen = got; same_fields = same; no_shrink = fits })))

  module _ (wanted : deletion_requested vm ≡ false)
      (guarded : r.deps.contains_finalizer vm.meta.finalizers smolvm_finalizer ≡ true)
      (valid : validate_spec r.deps vm ≡ none) where
    pub reconcile_bound-Permitted :
        (h : History)
        → vm.status.node_name ≢ ""
        → Holds (Permitted r vm name) AnyOutcome h (reconcile_bound r vm name)
    unfolding reconcile_bound
    reconcile_bound-Permitted h placed =
        Holds-bind (runtime_for_node-Looked r vm.status.node_name (λ g c reads. read reads) h) (λ g.
          elim [
            | err e ↦ λ looked. runtime_unavailable-Permitted r vm name e
            | ok api ↦ λ looked.
                let active : Active r vm name api g = record {
                  wanted = wanted;
                  guarded = guarded;
                  valid = valid;
                  placed = placed;
                  trusted = looked.1;
                } in
                calls (read tt) (elim [
                  | err e ↦
                      missing_machine-Permitted _ api e
                        (Active-grows (Extends-cons _ (Extends-refl g)) active) latest
                  | ok machine ↦
                      reconcile_machine-Permitted _ api machine
                        (Active-grows (Extends-cons _ (Extends-refl g)) active) latest
                ])
          ])
