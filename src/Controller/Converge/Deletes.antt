-- ===== src/Controller/Converge/Deletes.antt =====
-- An object that is being deleted, in a lawful environment.
use smolvm_operator.Prelude.{
  String, ◌≡◌, refl, ◌∙◌, true, false, Option, none, some, inl, inr, ◌⊎◌, str_eq,
}
use smolvm_operator.Api.{SmolVm, SmolVmNode, smolvm_finalizer}
use smolvm_operator.Smolvm.{MachineInfo, Error, is_not_found}
use smolvm_operator.Deps.{Documented}
use smolvm_operator.Program.{Key, Runtime, normal, delete_machine}
use smolvm_operator.Program.Control.{caught}
use smolvm_operator.Program.Runs.{Leads, done, Leads-bind, Leads-mono}
use smolvm_operator.Controller.Reconciler.{Reconciler}
use smolvm_operator.Controller.Delete.{
  drop_finalizer, deleted, delete_with_runtime, delete_without_runtime, reconcile_delete,
}
use smolvm_operator.Controller.Reconcile.{is_deleting, machine_name_of, reconcile, reconcile_vm}
use smolvm_operator.Controller.Converge.{State, Lawful, Performs}
use smolvm_operator.Controller.Converge.Statuses.{
  on_get_vm, on_runtime, emit-then, on_update_vm, machine_name_of-full,
}
use smolvm_operator.Controller.Serving.{IsRuntime}
use smolvm_operator.Controller.Converge.Asking.{with_runtime, runtime_for_node-Leads}

-- The machine is gone, and the object may go: it is without its finalizer.
pub record Gone (r : Reconciler) (t : State) : Type 0 where
  pub no_machine : t.machine ≡ none
  pub released : r.deps.contains_finalizer t.vm.meta.finalizers smolvm_finalizer ≡ false

module _ (r : Reconciler) (documented : Documented r.deps) (node_name : String)
    (node : SmolVmNode) where
  drop_finalizer-Leads :
      (s : State) (vm : SmolVm) (name : String)
      → Leads
          (Lawful r node_name node)
          (λ t o.
            (t.machine ≡ s.machine)
            × (r.deps.contains_finalizer t.vm.meta.finalizers smolvm_finalizer ≡ false)
            × (o.error ≡ none))
          s
          (drop_finalizer r vm name)
  unfolding drop_finalizer
  drop_finalizer-Leads s vm name =
      on_update_vm r node_name node
        (done (refl, documented.contains-remove vm.meta.finalizers smolvm_finalizer, refl))

  -- The runtime has answered to the deletion: the machine is gone, or there was none.
  removed_lem :
      (machine : Option MachineInfo) (name : String) (x : Option Error) (after : Option MachineInfo)
      → Performs r node_name node machine (delete_machine name) x after
      → (after ≡ none) × ((x ≡ none) ⊎ ((e : Error) × (x ≡ some e) × (is_not_found e ≡ true)))
  removed_lem none name x after performs = performs
  removed_lem (some m) name x after (gone, fine) = (gone, inl fine)

  dropped-Leads :
      (t : State) (vm : SmolVm) (name : String)
      → t.machine ≡ none
      → Leads
          (Lawful r node_name node)
          (λ u o. Gone r u × (o.error ≡ none))
          t
          (drop_finalizer r vm name)
  dropped-Leads t vm name gone =
      Leads-mono (drop_finalizer-Leads t vm name) (λ u o (same, released, fine).
        (record { no_machine = same ∙ gone; released = released }, fine))

  deleted-Leads :
      (t : State) (vm : SmolVm) (name : String) (x : Option Error)
      → t.machine ≡ none
      → (x ≡ none) ⊎ ((e : Error) × (x ≡ some e) × (is_not_found e ≡ true))
      → Leads (Lawful r node_name node) (λ u o. Gone r u × (o.error ≡ none)) t (deleted r vm name x)
  unfolding deleted
  deleted-Leads t vm name x gone (inl fine) = rw fine (dropped-Leads t vm name gone)
  deleted-Leads t vm name x gone (inr (e, failed, missing)) =
      rw (failed, missing) (dropped-Leads t vm name gone)

  deletes-Leads :
      (s : State) (name : String) (api : Runtime)
      → name ≡ s.name
      → IsRuntime r node api
      → Leads
          (Lawful r node_name node)
          (λ u o. Gone r u × (o.error ≡ none))
          s
          (delete_with_runtime r s.vm name api)
  unfolding delete_with_runtime
  deletes-Leads s name api named its = emit-then r node_name node normal _ _ _ (
      on_runtime r node_name node (its, named)
        (λ x t same performs.
          let (gone, answer) = removed_lem s.machine name x t.machine performs in
          deleted-Leads t s.vm name x gone answer))

  placed-Gone :
      (s : State)
      → machine_name_of r s.vm ≡ s.name
      → s.vm.status.node_name ≡ node_name
      → str_eq s.vm.status.node_name "" ≡ false
      → Leads
          (Lawful r node_name node)
          (λ t o. Gone r t × (o.error ≡ none))
          s
          (reconcile_delete r s.vm (machine_name_of r s.vm))
  unfolding reconcile_delete
  placed-Gone s named bound placed =
      let name = machine_name_of r s.vm in
      rw (placed, machine_name_of-full r s.vm)
        (Leads-bind (runtime_for_node-Leads r node_name node s bound) (λ t a known.
          with_runtime r node_name node s t
            (caught (delete_without_runtime r s.vm name) (delete_with_runtime r s.vm name)) a
            (λ api its. deletes-Leads s name api named its) known))

  unplaced-Gone :
      (s : State)
      → str_eq s.vm.status.node_name "" ≡ true
      → s.machine ≡ none
      → Leads
          (Lawful r node_name node)
          (λ t o. Gone r t × (o.error ≡ none))
          s
          (reconcile_delete r s.vm (machine_name_of r s.vm))
  unfolding reconcile_delete
  unplaced-Gone s unplaced absent =
      rw unplaced (dropped-Leads s s.vm (machine_name_of r s.vm) absent)

  -- With finalizer functions that work as documented, and in an environment that keeps its promises, one
  -- reconciliation of an object that is being deleted, and that is placed on the node or has neither a
  -- node nor a machine, ends without an error, with its machine gone, if it had one, and with its
  -- finalizer released.
  pub reconcile-Gone :
      (s : State) (key : Key)
      → is_deleting s.vm ≡ true
      → machine_name_of r s.vm ≡ s.name
      → ((s.vm.status.node_name ≡ node_name) × (str_eq s.vm.status.node_name "" ≡ false))
        ⊎ ((str_eq s.vm.status.node_name "" ≡ true) × (s.machine ≡ none))
      → Leads (Lawful r node_name node) (λ t o. Gone r t × (o.error ≡ none)) s (reconcile r key)
  unfolding reconcile reconcile_vm
  reconcile-Gone s key deleting named (inl (bound, placed)) =
      on_get_vm r node_name node (rw deleting (placed-Gone s named bound placed))
  reconcile-Gone s key deleting named (inr (unplaced, absent)) =
      on_get_vm r node_name node (rw deleting (unplaced-Gone s unplaced absent))
