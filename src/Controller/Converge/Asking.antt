-- ===== src/Controller/Converge/Asking.antt =====
-- Reconcile of a bound object in a lawful environment, up to the answer of the runtime about the machine.
use mathlib.Core.Path.{subst}
use smolvm_operator.Prelude.{String, ◌≡◌, refl, sym, ap, ◌∙◌, []}
use smolvm_operator.Api.{SmolVmNode}
use smolvm_operator.Smolvm.{MachineInfo, Result, ok}
use smolvm_operator.Program.{
  Key, Call, Reply, Runtime, get_vm, list_vms, list_nodes, now, get_node, get_kubernetes_node,
  update_vm, update_vm_status, create_missing_node, update_node, update_node_status, runtime, event,
  health, identity, capabilities, get_machine, create_machine, ensure_machine_running, stop_machine,
  delete_machine, resize_machine, perform, Program, ◌>>=◌,
}
use smolvm_operator.Program.Control.{caught}
use smolvm_operator.Program.Progress.{Ends}
use smolvm_operator.Program.Runs.{Leads, Leads-bind, Leads-quiet}
use smolvm_operator.Controller.Reconciler.{Reconciler, Outcome, runtime_for_node}
use smolvm_operator.Controller.Status.{runtime_unavailable}
use smolvm_operator.Controller.Reconcile.{
  machine_name_of, reconcile, reconcile_vm, reconcile_present, reconcile_bound, reconcile_machine,
  missing_machine,
}
use smolvm_operator.Controller.Permitted.{IsRead}
use smolvm_operator.Controller.Permitted.Lookup.{runtime_for_node-Looked}
use smolvm_operator.Controller.Progress.{Workable}
use smolvm_operator.Controller.Serving.{Available, Found, IsRuntime, runtime_for_node-Available}
use smolvm_operator.Controller.Converge.{State, Lawful, Observed}
use smolvm_operator.Controller.Converge.Statuses.{on_get_vm, on_runtime}

module _ (r : Reconciler) (node_name : String) (node : SmolVmNode) where
  unchanged : (s t : State) → t ≡ record s { machine = t.machine } → t.machine ≡ s.machine → t ≡ s
  unchanged s t same kept = same ∙ ap (λ m. record s { machine = m }) kept

  -- A read leaves the state as it is, and has the answer that runtimeForNode asks for.
  quiet :
      (s : State) (c : Call) (x : Reply c) (t : State)
      → IsRead c
      → Lawful r node_name node s c x t
      → (t ≡ s) × Available r node_name node c x
  quiet s (get_vm key) x t reads (same, e) = (same, tt)
  quiet s list_vms x t reads same = (same, tt)
  quiet s list_nodes x t reads same = (same, tt)
  quiet s now x t reads (same, fit) = (same, fit)
  quiet s (get_node name) x t reads (same, e) = (same, e)
  quiet s (get_kubernetes_node name) x t reads same = (same, tt)
  quiet s (update_vm vm) x t reads lawful = absurd reads
  quiet s (update_vm_status vm) x t reads lawful = absurd reads
  quiet s (create_missing_node n) x t reads lawful = absurd reads
  quiet s (update_node n) x t reads lawful = absurd reads
  quiet s (update_node_status n) x t reads lawful = absurd reads
  quiet s (runtime api (ensure_machine_running name)) x t reads lawful = absurd reads
  quiet s (runtime api (stop_machine name)) x t reads lawful = absurd reads
  quiet s (runtime api (delete_machine name)) x t reads lawful = absurd reads
  quiet s (runtime api (create_machine req)) x t reads lawful = absurd reads
  quiet s (runtime api (resize_machine name req)) x t reads lawful = absurd reads
  quiet s (event kind reason message) x t reads same = (same, tt)
  quiet s (runtime api health) x t reads (same, kept, performs, other) = (
    unchanged s t same (kept tt),
    (λ its. let (after, found, e, good) = performs (its, tt) in (found, e, good)),
  )
  quiet s (runtime api identity) x t reads (same, kept, performs, other) = (
    unchanged s t same (kept tt),
    (λ its. let (after, found, e, good) = performs (its, tt) in (found, e, good)),
  )
  quiet s (runtime api capabilities) x t reads (same, kept, performs, other) = (
    unchanged s t same (kept tt),
    (λ its. let (after, found, e, good) = performs (its, tt) in (found, e, good)),
  )
  quiet s (runtime api (get_machine name)) x t reads (same, kept, performs, other) =
      (unchanged s t same (kept tt), tt)

  -- The runtime has been found.
  pub with_runtime :
      {B : Type 0} {Q : State → B → Type 0} (s t : State) (k : Result Runtime → Program B)
      (a : Result Runtime)
      → ((api : Runtime) → IsRuntime r node api → Leads (Lawful r node_name node) Q s (k (ok api)))
      → (t ≡ s) × Found r node_name node a
      → Leads (Lawful r node_name node) Q t (k a)
  with_runtime {B} {Q} s t k a go (same, (api, e, its)) =
      subst (λ u. Leads (Lawful r node_name node) Q u (k a)) (sym same)
        (subst (λ y. Leads (Lawful r node_name node) Q s (k y)) (sym e) (go api its))

  -- The node's runtime is found, and nothing changes.
  pub runtime_for_node-Leads :
      (s : State)
      → s.vm.status.node_name ≡ node_name
      → Leads
          (Lawful r node_name node)
          (λ t a. (t ≡ s) × Found r node_name node a)
          s
          (runtime_for_node r s.vm.status.node_name)
  runtime_for_node-Leads s bound =
      Leads-quiet (Lawful r node_name node) (Available r node_name node) IsRead quiet s s refl
        (runtime_for_node-Looked r s.vm.status.node_name (λ h c reads. reads) [])
        (subst
          (λ n. Ends (Available r node_name node) (Found r node_name node) (runtime_for_node r n))
          (sym bound) (runtime_for_node-Available r node_name node))

  module _ (Q : State → Outcome → Type 0) (s : State) where
    -- What Reconcile does with each answer of a runtime that is asked for the machine.
    abbrev pub Handles : String → Type 0
    Handles name =
        (api : Runtime) (x : Result MachineInfo)
        → IsRuntime r node api
        → Observed s.machine x
        → Leads (Lawful r node_name node) Q s
            (caught (missing_machine r s.vm name api) (reconcile_machine r s.vm name api) x)

    asked-Leads :
        (name : String) (api : Runtime)
        → name ≡ s.name
        → IsRuntime r node api
        → Handles name
        → Leads (Lawful r node_name node) Q s (
            perform (runtime api (get_machine name))
            >>= caught (missing_machine r s.vm name api) (reconcile_machine r s.vm name api))
    asked-Leads name api named its handles =
        on_runtime r node_name node (its, named)
          (λ x t worked (kept, seen).
            subst
              (λ v.
                Leads (Lawful r node_name node) Q v
                  (caught (missing_machine r s.vm name api) (reconcile_machine r s.vm name api) x))
              (sym (unchanged s t worked kept)) (handles api x its seen))

    bound-Leads :
        (name : String)
        → name ≡ s.name
        → s.vm.status.node_name ≡ node_name
        → Handles name
        → Leads (Lawful r node_name node) Q s (reconcile_bound r s.vm name)
    unfolding reconcile_bound
    bound-Leads name named bound handles = Leads-bind (runtime_for_node-Leads s bound) (λ t a known.
        with_runtime s t
          (caught (runtime_unavailable r s.vm s.vm.status.node_name name) (λ api.
            perform (runtime api (get_machine name))
            >>= caught (missing_machine r s.vm name api) (reconcile_machine r s.vm name api)))
          a (λ api its. asked-Leads name api named its handles) known)

    -- A workable object on the node: all that counts is what is done with the answer.
    pub reconcile-Leads :
        (key : Key)
        → Workable r s.vm
        → machine_name_of r s.vm ≡ s.name
        → s.vm.status.node_name ≡ node_name
        → Handles (machine_name_of r s.vm)
        → Leads (Lawful r node_name node) Q s (reconcile r key)
    unfolding reconcile reconcile_vm reconcile_present
    reconcile-Leads key w named bound handles = on_get_vm r node_name node (
        rw (w.wanted, w.guarded, w.valid, w.placed)
          (bound-Leads (machine_name_of r s.vm) named bound handles))
