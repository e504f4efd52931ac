-- ===== src/Controller/Converge/Arrival/Tests.antt =====
-- The first rounds of a concrete object, and the end of one that is being deleted.
use smolvm_operator.Prelude.{◌≡◌, refl, none, some, [], ◌∷◌, inl}
use smolvm_operator.Api.{SmolVm}
use smolvm_operator.Smolvm.{ok}
use smolvm_operator.Program
use smolvm_operator.Program.{Call, Reply}
use smolvm_operator.Program.Runs.{Leads}
use smolvm_operator.Controller.Fit.{keep_bound}
use smolvm_operator.Controller.Reconcile.{machine_name_of, reconcile}
use smolvm_operator.Controller.Converge.{State, Lawful}
use smolvm_operator.Controller.Converge.Deletes.{Gone, reconcile-Gone}
use smolvm_operator.Controller.Converge.Offering.{Offering}
use smolvm_operator.Controller.Converge.Answers.{lawful}
use smolvm_operator.Controller.Converge.Tests.{key}
use smolvm_operator.Samples.{
  sample_vm, deleting_vm, sample_node, sample_kubernetes_node, sample_machine,
}
use smolvm_operator.Samples.Libraries.{sample_reconciler, libraries-Documented}

-- Not pinned, and without its finalizer.
abbrev new_vm : SmolVm
new_vm = record sample_vm { meta = record sample_vm.meta { finalizers = [] } }

abbrev start : State
start = record { vm = new_vm; name = machine_name_of sample_reconciler new_vm; machine = none }

-- Every call has an answer that keeps the promises, the scheduler's too.
offering :
    (s : State) (c : Call)
    → (x : Reply c) × (t : State) × Offering sample_reconciler "node-a" sample_node [] []
        sample_kubernetes_node s c x t
unfolding keep_bound
offering s Program.list_vms = (ok [], s, (refl, ([], refl, refl)))
offering s (Program.get_kubernetes_node name) = (ok sample_kubernetes_node, s, (refl, refl))
offering s (Program.get_vm name) =
    let (x, t, kept) = lawful s (Program.get_vm name) in (x, t, (kept, tt))
offering s Program.list_nodes = (ok (sample_node ∷ []), s, (refl, refl))
offering s Program.now = let (x, t, kept) = lawful s Program.now in (x, t, (kept, tt))
offering s (Program.get_node name) =
    let (x, t, kept) = lawful s (Program.get_node name) in (x, t, (kept, tt))
offering s (Program.update_vm vm) =
    let (x, t, kept) = lawful s (Program.update_vm vm) in (x, t, (kept, tt))
offering s (Program.update_vm_status vm) =
    let (x, t, kept) = lawful s (Program.update_vm_status vm) in (x, t, (kept, tt))
offering s (Program.create_missing_node node) =
    let (x, t, kept) = lawful s (Program.create_missing_node node) in (x, t, (kept, tt))
offering s (Program.update_node node) =
    let (x, t, kept) = lawful s (Program.update_node node) in (x, t, (kept, tt))
offering s (Program.update_node_status node) =
    let (x, t, kept) = lawful s (Program.update_node_status node) in (x, t, (kept, tt))
offering s (Program.event kind reason message) =
    let (x, t, kept) = lawful s (Program.event kind reason message) in (x, t, (kept, tt))
offering s (Program.runtime api op) =
    let (x, t, kept) = lawful s (Program.runtime api op) in (x, t, (kept, tt))

reconcile-Gone_example :
    Leads
      (Lawful sample_reconciler "node-a" sample_node)
      (λ t o. Gone sample_reconciler t × (o.error ≡ none))
      (record { vm = deleting_vm; name = "k8s-default-alpine-0"; machine = some sample_machine })
      (reconcile sample_reconciler key)
unfolding machine_name_of
reconcile-Gone_example =
    reconcile-Gone sample_reconciler libraries-Documented "node-a" sample_node
      (record { vm = deleting_vm; name = "k8s-default-alpine-0"; machine = some sample_machine })
      key refl refl (inl (refl, refl))
