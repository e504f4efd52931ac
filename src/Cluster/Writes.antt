-- ===== src/Cluster/Writes.antt =====
-- Reconcile of internal/controller/smolvm_controller.go in the store: what it writes, if nothing has changed since it
-- read.
use mathlib.Core.Path.{subst}
use smolvm_operator.Prelude.{String, ◌≡◌, refl, ap, ◌∙◌, List, [], ◌∷◌, ◌++◌, All, Any, inl, inr}
use smolvm_operator.Api.{SmolVm, SmolVmSpec, SmolVmNode}
use smolvm_operator.Smolvm.{ok}
use smolvm_operator.Program.{
  Call, get_vm, list_vms, list_nodes, get_node, update_vm, update_vm_status, History,
}
use smolvm_operator.Program.Past.{Got}
use smolvm_operator.Program.Rules.{Holds, Holds-mono}
use smolvm_operator.Controller.Fit.{keep_bound, resource_fit_reason, host_port_conflict_reason}
use smolvm_operator.Controller.Reconciler.{Reconciler, key_of}
use smolvm_operator.Controller.Status.{next_status}
use smolvm_operator.Controller.Reconcile.{machine_name_of, reconcile_vm}
use smolvm_operator.Controller.Permitted.{
  IsRead, Placed, deletion_requested, Permitted, read, guard, release, publish, create, start, stop,
  resize, delete,
}
use smolvm_operator.Controller.Permitted.Writes.{AnyOutcome}
use smolvm_operator.Controller.Permitted.Present.{reconcile_vm-Permitted}
use smolvm_operator.Cluster.{Step, settle, place}

-- The same object in what the scheduler and the store look at.
pub record SameObject (vm newest : SmolVm) : Type 0 where
  pub uid : newest.meta.uid ≡ vm.meta.uid
  pub spec : newest.spec ≡ vm.spec
  pub node : newest.status.node_name ≡ vm.status.node_name
  pub deletion : deletion_requested newest ≡ deletion_requested vm

module _ (node_of : String → SmolVmNode) (Allowed : SmolVmSpec → Type 0) (vm : SmolVm)
    (before after : List SmolVm) where
  -- The answers of a history agree with the store and the nodes: nothing has changed since.
  pub record Fresh (h : History) : Type 0 where
    pub listed : (items : List SmolVm) → Got list_vms (ok items) h → items ≡ before ++ vm ∷ after
    pub nodes :
        (nodes : List SmolVmNode)
        → Got list_nodes (ok nodes) h
        → All (λ node. node ≡ node_of node.meta.name) nodes
    pub node :
        (name : String) (node : SmolVmNode)
        → Got (get_node name) (ok node) h
        → node ≡ node_of node.meta.name
    pub newest : (newest : SmolVm) → Got (get_vm (key_of vm)) (ok newest) h → SameObject vm newest

  -- A write of the object is a step of the store.
  abbrev pub StepsFresh : History → Call → Type 0
  StepsFresh h (update_vm written) =
      Fresh h → Step node_of Allowed (before ++ vm ∷ after) (before ++ written ∷ after)
  StepsFresh h (update_vm_status written) =
      Fresh h → Step node_of Allowed (before ++ vm ∷ after) (before ++ written ∷ after)
  StepsFresh h _ = Unit

  StepsFresh-read : (h : History) (c : Call) → IsRead c → StepsFresh h c
  StepsFresh-read h (update_vm written) reads = absurd reads
  StepsFresh-read h (update_vm_status written) reads = absurd reads
  StepsFresh-read h _ reads = tt

  member_of :
      (node : SmolVmNode) (nodes : List SmolVmNode)
      → All (λ n. n ≡ node_of n.meta.name) nodes
      → Any (λ n. n ≡ node) nodes
      → node ≡ node_of node.meta.name
  member_of node [] all there = absurd there
  member_of node (n ∷ nodes) (here, all) (inl same) = subst (λ m. m ≡ node_of m.meta.name) same here
  member_of node (n ∷ nodes) (here, all) (inr later) = member_of node nodes all later

  known_node :
      (h : History) (node_name : String) (p : Placed vm node_name h)
      → Fresh h
      → p.node ≡ node_of node_name
  known_node h node_name p fresh =
      elim p.known [
        | inl (free, nodes, got, among) ↦ member_of p.node nodes (fresh.nodes nodes got) among
        | inr got ↦ fresh.node vm.spec.node_name p.node got
      ]
      ∙ ap node_of p.named

  -- The first placement.
  placing-Step :
      (h : History) (written : SmolVm)
      → written.meta.uid ≡ vm.meta.uid
      → written.spec ≡ vm.spec
      → vm.status.node_name ≡ ""
      → Placed vm written.status.node_name h
      → Fresh h
      → Step node_of Allowed (before ++ vm ∷ after) (before ++ written ∷ after)
  placing-Step h written uid spec unplaced p fresh =
      let f = p.fits in
      let store : f.items ≡ before ++ vm ∷ after = fresh.listed f.items f.listed in
      place before after vm written uid spec unplaced
        (subst (λ node. resource_fit_reason node vm (keep_bound vm (before ++ vm ∷ after)) ≡ "")
          (known_node h written.status.node_name p fresh)
          (subst (λ items. resource_fit_reason p.node vm (keep_bound vm items) ≡ "") store
            f.resources))
        (subst
          (λ name. host_port_conflict_reason name vm (keep_bound vm (before ++ vm ∷ after)) ≡ "")
          p.named
          (subst (λ items. host_port_conflict_reason p.node.meta.name vm (keep_bound vm items) ≡ "")
            store f.ports))

  module _ (r : Reconciler) (name : String) where
    Permitted-StepsFresh : (h : History) (c : Call) → Permitted r vm name h c → StepsFresh h c
    unfolding next_status
    Permitted-StepsFresh h c (read reads) = StepsFresh-read h c reads
    Permitted-StepsFresh h c (guard wanted) =
        λ fresh. settle before after vm _ refl refl refl (λ asked. asked)
    Permitted-StepsFresh h c (release deleting released) =
        λ fresh. settle before after vm _ refl refl refl (λ asked. asked)
    Permitted-StepsFresh h c (publish given newest times got p) = λ fresh.
        let same = fresh.newest newest got in
        elim p.node_kept [
          | inl kept ↦
              settle before after vm _ same.uid same.spec kept (λ asked. same.deletion ∙ asked)
          | inr (unplaced, placed) ↦ placing-Step h _ same.uid same.spec unplaced placed fresh
        ]
    Permitted-StepsFresh h c (create api e active got missing) = tt
    Permitted-StepsFresh h c (start api machine found on off enough) = tt
    Permitted-StepsFresh h c (stop api machine found off on enough) = tt
    Permitted-StepsFresh h c (resize api machine found off more) = tt
    Permitted-StepsFresh h c (delete api deleting placed trusted) = tt

  -- Every write of Reconcile, of the object or of its status, is a step of the store, if what was read
  -- in this reconciliation is still so when it is written: the objects, the nodes, and the object itself
  -- (but for its labels, annotations, finalizers and the rest of its status).
  pub reconcile_vm-StepsFresh :
      (r : Reconciler) (h : History) → Holds StepsFresh AnyOutcome h (reconcile_vm r vm)
  reconcile_vm-StepsFresh r h =
      Holds-mono (reconcile_vm-Permitted r vm h) (Permitted-StepsFresh r (machine_name_of r vm))
        (λ g o any. tt)
