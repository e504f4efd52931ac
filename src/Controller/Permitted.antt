-- ===== src/Controller/Permitted.antt =====
-- The contract of Reconcile in internal/controller/smolvm_controller.go, independent of its code: which
-- calls it may make, by what the environment has answered before.
pub mod Trust
pub mod Lookup
pub mod Growth
pub mod Writes
pub mod Placement
pub mod Deletion
pub mod Bound
pub mod Present
use smolvm_operator.Prelude.{
  ℕ, String, ◌≡◌, ◌≢◌, ◌⊎◌, Bool, true, false, none, some, List, Any, str_eq, text_at,
}
use smolvm_operator.Api.{
  SmolVm, SmolVmNode, KubernetesNode, smolvm_finalizer, force_delete_annotation,
}
use smolvm_operator.Smolvm.{MachineInfo, Error, ok, err, is_not_found}
use smolvm_operator.Program.{
  Runtime, Operation, Call, get_vm, list_vms, list_nodes, now, get_node, get_kubernetes_node,
  update_vm, update_vm_status, create_missing_node, update_node, update_node_status, runtime,
  health, identity, capabilities, get_machine, create_machine, ensure_machine_running, stop_machine,
  delete_machine, resize_machine, History,
}
use smolvm_operator.Program.Past.{Got}
use smolvm_operator.Controller.Fit.{
  keep_bound, kubernetes_node_ready, resource_fit_reason, host_port_conflict_reason,
  smolvm_node_eligible, matches_node_selector,
}
use smolvm_operator.Controller.Machine.{
  build_create_request, build_resize_request, validate_immutable_runtime_fields,
  validate_storage_does_not_shrink, needs_storage_expansion,
}
use smolvm_operator.Controller.Validation.{validate_spec}
use smolvm_operator.Controller.Permitted.Trust.{Trusted, Unusable}
use smolvm_operator.Controller.Reconciler.{Reconciler, key_of}
use smolvm_operator.Controller.Status.{StatusInput, Times, next_status}

-- The calls that change neither the cluster nor a machine: reads, the clock, and events.
abbrev pub ReadsOnly : Operation → Type 0
ReadsOnly health = Unit
ReadsOnly identity = Unit
ReadsOnly capabilities = Unit
ReadsOnly (get_machine name) = Unit
ReadsOnly _ = ⊥

abbrev pub IsRead : Call → Type 0
IsRead (update_vm vm) = ⊥
IsRead (update_vm_status vm) = ⊥
IsRead (create_missing_node node) = ⊥
IsRead (update_node node) = ⊥
IsRead (update_node_status node) = ⊥
IsRead (runtime api op) = ReadsOnly op
IsRead _ = Unit

-- A node that passed every test of the scheduler for a machine.
pub record Fits (vm : SmolVm) (node : SmolVmNode) (h : History) : Type 0 where
  pub time : ℕ
  pub read_at : Got now time h
  pub eligible : smolvm_node_eligible time node ≡ true
  pub selected : matches_node_selector node vm.spec.node_selector ≡ true
  pub kube : KubernetesNode
  pub kube_found : Got (get_kubernetes_node node.meta.name) (ok kube) h
  pub schedulable : kube.unschedulable ≡ false
  pub ready : kubernetes_node_ready kube ≡ true
  pub items : List SmolVm
  pub listed : Got list_vms (ok items) h
  pub resources : resource_fit_reason node vm (keep_bound vm items) ≡ ""
  pub ports : host_port_conflict_reason node.meta.name vm (keep_bound vm items) ≡ ""

pub record Placed (vm : SmolVm) (node_name : String) (h : History) : Type 0 where
  pub node : SmolVmNode
  pub named : node.meta.name ≡ node_name
  pub fits : Fits vm node h
  pub known :
      ((vm.spec.node_name ≡ "")
        × (nodes : List SmolVmNode) × Got list_nodes (ok nodes) h
        × Any (λ listed. listed ≡ node) nodes)
      ⊎ Got (get_node vm.spec.node_name) (ok node) h

-- A machine is released: it was never placed, or the owner forces the release of a machine
-- whose runtime cannot be used, or the runtime has deleted the machine or does not know it.
pub data Released (r : Reconciler) (vm : SmolVm) (name : String) (h : History) : Type 0 where
  never_placed : vm.status.node_name ≡ "" → Released r vm name h
  forced :
      text_at force_delete_annotation vm.meta.annotations ≡ "true"
      → Unusable r vm.status.node_name h
      → Released r vm name h
  removed : (api : Runtime) → Got (runtime api (delete_machine name)) none h → Released r vm name h
  absent :
      (api : Runtime) (e : Error)
      → Got (runtime api (delete_machine name)) (some e) h
      → is_not_found e ≡ true
      → Released r vm name h

abbrev pub deletion_requested : SmolVm → Bool
deletion_requested vm = elim vm.meta.deletion_timestamp [ none ↦ false | some t ↦ true ]

module _ (r : Reconciler) (vm : SmolVm) (name : String) where
  -- The machine may be worked on: it is wanted, valid, placed, and the runtime is trusted.
  pub record Active (api : Runtime) (h : History) : Type 0 where
    pub wanted : deletion_requested vm ≡ false
    pub guarded : r.deps.contains_finalizer vm.meta.finalizers smolvm_finalizer ≡ true
    pub valid : validate_spec r.deps vm ≡ none
    pub placed : vm.status.node_name ≢ ""
    pub trusted : Trusted r vm.status.node_name h api

  -- The machine exists, and neither an immutable field nor a disk's size stands against the update.
  pub record Found (api : Runtime) (machine : MachineInfo) (h : History) : Type 0 where
    pub active : Active api h
    pub seen : Got (runtime api (get_machine name)) (ok machine) h
    pub same_fields : validate_immutable_runtime_fields vm machine ≡ none
    pub no_shrink : validate_storage_does_not_shrink vm machine ≡ none

  -- A status is written over the latest one; it keeps the machine's name, and it keeps the node or
  -- records the first placement.
  pub record Publishes (given : StatusInput) (h : History) : Type 0 where
    pub name_kept : given.machine_name ≡ name
    pub node_kept :
        (given.node_name ≡ vm.status.node_name)
        ⊎ ((vm.status.node_name ≡ "") × Placed vm given.node_name h)

  pub data Permitted (h : History) : Call → Type 0 where
    read : {c : Call} → IsRead c → Permitted h c
    guard :
        deletion_requested vm ≡ false
        → Permitted h (
            update_vm (record vm {
              meta = record vm.meta {
                finalizers = r.deps.add_finalizer vm.meta.finalizers smolvm_finalizer;
              };
            }))
    release :
        deletion_requested vm ≡ true
        → Released r vm name h
        → Permitted h (
            update_vm (record vm {
              meta = record vm.meta {
                finalizers = r.deps.remove_finalizer vm.meta.finalizers smolvm_finalizer;
              };
            }))
    publish :
        (given : StatusInput) (latest : SmolVm) (times : Times)
        → Got (get_vm (key_of vm)) (ok latest) h
        → Publishes given h
        → Permitted h (update_vm_status (record latest { status = next_status given latest times }))
    create :
        (api : Runtime) (e : Error)
        → Active api h
        → Got (runtime api (get_machine name)) (err e) h
        → is_not_found e ≡ true
        → Permitted h (runtime api (create_machine (build_create_request vm name)))
    start :
        (api : Runtime) (machine : MachineInfo)
        → Found api machine h
        → vm.spec.running ≡ true
        → str_eq machine.state "running" ≡ false
        → needs_storage_expansion vm machine ≡ false
        → Permitted h (runtime api (ensure_machine_running name))
    stop :
        (api : Runtime) (machine : MachineInfo)
        → Found api machine h
        → vm.spec.running ≡ false
        → str_eq machine.state "running" ≡ true
        → needs_storage_expansion vm machine ≡ false
        → Permitted h (runtime api (stop_machine name))
    resize :
        (api : Runtime) (machine : MachineInfo)
        → Found api machine h
        → str_eq machine.state "running" ≡ false
        → needs_storage_expansion vm machine ≡ true
        → Permitted h (runtime api (resize_machine name (build_resize_request vm)))
    delete :
        (api : Runtime)
        → deletion_requested vm ≡ true
        → vm.status.node_name ≢ ""
        → Trusted r vm.status.node_name h api
        → Permitted h (runtime api (delete_machine name))
