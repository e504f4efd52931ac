-- ===== src/Cluster.antt =====
-- The store of SmolVM objects under the controller of internal/controller/smolvm_controller.go, its users and the
-- API server: which states it reaches. `node_of` is the SmolVMNode of each name, as long as it does not
-- change; `Allowed` is what users put into a spec.
pub mod Pairs
pub mod Ports
pub mod Resources
pub mod Capacity
pub mod Writes
mod Tests
use smolvm_operator.Prelude.{
  String, ◌≡◌, ◌≢◌, Bool, true, false, not, ◌||◌, none, List, [], ◌∷◌, ◌++◌, All, str_eq,
  if◌then◌else◌,
}
use smolvm_operator.Api.{SmolVm, SmolVmSpec, SmolVmNode}
use smolvm_operator.Controller.Fit.{keep_bound, resource_fit_reason, host_port_conflict_reason}
use smolvm_operator.Controller.Permitted.{deletion_requested}

abbrev pub OtherUid : SmolVm → SmolVm → Type 0
OtherUid vm other = vm.meta.uid ≢ other.meta.uid

module _ (node_of : String → SmolVmNode) (Allowed : SmolVmSpec → Type 0) where
  -- A user creates an object, edits one that is not placed, or asks for its deletion; the API server
  -- removes one; the controller writes a status that keeps the node, or places the object on a node that
  -- accepts it beside the objects of the store.
  pub data Step : List SmolVm → List SmolVm → Type 0 where
    create :
        {store : List SmolVm}
        → (vm : SmolVm) → vm.status.node_name ≡ ""
        → Allowed vm.spec
        → All (OtherUid vm) store
        → Step store (vm ∷ store)
    edit :
        (before after : List SmolVm) (vm edited : SmolVm)
        → edited.meta.uid ≡ vm.meta.uid
        → vm.status.node_name ≡ ""
        → edited.status.node_name ≡ ""
        → Allowed edited.spec
        → Step (before ++ vm ∷ after) (before ++ edited ∷ after)
    settle :
        (before after : List SmolVm) (vm settled : SmolVm)
        → settled.meta.uid ≡ vm.meta.uid
        → settled.spec ≡ vm.spec
        → settled.status.node_name ≡ vm.status.node_name
        → (deletion_requested vm ≡ true → deletion_requested settled ≡ true)
        → Step (before ++ vm ∷ after) (before ++ settled ∷ after)
    remove :
        (before after : List SmolVm) (vm : SmolVm) → Step (before ++ vm ∷ after) (before ++ after)
    place :
        (before after : List SmolVm) (vm placed : SmolVm)
        → placed.meta.uid ≡ vm.meta.uid
        → placed.spec ≡ vm.spec
        → vm.status.node_name ≡ ""
        → resource_fit_reason
            (node_of placed.status.node_name)
            vm
            (keep_bound vm (before ++ vm ∷ after))
          ≡ ""
        → host_port_conflict_reason placed.status.node_name vm
            (keep_bound vm (before ++ vm ∷ after))
          ≡ ""
        → Step (before ++ vm ∷ after) (before ++ placed ∷ after)

  -- The stores that are reached from the empty one.
  pub data Reach : List SmolVm → Type 0 where
    empty : Reach []
    then_step : {s t : List SmolVm} → Reach s → Step s t → Reach t

-- The object holds its ports and its resources: it is placed, and not being deleted.
abbrev pub is_active : SmolVm → Bool
is_active vm = not (str_eq vm.status.node_name "" || deletion_requested vm)

unfoldable pub active : List SmolVm → List SmolVm
active [] = []
active (vm ∷ vms) = let rest = active vms in if is_active vm then vm ∷ rest else rest
