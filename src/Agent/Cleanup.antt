-- ===== src/Agent/Cleanup.antt =====
-- cleanupOrphans of cmd/runtime-agent/main.go; what client.List answers is an argument.
pub mod Orphans
mod Tests
use Prim.Native.String
use smolvm_operator.Prelude.{
  ℕ, Option, String, Bool, true, false, not, ◌||◌, ◌&&◌, ◌≡◌, ◌≢◌, ◌↔◌, refl, ap, none, some, List,
  [], ◌∷◌, str_eq, eq_iff, arith, Any, Bool-cases, inl, inr, if◌then◌else◌,
}
use smolvm_operator.Api.{SmolVm}
use smolvm_operator.Smolvm.{MachineInfo, Error, Result, ok, err}
use smolvm_operator.Http.{Exchange, answer, ◌>>=◌, Web}
use smolvm_operator.Http.Laws.{bind_cong}
use smolvm_operator.Http.Paths.{has_prefix}
use smolvm_operator.Client
use smolvm_operator.Agent.{Agent}

abbrev marked_deleted : SmolVm → Bool
marked_deleted vm = elim vm.meta.deletion_timestamp [ none ↦ false | some t ↦ true ]

-- The names in the map `owned`.
unfoldable pub owned_names : String → List SmolVm → List String
owned_names node_name [] = []
owned_names node_name (vm ∷ vms) =
    let rest = owned_names node_name vms in
    if not (str_eq vm.status.node_name node_name)
      || str_eq vm.status.machine_name ""
      || marked_deleted vm
    then rest
    else vm.status.machine_name ∷ rest

unfoldable pub is_owned : List String → String → Bool
is_owned [] name = false
is_owned (o ∷ owned) name = let rest = is_owned owned name in if str_eq o name then true else rest

module _ (web : Web) (a : Agent) where
  unfoldable pub delete_orphans : List String → List MachineInfo → Exchange Unit
  unfolding has_prefix is_owned
  delete_orphans owned [] = answer tt
  delete_orphans owned (machine ∷ machines) =
      let rest = delete_orphans owned machines in
      if not (has_prefix machine.name "k8s-")
      then rest
      else if is_owned owned machine.name
      then rest
      else Client.delete_machine web a.smolvm machine.name >>= λ e. rest

  unfoldable pub cleanup_orphans : Result (List SmolVm) → Exchange Unit
  unfolding delete_orphans owned_names
  cleanup_orphans listed = Client.list_machines web a.smolvm >>= λ r. elim r [
    | err e ↦ answer tt
    | ok machines ↦ elim listed [
      | err e ↦ answer tt
      | ok vms ↦ delete_orphans (owned_names a.node_name vms) machines
    ]
  ]

  -- orphanCleanupLoop, up to the end of its context: what the list of objects is in the first round and
  -- in each round after a tick.
  unfoldable pub orphan_cleanup_loop :
      List (Result (List SmolVm)) → Result (List SmolVm) → Exchange Unit
  unfolding cleanup_orphans
  orphan_cleanup_loop [] listed = cleanup_orphans listed
  orphan_cleanup_loop (next ∷ more) listed =
      cleanup_orphans listed >>= λ done. orphan_cleanup_loop more next

-- An object that keeps a machine of the node: bound to it, with the machine's name, not being deleted.
abbrev pub Keeps : String → String → SmolVm → Type 0
Keeps node_name name vm =
    (vm.status.node_name ≡ node_name)
    × (vm.status.machine_name ≡ name)
    × (vm.meta.deletion_timestamp ≡ none)

-- The machines that the cleanup is to delete.
unfoldable pub orphans : String → List SmolVm → List MachineInfo → List String
unfolding has_prefix is_owned owned_names
orphans node_name vms [] = []
orphans node_name vms (machine ∷ machines) =
    let rest = orphans node_name vms machines in
    if has_prefix machine.name "k8s-" && not (is_owned (owned_names node_name vms) machine.name)
    then machine.name ∷ rest
    else rest

marked_deleted_iff :
    (vm : SmolVm) → (marked_deleted vm ≡ false) ↔ (vm.meta.deletion_timestamp ≡ none)
marked_deleted_iff vm = go vm.meta.deletion_timestamp
  where
    go : (t : Option ℕ) → (elim t [ none ↦ false | some t ↦ true ] ≡ false) ↔ (t ≡ none)
    go none = ground arith
    go (some t) = ground arith

pub is_owned_iff :
    (node_name name : String) (vms : List SmolVm)
    → name ≢ ""
    → (is_owned (owned_names node_name vms) name ≡ true) ↔ Any (Keeps node_name name) vms
unfolding is_owned owned_names
is_owned_iff node_name name [] full = ground arith
is_owned_iff node_name name (vm ∷ vms) full = ground (
  arith,
  eq_iff vm.status.node_name node_name,
  eq_iff vm.status.machine_name "",
  eq_iff vm.status.machine_name name,
  marked_deleted_iff vm,
  is_owned_iff node_name name vms full,
)

orphans-listed :
    (node_name name : String) (vms : List SmolVm) (machines : List MachineInfo)
    → Any (λ n. n ≡ name) (orphans node_name vms machines) ↔ (
        Any (λ m. m.name ≡ name) machines
        × (has_prefix name "k8s-" ≡ true)
        × (is_owned (owned_names node_name vms) name ≡ false))
unfolding orphans
orphans-listed node_name name vms [] = ground arith
orphans-listed node_name name vms (machine ∷ machines) =
    let rest = orphans-listed node_name name vms machines in
    let prefix : machine.name ≡ name → has_prefix machine.name "k8s-" ≡ has_prefix name "k8s-" =
      ap (λ n. has_prefix n "k8s-") in
    let owner : machine.name ≡ name
        → is_owned (owned_names node_name vms) machine.name
          ≡ is_owned (owned_names node_name vms) name =
      ap (is_owned (owned_names node_name vms)) in
    ground (arith, rest, prefix, owner)

pub has_prefix-full : (name : String) → has_prefix name "k8s-" ≡ true → name ≢ ""
unfolding has_prefix
has_prefix-full name prefixed empty = cc (prefixed, ap (λ n. has_prefix n "k8s-") empty)

-- The names that the cleanup deletes are those that begin with "k8s-" and that no object keeps.
pub orphans_iff :
    (node_name name : String) (vms : List SmolVm) (machines : List MachineInfo)
    → Any (λ n. n ≡ name) (orphans node_name vms machines) ↔ (
        Any (λ m. m.name ≡ name) machines
        × (has_prefix name "k8s-" ≡ true)
        × ¬ Any (Keeps node_name name) vms)
orphans_iff node_name name vms machines =
    let listed = orphans-listed node_name name vms machines in
    ground (arith, listed, has_prefix-full name, is_owned_iff node_name name vms)

delete_each : Web → Agent → List String → Exchange Unit
delete_each web a [] = answer tt
delete_each web a (name ∷ names) =
    Client.delete_machine web a.smolvm name >>= λ e. delete_each web a names

delete_orphans-delete_each :
    (web : Web) (a : Agent) (vms : List SmolVm) (machines : List MachineInfo)
    → delete_orphans web a (owned_names a.node_name vms) machines
      ≡ delete_each web a (orphans a.node_name vms machines)
unfolding delete_orphans delete_each orphans
delete_orphans-delete_each web a vms [] = refl
delete_orphans-delete_each web a vms (machine ∷ machines) =
    elim (Bool-cases (has_prefix machine.name "k8s-")) [
      | inr other ↦ rw (other) (delete_orphans-delete_each web a vms machines)
      | inl prefixed ↦
          rw (prefixed) (elim (Bool-cases (is_owned (owned_names a.node_name vms) machine.name)) [
            | inl owned ↦ rw (owned) (delete_orphans-delete_each web a vms machines)
            | inr orphan ↦ rw (orphan) (λ i.
                Client.delete_machine web a.smolvm machine.name >>= λ e.
                delete_orphans-delete_each web a vms machines i)
          ])
    ]

pub delete_listed : Web → Agent → List SmolVm → Result (List MachineInfo) → Exchange Unit
delete_listed web a vms (err e) = answer tt
delete_listed web a vms (ok machines) = delete_each web a (orphans a.node_name vms machines)

-- The cleanup deletes, in their order, the machines of the node's runtime whose name begins with "k8s-"
-- and that no object keeps, and no others: an object keeps a machine if it is bound to the node, names
-- the machine, and is not being deleted. If either list cannot be read it deletes nothing.
pub cleanup_orphans_exact :
    (web : Web) (a : Agent) (vms : List SmolVm) (machines : List MachineInfo) (name : String)
    (e : Error)
    → (cleanup_orphans web a (ok vms)
        ≡ (Client.list_machines web a.smolvm >>= delete_listed web a vms))
      × (Any (λ n. n ≡ name) (orphans a.node_name vms machines) ↔ (
          Any (λ m. m.name ≡ name) machines
          × (has_prefix name "k8s-" ≡ true)
          × ¬ Any (Keeps a.node_name name) vms))
      × (cleanup_orphans web a (err e) ≡ (Client.list_machines web a.smolvm >>= λ r. answer tt))
unfolding cleanup_orphans delete_listed
cleanup_orphans_exact web a vms machines name e = (
  bind_cong (Client.list_machines web a.smolvm) _ (delete_listed web a vms)
      (elim [ err e ↦ refl | ok machines ↦ delete_orphans-delete_each web a vms machines ]),
  orphans_iff a.node_name name vms machines,
  bind_cong (Client.list_machines web a.smolvm) _ (λ r. answer tt)
      (elim [ err e ↦ refl | ok machines ↦ refl ]),
)
