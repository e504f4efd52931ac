-- ===== src/Ownership.antt =====
-- The controller and the agent together: which machines the orphan cleanup of cmd/runtime-agent/main.go
-- spares and takes, of those that internal/controller/smolvm_controller.go names.
mod Tests
use smolvm_operator.Prelude.{String, ◌≡◌, ◌⊎◌, ap, ◌∙◌, ◌++◌, arith, true, List, ◌∷◌, Any, false}
use smolvm_operator.Api.{SmolVm}
use smolvm_operator.Smolvm.{MachineInfo, Result, ok, err}
use smolvm_operator.Deps.{Deps}
use smolvm_operator.Http.Paths.{has_prefix, has_prefix-append}
use smolvm_operator.Program.{Call, update_vm_status}
use smolvm_operator.Controller.Machine.{stable_machine_name}
use smolvm_operator.Controller.Reconciler.{Reconciler}
use smolvm_operator.Controller.Permitted.{deletion_requested, Permitted}
use smolvm_operator.Http.{Exchange, answer, ◌>>=◌, Web}
use smolvm_operator.Client
use smolvm_operator.Agent.{Agent}
use smolvm_operator.Agent.Cleanup.{
  Keeps, owned_names, is_owned, is_owned_iff, has_prefix-full, delete_orphans, cleanup_orphans,
}
use smolvm_operator.Agent.Cleanup.Orphans.{without, delete_orphans-middle}

-- The cleanup of a node whose runtime does not list the machines of a name.
abbrev pub clean_without :
    Web → Agent → String → List SmolVm → Result (List MachineInfo) → Exchange Unit
clean_without web a name vms (err e) = answer tt
clean_without web a name vms (ok machines) =
    delete_orphans web a (owned_names a.node_name vms) (without name machines)

-- Once the status is stored, cleanupOrphans on its node makes the requests that it would make if the machine
-- were not there, whatever other objects and machines there are, unless the object is being deleted.
abbrev pub Spared : String → Call → Type 0
Spared name (update_vm_status written) =
    (deletion_requested written ≡ true)
    ⊎ ((web : Web) (a : Agent) (others : List SmolVm)
        → written.status.node_name ≡ a.node_name
        → cleanup_orphans web a (ok (written ∷ others))
          ≡ (Client.list_machines web a.smolvm >>= clean_without web a name (written ∷ others)))
Spared name _ = Unit

stable_machine_name-prefixed :
    (d : Deps) (vm : SmolVm) → has_prefix (stable_machine_name d vm) "k8s-" ≡ true
unfolding stable_machine_name
stable_machine_name-prefixed d vm = has_prefix-append "k8s-" _

-- The cleanup deletes, in its turn, a machine of the node's runtime that has the name which the controller
-- makes for an object, as soon as no object keeps that name on the node.
pub delete_orphans-stable :
    (web : Web) (a : Agent) (d : Deps) (vm : SmolVm) (vms : List SmolVm)
    (before after : List MachineInfo) (machine : MachineInfo)
    → machine.name ≡ stable_machine_name d vm
    → ¬ Any (Keeps a.node_name (stable_machine_name d vm)) vms
    → delete_orphans web a (owned_names a.node_name vms) (before ++ machine ∷ after) ≡ (
        delete_orphans web a (owned_names a.node_name vms) before >>= λ done.
        Client.delete_machine web a.smolvm machine.name >>= λ e.
        delete_orphans web a (owned_names a.node_name vms) after)
delete_orphans-stable web a d vm vms before after machine named unkept =
    let name = stable_machine_name d vm in
    let owned = owned_names a.node_name vms in
    let prefixed = stable_machine_name-prefixed d vm in
    let orphan : is_owned owned name ≡ false =
      ground (arith, unkept, is_owned_iff a.node_name name vms (has_prefix-full name prefixed)) in
    delete_orphans-middle web a owned before after machine
      (ap (λ n. has_prefix n "k8s-") named ∙ prefixed) (ap (is_owned owned) named ∙ orphan)
