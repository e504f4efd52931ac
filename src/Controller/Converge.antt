-- ===== src/Controller/Converge.antt =====
-- One object of internal/controller/smolvm_controller.go in an environment that keeps its promises: the API server
-- stores what is written, the node is eligible, and its runtime does what it is asked, to the machine that it is
-- asked about. Another party changes neither the object nor the machine meanwhile.
pub mod Answers
pub mod Machines
pub mod Statuses
pub mod Asking
pub mod Rounds
pub mod Settles
pub mod Stuck
pub mod Deletes
pub mod Arrival
pub mod Naming
pub mod Offering
mod Tests
use smolvm_operator.Prelude.{String, ◌≡◌, ◌⊎◌, true, false, Option, none, some, str_eq, Int64}
use smolvm_operator.Api.{SmolVm, SmolVmNode}
use smolvm_operator.Smolvm.{
  MachineInfo, ResizeRequest, Health, Identity, Capabilities, Error, Result, ok, err, is_not_found,
}
use smolvm_operator.Program.{
  Call, Reply, Runtime, OperationReply, Operation, get_vm, now, get_node, update_vm,
  update_vm_status, runtime, health, identity, capabilities, get_machine, create_machine,
  ensure_machine_running, stop_machine, delete_machine, resize_machine,
}
use smolvm_operator.Controller.Permitted.{ReadsOnly}
use smolvm_operator.Controller.Serving.{IsRuntime}
use smolvm_operator.Controller.Fit.{smolvm_node_eligible}
use smolvm_operator.Controller.Reconciler.{Reconciler, identity_mismatch, protocol_mismatch}
use smolvm_operator.Controller.Machine.Laws.{MadeFrom}

-- The object in the API server, and the machine of a name on the node's runtime, if there is one.
pub record State : Type 0 where
  pub vm : SmolVm
  pub name : String
  pub machine : Option MachineInfo

-- Two descriptions of a machine that agree but for its state and its process.
pub record SameMachine (m m' : MachineInfo) : Type 0 where
  pub cpus : m'.cpus ≡ m.cpus
  pub memory : m'.memory_mib ≡ m.memory_mib
  pub ports : m'.ports ≡ m.ports
  pub storage : m'.storage_gb ≡ m.storage_gb
  pub overlay : m'.overlay_gb ≡ m.overlay_gb

-- The disk's size is the one asked for, or as it was.
abbrev pub resized_to : Option Int64 → Option Int64 → Option Int64
resized_to none old = old
resized_to (some n) old = some n

pub record Resized (wanted : ResizeRequest) (m m' : MachineInfo) : Type 0 where
  pub cpus : m'.cpus ≡ m.cpus
  pub memory : m'.memory_mib ≡ m.memory_mib
  pub ports : m'.ports ≡ m.ports
  pub state : m'.state ≡ m.state
  pub storage : m'.storage_gb ≡ resized_to wanted.storage_gb m.storage_gb
  pub overlay : m'.overlay_gb ≡ resized_to wanted.overlay_gb m.overlay_gb

-- What becomes of the machine, if there is one.
abbrev pub Becomes :
    (MachineInfo → MachineInfo → Type 0) → Option MachineInfo → Option MachineInfo → Type 0
Becomes R none after = after ≡ none
Becomes R (some m) after = (m' : MachineInfo) × (after ≡ some m') × R m m'

abbrev pub Observed : Option MachineInfo → Result MachineInfo → Type 0
Observed none x = (e : Error) × (x ≡ err e) × (is_not_found e ≡ true)
Observed (some m) x = x ≡ ok m

abbrev pub with_vm : State → SmolVm → State
with_vm s vm = record s { vm = vm }

-- The operation is about the machine of this name, or about none.
abbrev pub About : String → Operation → Type 0
About name (get_machine n) = n ≡ name
About name (create_machine wanted) = wanted.name ≡ name
About name (ensure_machine_running n) = n ≡ name
About name (stop_machine n) = n ≡ name
About name (delete_machine n) = n ≡ name
About name (resize_machine n wanted) = n ≡ name
About name _ = Unit

module _ (r : Reconciler) (node_name : String) (node : SmolVmNode) where
  -- The operation is asked of the node's runtime, and is about the machine of this name.
  abbrev pub Concerns : String → Runtime → Operation → Type 0
  Concerns name api op = IsRuntime r node api × About name op

  -- What the runtime answers to an operation about the machine, and the machine after it.
  abbrev pub Performs :
      Option MachineInfo → (op : Operation) → OperationReply op → Option MachineInfo → Type 0
  Performs machine health x after =
      (after ≡ machine) × (report : Health) × (x ≡ ok report) × (report.ok ≡ true)
  Performs machine identity x after =
      (after ≡ machine)
      × (who : Identity) × (x ≡ ok who)
      × (identity_mismatch r node_name node who ≡ false)
  Performs machine capabilities x after =
      (after ≡ machine)
      × (caps : Capabilities) × (x ≡ ok caps)
      × (protocol_mismatch r node caps ≡ false)
  Performs machine (get_machine name) x after = (after ≡ machine) × Observed machine x
  Performs machine (create_machine wanted) x after =
      (m : MachineInfo) × (x ≡ ok m) × (after ≡ some m) × MadeFrom wanted m
  Performs machine (ensure_machine_running name) x after =
      (x ≡ none)
      × Becomes (λ m m'. SameMachine m m' × (str_eq m'.state "running" ≡ true)) machine after
  Performs machine (stop_machine name) x after =
      (x ≡ none)
      × Becomes (λ m m'. SameMachine m m' × (str_eq m'.state "running" ≡ false)) machine after
  Performs none (delete_machine name) x after =
      (after ≡ none) × ((x ≡ none) ⊎ ((e : Error) × (x ≡ some e) × (is_not_found e ≡ true)))
  Performs (some m) (delete_machine name) x after = (after ≡ none) × (x ≡ none)
  Performs machine (resize_machine name wanted) x after =
      (x ≡ none) × Becomes (Resized wanted) machine after

  abbrev pub Lawful : State → (c : Call) → Reply c → State → Type 0
  Lawful s (get_vm key) x t = (t ≡ s) × (x ≡ ok s.vm)
  Lawful s now x t = (t ≡ s) × (smolvm_node_eligible x node ≡ true)
  Lawful s (get_node name) x t = (t ≡ s) × (x ≡ ok node)
  Lawful s (update_vm vm) x t = (t ≡ with_vm s vm) × (x ≡ none)
  Lawful s (update_vm_status vm) x t = (t ≡ with_vm s vm) × (x ≡ none)
  Lawful s (runtime api op) x t =
      (t ≡ record s { machine = t.machine })
      × (ReadsOnly op → t.machine ≡ s.machine)
      × (Concerns s.name api op → Performs s.machine op x t.machine)
      × (¬ Concerns s.name api op → t.machine ≡ s.machine)
  Lawful s _ x t = t ≡ s
