-- ===== src/Program.antt =====
-- The effects of the controller and of the agent's report: a program is a tree of calls, each answered by the environment (the
-- Kubernetes API server, the node runtimes and the clock), which may answer anything. An operation
-- of the source that returns a value and an error is a call whose answer is a Result.
pub mod Rules
pub mod Control
pub mod Past
pub mod Progress
pub mod Runs
use smolvm_operator.Prelude.{ℕ, String, Bool, Option, none, List}
use smolvm_operator.Api.{SmolVm, SmolVmNode, KubernetesNode}
use smolvm_operator.Smolvm.{
  MachineInfo, Identity, Health, Capabilities, CreateMachineRequest, ResizeRequest, Error, Result,
}

-- types.NamespacedName
pub record Key : Type 0 where
  pub name : String
  pub namespace : String

-- A SmolVMRuntime: the one of RuntimeFactory, or the client that NewClientWithAuth makes.
pub data Runtime : Type 0 where
  factory : Runtime
  api_client : (base_url token : String) (insecure_skip_verify : Bool) → Runtime

-- The methods of SmolVMRuntime that the controller calls.
pub data Operation : Type 0 where
  health identity capabilities : Operation
  get_machine ensure_machine_running stop_machine delete_machine : String → Operation
  create_machine : CreateMachineRequest → Operation
  resize_machine : String → ResizeRequest → Operation

pub data EventType : Type 0 where
  normal warning : EventType

pub data Call : Type 0 where
  get_vm : Key → Call
  list_vms list_nodes now : Call
  get_node get_kubernetes_node : String → Call
  update_vm update_vm_status : SmolVm → Call
  create_missing_node update_node update_node_status : SmolVmNode → Call
  runtime : Runtime → Operation → Call
  event : EventType → (reason message : String) → Call

abbrev pub OperationReply : Operation → Type 0
OperationReply health = Result Health
OperationReply identity = Result Identity
OperationReply capabilities = Result Capabilities
OperationReply (get_machine name) = Result MachineInfo
OperationReply (create_machine req) = Result MachineInfo
OperationReply _ = Option Error

abbrev pub Reply : Call → Type 0
Reply (get_vm key) = Result SmolVm
Reply list_vms = Result (List SmolVm)
Reply list_nodes = Result (List SmolVmNode)
Reply now = ℕ
Reply (get_node name) = Result SmolVmNode
Reply (get_kubernetes_node name) = Result KubernetesNode
Reply (update_vm vm) = Option Error
Reply (update_vm_status vm) = Option Error
Reply (create_missing_node node) = Option Error
Reply (update_node node) = Result SmolVmNode
Reply (update_node_status node) = Option Error
Reply (runtime rt op) = OperationReply op
Reply (event kind reason message) = Unit

pub data Program (A : Type 0) : Type 0 where
  ret : A → Program A
  call : (c : Call) → (Reply c → Program A) → Program A

abbrev pub perform : (c : Call) → Program (Reply c)
perform c = call c ret

infixl 5 ◌>>=◌ ◌>>◌
abbrev pub ◌>>=◌ : {A B : Type 0} → Program A → (A → Program B) → Program B
ret a >>= f = f a
call c k >>= f = call c (λ r. k r >>= f)

abbrev pub ◌>>◌ : {A B : Type 0} → Program A → Program B → Program B
p >> q = p >>= λ _. q

-- A call with the answer that it had; a history lists the latest first.
abbrev pub Answered : Type 0
Answered = (c : Call) × Reply c

abbrev pub History : Type 0
History = List Answered
