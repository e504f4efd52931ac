-- ===== src/Api.antt =====
-- The API types of api/v1alpha1: SmolVM (smolvm_types.go) and SmolVMNode (smolvmnode_types.go), with
-- the fields of metav1.ObjectMeta, metav1.Condition and corev1.Node that the program reads or writes.
-- A pointer is an Option, a nil slice is the empty list, a time is a number of nanoseconds.
use smolvm_operator.Prelude.{ℕ, String, Bool, true, false, Option, List, Int32, Int64}

-- metav1.ConditionStatus; `unset` is its zero value, the empty text.
pub data ConditionStatus : Type 0 where
  condition_true condition_false condition_unknown unset : ConditionStatus

abbrev pub status_eq : ConditionStatus → ConditionStatus → Bool
status_eq condition_true condition_true = true
status_eq condition_false condition_false = true
status_eq condition_unknown condition_unknown = true
status_eq unset unset = true
status_eq _ _ = false

pub record Condition : Type 0 where
  pub type : String
  pub status : ConditionStatus
  pub reason : String
  pub message : String
  pub observed_generation : Int64
  pub last_transition_time : ℕ

pub record ObjectMeta : Type 0 where
  pub name : String
  pub namespace : String
  pub uid : String
  pub generation : Int64
  pub deletion_timestamp : Option ℕ
  pub finalizers : List String
  pub labels : List (String × String)
  pub annotations : List (String × String)

pub record Resources : Type 0 where
  pub cpus : Int32
  pub memory_mib : Int32

pub record Storage : Type 0 where
  pub storage_gib : Int64
  pub overlay_gib : Int64

pub record Port : Type 0 where
  pub host_port : Int32
  pub guest_port : Int32

pub record Network : Type 0 where
  pub enabled : Bool
  pub allowed_cidrs : List String
  pub ports : List Port

pub record SmolVmSpec : Type 0 where
  pub running : Bool
  pub node_name : String
  pub node_selector : List (String × String)
  pub image : String
  pub from : String
  pub resources : Resources
  pub storage : Storage
  pub network : Network

pub record SmolVmStatus : Type 0 where
  pub phase : String
  pub node_name : String
  pub machine_name : String
  pub runtime_pid : Option Int32
  pub network : Bool
  pub ports : List Port
  pub storage_gib : Option Int64
  pub overlay_gib : Option Int64
  pub observed_generation : Int64
  pub conditions : List Condition

pub record SmolVm : Type 0 where
  pub meta : ObjectMeta
  pub spec : SmolVmSpec
  pub status : SmolVmStatus

pub record Endpoint : Type 0 where
  pub pod_name : String
  pub pod_namespace : String
  pub pod_ip : String
  pub port : Int32

pub record Allocatable : Type 0 where
  pub cpus : Int32
  pub memory_mib : Int64
  pub storage_gib : Int64

pub record SmolVmNodeStatus : Type 0 where
  pub node_uid : String
  pub runtime_version : String
  pub protocol_version : String
  pub heartbeat_time : Option ℕ
  pub endpoint : Endpoint
  pub allocatable : Allocatable
  pub conditions : List Condition

pub record SmolVmNode : Type 0 where
  pub meta : ObjectMeta
  pub status : SmolVmNodeStatus

-- The part of corev1.Node that the program reads; a condition is its type and its status, a quantity its
-- value in whole units.
pub record KubernetesNode : Type 0 where
  pub uid : String
  pub labels : List (String × String)
  pub unschedulable : Bool
  pub allocatable_cpus : Int64
  pub allocatable_memory : Int64
  pub conditions : List (String × ConditionStatus)

abbrev pub smolvm_finalizer : String
smolvm_finalizer = "smolvms.vm.smolvm.dev/finalizer"

abbrev pub force_delete_annotation : String
force_delete_annotation = "vm.smolvm.dev/force-delete-local-state"

-- The condition types of both resources.
abbrev pub condition_ready : String
condition_ready = "Ready"

abbrev pub condition_runtime_ready : String
condition_runtime_ready = "RuntimeReady"

abbrev pub condition_guest_ready : String
condition_guest_ready = "GuestReady"

abbrev pub condition_reconciled : String
condition_reconciled = "Reconciled"

abbrev pub condition_scheduled : String
condition_scheduled = "Scheduled"

abbrev pub condition_deletion_blocked : String
condition_deletion_blocked = "DeletionBlocked"

abbrev pub node_condition_ready : String
node_condition_ready = "Ready"

abbrev pub node_condition_kvm_available : String
node_condition_kvm_available = "KVMAvailable"

abbrev pub node_condition_runtime_ready : String
node_condition_runtime_ready = "RuntimeReady"

abbrev pub node_condition_schedulable : String
node_condition_schedulable = "Schedulable"
