-- ===== src/Samples.antt =====
-- Concrete data for the tests: an object, a node, a machine, and libraries that behave as documented.
pub mod Agents
pub mod Codes
pub mod Codecs
pub mod Json
pub mod Libraries
pub mod Serving
use smolvm_operator.Prelude.{ℕ, String, Bool, true, false, Option, none, some, List, [], ◌∷◌}
use smolvm_operator.Api.{
  ConditionStatus, condition_true, Condition, ObjectMeta, Port, SmolVm, SmolVmNode, KubernetesNode,
  smolvm_finalizer,
}
use smolvm_operator.Smolvm.{MachineInfo}
use smolvm_operator.Controller.Status.{Report, no_report, StatusInput, Times}

abbrev pub meta_of : String → ObjectMeta
meta_of name = record {
  name = name;
  namespace = "default";
  uid = name;
  generation = 1;
  deletion_timestamp = none;
  finalizers = smolvm_finalizer ∷ [];
  labels = ("zone", "a") ∷ [];
  annotations = [];
}

-- A machine with one port, not yet placed.
abbrev pub sample_vm : SmolVm
sample_vm = record {
  meta = meta_of "alpine";
  spec = record {
    running = true;
    node_name = "";
    node_selector = ("zone", "a") ∷ [];
    image = "alpine:latest";
    from = "";
    resources = record { cpus = 2; memory_mib = 512 };
    storage = record { storage_gib = 20; overlay_gib = 10 };
    network = record {
      enabled = true;
      allowed_cidrs = "10.0.0.0/8" ∷ [];
      ports = record { host_port = 8080; guest_port = 80 } ∷ [];
    };
  };
  status = record {
    phase = "";
    node_name = "";
    machine_name = "";
    runtime_pid = none;
    network = false;
    ports = [];
    storage_gib = none;
    overlay_gib = none;
    observed_generation = 0;
    conditions = [];
  };
}

abbrev pub bound_vm : SmolVm
bound_vm = record sample_vm {
  status = record sample_vm.status { node_name = "node-a"; machine_name = "k8s-default-alpine-0" };
}

abbrev pub deleting_vm : SmolVm
deleting_vm = record bound_vm { meta = record bound_vm.meta { deletion_timestamp = some 5 } }

abbrev pub ready_condition : String → Condition
ready_condition type = record {
  type = type;
  status = condition_true;
  reason = "Reported";
  message = "";
  observed_generation = 0;
  last_transition_time = 0;
}

abbrev pub sample_node : SmolVmNode
sample_node = record {
  meta = meta_of "node-a";
  status = record {
    node_uid = "uid-a";
    runtime_version = "0.8.1";
    protocol_version = "v1alpha1";
    heartbeat_time = some 100;
    endpoint = record { pod_name = "p"; pod_namespace = "d"; pod_ip = "10.1.0.4"; port = 9443 };
    allocatable = record { cpus = 8; memory_mib = 16384; storage_gib = 100 };
    conditions =
        ready_condition "Ready"
        ∷ ready_condition "KVMAvailable"
        ∷ ready_condition "RuntimeReady"
        ∷ ready_condition "Schedulable"
        ∷ [];
  };
}

abbrev pub sample_kubernetes_node : KubernetesNode
sample_kubernetes_node = record {
  uid = "uid-a";
  labels = [];
  unschedulable = false;
  allocatable_cpus = 8;
  allocatable_memory = 17179869184;
  conditions = ("MemoryPressure", condition_true) ∷ ("Ready", condition_true) ∷ [];
}

abbrev pub sample_machine : MachineInfo
sample_machine = record {
  name = "k8s-default-alpine-0";
  state = "running";
  cpus = 2;
  memory_mib = 512;
  pid = some 4711;
  ports = record { host = 8080; guest = 80 } ∷ [];
  network = true;
  storage_gb = some 20;
  overlay_gb = some 10;
}

-- A node that bounds its CPUs only, and a machine that asks for as many as an int32 holds.
abbrev pub unbounded_node : SmolVmNode
unbounded_node = record sample_node {
  status = record sample_node.status {
    allocatable = record { cpus = 8; memory_mib = 0; storage_gib = 0 };
  };
}

abbrev pub huge_vm : SmolVm
huge_vm = record sample_vm {
  spec = record sample_vm.spec { resources = record { cpus = 2147483647; memory_mib = 512 } };
}

abbrev pub sample_report : ConditionStatus → String → Report
sample_report status reason = record { status = status; reason = reason; message = "" }

abbrev pub sample_input : StatusInput
sample_input = record {
  phase = "Running";
  node_name = "node-a";
  machine_name = "k8s-default-alpine-0";
  machine = some sample_machine;
  scheduled = no_report;
  ready = sample_report condition_true "Observed";
  recon = sample_report condition_true "Reconciled";
  deletion_blocked = no_report;
}

abbrev pub sample_times : Times
sample_times = record {
  scheduled = 1;
  ready = 2;
  runtime_ready = 3;
  guest_ready = 4;
  reconciled = 5;
  deletion_blocked = 6;
}
