-- ===== src/Agent/Report.antt =====
-- report, setCondition, conditionStatus, kubernetesNodeReady and portFromAddr of
-- cmd/runtime-agent/main.go. CreateOrUpdate with a function that changes nothing creates the object
-- if it is missing. Update decodes the server's answer into the object that it was given.
pub mod Calls
pub mod Laws
pub mod Told
pub mod Loop
use Prim.Native.Char.{Char, code}
use Prim.Native.String
use smolvm_operator.Prelude.{
  ℕ, String, Bool, true, false, ◌&&◌, Option, none, some, List, [], ◌∷◌, Int32, ltb, ◌==◌, ◌^◌, ◌%◌,
  ◌+◌, ◌*◌, ◌-◌, str_eq, if◌then◌else◌,
}
use smolvm_operator.Api.{
  ConditionStatus, condition_true, condition_false, status_eq, Condition, ObjectMeta, SmolVmNode,
  SmolVmNodeStatus, KubernetesNode, node_condition_ready, node_condition_kvm_available,
  node_condition_runtime_ready, node_condition_schedulable,
}
use smolvm_operator.Smolvm.{Health, Capabilities, Result, ok, err}
use smolvm_operator.Program.{
  get_node, get_kubernetes_node, now, create_missing_node, update_node, update_node_status, Program,
  ret, perform, ◌>>=◌, ◌>>◌,
}
use smolvm_operator.Agent.{Agent, Host, health_of, capability_report}

abbrev pub condition_status : Bool → ConditionStatus
condition_status b = if b then condition_true else condition_false

-- A time is read for each condition, also where it is not used.
unfoldable pub report_condition :
    ℕ
    → (type : String) → ConditionStatus
    → (reason message : String) → List Condition
    → List Condition
report_condition time type status reason message [] =
    record {
      type = type;
      status = status;
      reason = reason;
      message = message;
      observed_generation = 0;
      last_transition_time = time;
    }
    ∷ []
report_condition time type status reason message (c ∷ cs) =
    let rest = report_condition time type status reason message cs in
    if str_eq c.type type
    then record c {
      last_transition_time = if status_eq c.status status then c.last_transition_time else time;
      status = status;
      reason = reason;
      message = message;
    }
      ∷ cs
    else c ∷ rest

unfoldable pub node_ready_in : List (String × ConditionStatus) → Bool
node_ready_in [] = false
node_ready_in ((type, status) ∷ rest) =
    let later = node_ready_in rest in
    if str_eq type "Ready" then status_eq status condition_true else later

unfoldable pub kubernetes_node_ready : KubernetesNode → Bool
unfolding node_ready_in
kubernetes_node_ready node = node_ready_in node.conditions

-- The zero value, which the report goes on with if its node cannot be read.
abbrev pub zero_kubernetes_node : KubernetesNode
zero_kubernetes_node = record {
  uid = "";
  labels = [];
  unschedulable = false;
  allocatable_cpus = 0;
  allocatable_memory = 0;
  conditions = [];
}

abbrev pub node_or_zero : Result KubernetesNode → KubernetesNode
node_or_zero (err e) = zero_kubernetes_node
node_or_zero (ok node) = node

abbrev pub learned : Agent → Result KubernetesNode → Agent
learned a found = record a { node_uid = elim found [ err e ↦ a.node_uid | ok node ↦ node.uid ] }

abbrev pub new_node : String → List (String × String) → SmolVmNode
new_node name labels = record {
  meta = record {
    name = name;
    namespace = "";
    uid = "";
    generation = 0;
    deletion_timestamp = none;
    finalizers = [];
    labels = labels;
    annotations = [];
  };
  status = record {
    node_uid = "";
    runtime_version = "";
    protocol_version = "";
    heartbeat_time = none;
    endpoint = record { pod_name = ""; pod_namespace = ""; pod_ip = ""; port = 0 };
    allocatable = record { cpus = 0; memory_mib = 0; storage_gib = 0 };
    conditions = [];
  };
}

abbrev pub relabelled : SmolVmNode → List (String × String) → SmolVmNode
relabelled node labels = record node { meta = record node.meta { labels = labels } }

-- The object after Update: what the server answered, or as it was.
abbrev pub updated : SmolVmNode → Result SmolVmNode → SmolVmNode
updated node (err e) = node
updated node (ok answered) = answered

-- The times of the heartbeat and of the four conditions.
pub record ReportTimes : Type 0 where
  pub heartbeat : ℕ
  pub ready : ℕ
  pub kvm : ℕ
  pub runtime : ℕ
  pub schedulable : ℕ

unfoldable pub reported_conditions : Health → Bool → ReportTimes → List Condition → List Condition
unfolding report_condition
reported_conditions health node_is_ready t conditions =
    report_condition t.schedulable node_condition_schedulable
      (condition_status (node_is_ready && health.ok)) "Reported" "node is schedulable for SmolVM"
      (report_condition t.runtime node_condition_runtime_ready
        (condition_status health.socket_ready) "Reported" health.message
        (report_condition t.kvm node_condition_kvm_available (condition_status health.kvm_available)
          "Observed" "KVM device availability observed"
          (report_condition t.ready node_condition_ready (condition_status health.ok) "Reported"
            health.message conditions)))

unfoldable pub reported_status :
    Agent → Host → Bool → ReportTimes → SmolVmNodeStatus → SmolVmNodeStatus
unfolding reported_conditions capability_report health_of
reported_status a host node_is_ready t status =
    let found = capability_report a host in
    record {
      node_uid = a.node_uid;
      runtime_version = a.version;
      protocol_version = "v1alpha1";
      heartbeat_time = some t.heartbeat;
      endpoint = record {
        pod_name = a.pod_name;
        pod_namespace = a.pod_namespace;
        pod_ip = a.pod_ip;
        port = a.listen_port;
      };
      allocatable = record {
        cpus = found.cpus;
        memory_mib = found.memory_mib;
        storage_gib = found.storage_gib;
      };
      conditions = reported_conditions (health_of host) node_is_ready t status.conditions;
    }

module _ (host : Host) where
  -- From the second Get on: the object exists.
  unfoldable pub report_on : Agent → KubernetesNode → ℕ → SmolVmNode → Program Agent
  unfolding reported_status kubernetes_node_ready
  report_on a node heartbeat latest = do
    answered ← perform (update_node (relabelled latest node.labels))
    again ← perform (get_kubernetes_node a.node_name)
    ready ← perform now
    kvm ← perform now
    runtime ← perform now
    schedulable ← perform now
    let current = updated (relabelled latest node.labels) answered
    let t : ReportTimes = record {
      heartbeat = heartbeat;
      ready = ready;
      kvm = kvm;
      runtime = runtime;
      schedulable = schedulable;
    }
    e ← perform (
        update_node_status (record current {
          status =
              reported_status a (record host { node = again }) (kubernetes_node_ready node) t
                current.status;
        }))
    ret a

  unfoldable pub report_after : Agent → Result KubernetesNode → Program Agent
  unfolding report_on
  report_after a found = do
    heartbeat ← perform now
    e ← perform (create_missing_node (new_node a.node_name (node_or_zero found).labels))
    latest ← perform (get_node a.node_name)
    elim latest [ err e ↦ ret a | ok latest ↦ report_on a (node_or_zero found) heartbeat latest ]

  -- The result is the agent with the UID that it learned.
  unfoldable pub report : Agent → Program Agent
  unfolding report_after
  report a =
      perform (get_kubernetes_node a.node_name) >>= λ found. report_after (learned a found) found
