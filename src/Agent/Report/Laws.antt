-- ===== src/Agent/Report/Laws.antt =====
-- The report of cmd/runtime-agent/main.go and the scheduler's test of
-- internal/controller/smolvm_controller.go, which reads what was reported.
mod Tests
use smolvm_operator.Prelude.{
  ℕ, String, Bool, true, false, ◌&&◌, ◌≡◌, ◌≢◌, ◌↔◌, ◌∙◌, ◌+◌, ◌≤◌, inl, inr, refl, Bool-cases,
  List, [], ◌∷◌, str_eq, eq_iff, int32_lt, arith, ne_of_test, All, if◌then◌else◌, Any, some,
}
use smolvm_operator.Api.{
  ConditionStatus, condition_true, status_eq, Condition, SmolVmNode, node_condition_ready,
  node_condition_kvm_available, node_condition_runtime_ready, node_condition_schedulable,
}
use smolvm_operator.Smolvm.{Health}
use smolvm_operator.Controller.Conditions.{has_condition}
use smolvm_operator.Controller.Conditions.Laws.{UniqueTypes, has_condition_absent}
use smolvm_operator.Controller.Fit.{smolvm_node_eligible, heartbeat_limit}
use smolvm_operator.Agent.{Agent, Host, health_of}
use smolvm_operator.Agent.Report.{
  condition_status, report_condition, reported_conditions, reported_status, ReportTimes,
}

module _ (time : ℕ) (type : String) (status : ConditionStatus) (reason message : String) where
  abbrev written : List Condition → List Condition
  written = report_condition time type status reason message

  has_condition-written :
      (cs : List Condition) (asked : ConditionStatus)
      → UniqueTypes cs
      → has_condition (written cs) type asked ≡ status_eq status asked
  unfolding has_condition report_condition
  has_condition-written [] asked unique = ground (arith, eq_iff type type)
  has_condition-written (c ∷ cs) asked (fresh, unique) = elim (Bool-cases (str_eq c.type type)) [
    | inl same ↦ rw same (
        rw same (
          ground (
            arith,
            has_condition_absent type asked cs (rw ((eq_iff c.type type).0 same) at fresh),
          )))
    | inr other ↦ rw other (rw other (has_condition-written cs asked unique))
  ]

  has_condition-written_other :
      (wanted : String) (cs : List Condition) (asked : ConditionStatus)
      → wanted ≢ type
      → has_condition (written cs) wanted asked ≡ has_condition cs wanted asked
  unfolding has_condition report_condition
  has_condition-written_other wanted [] asked ne = ground (arith, eq_iff type wanted)
  has_condition-written_other wanted (c ∷ cs) asked ne = ground (
    arith,
    eq_iff c.type wanted,
    eq_iff c.type type,
    has_condition-written_other wanted cs asked ne,
  )

  fresh_kept :
      (t : String) (cs : List Condition)
      → t ≢ type
      → All (λ other. t ≢ other.type) cs
      → All (λ other. t ≢ other.type) (written cs)
  unfolding report_condition
  fresh_kept t [] ne all = (ne, tt)
  fresh_kept t (c ∷ cs) ne (here, all) = elim (Bool-cases (str_eq c.type type)) [
    | inl same ↦ rw same (here, all)
    | inr other ↦ rw other (here, fresh_kept t cs ne all)
  ]

  pub report_condition-UniqueTypes :
      (cs : List Condition) → UniqueTypes cs → UniqueTypes (written cs)
  unfolding report_condition
  report_condition-UniqueTypes [] unique = (tt, tt)
  report_condition-UniqueTypes (c ∷ cs) (fresh, unique) = elim (Bool-cases (str_eq c.type type)) [
    | inl same ↦ rw same (fresh, unique)
    | inr other ↦ rw other (
      fresh_kept c.type cs (ground (arith, eq_iff c.type type)) fresh,
      report_condition-UniqueTypes cs unique,
    )
  ]

condition_status-true : (b : Bool) → status_eq (condition_status b) condition_true ≡ b
condition_status-true true = refl
condition_status-true false = refl

-- What each of the four conditions says after the report.
module _ (health : Health) (node_is_ready : Bool) (t : ReportTimes) (cs : List Condition)
    (unique : UniqueTypes cs) where
  abbrev with_ready : List Condition
  with_ready =
      report_condition t.ready node_condition_ready (condition_status health.ok) "Reported"
        health.message cs

  abbrev with_kvm : List Condition
  with_kvm =
      report_condition t.kvm node_condition_kvm_available (condition_status health.kvm_available)
        "Observed" "KVM device availability observed" with_ready

  abbrev with_runtime : List Condition
  with_runtime =
      report_condition t.runtime node_condition_runtime_ready (condition_status health.socket_ready)
        "Reported" health.message with_kvm

  abbrev after : List Condition
  after = reported_conditions health node_is_ready t cs

  with_ready-UniqueTypes : UniqueTypes with_ready
  with_ready-UniqueTypes = report_condition-UniqueTypes _ _ _ _ _ cs unique

  with_kvm-UniqueTypes : UniqueTypes with_kvm
  with_kvm-UniqueTypes = report_condition-UniqueTypes _ _ _ _ _ with_ready with_ready-UniqueTypes

  with_runtime-UniqueTypes : UniqueTypes with_runtime
  with_runtime-UniqueTypes = report_condition-UniqueTypes _ _ _ _ _ with_kvm with_kvm-UniqueTypes

  pub reported-ready : has_condition after node_condition_ready condition_true ≡ health.ok
  unfolding reported_conditions
  reported-ready =
      has_condition-written_other _ _ _ _ _ node_condition_ready with_runtime condition_true
        (ne_of_test _ _ refl)
      ∙ has_condition-written_other _ _ _ _ _ node_condition_ready with_kvm condition_true
          (ne_of_test _ _ refl)
      ∙ has_condition-written_other _ _ _ _ _ node_condition_ready with_ready condition_true
          (ne_of_test _ _ refl)
      ∙ has_condition-written _ _ _ _ _ cs condition_true unique
      ∙ condition_status-true health.ok

  pub reported-kvm :
      has_condition after node_condition_kvm_available condition_true ≡ health.kvm_available
  unfolding reported_conditions
  reported-kvm =
      has_condition-written_other _ _ _ _ _ node_condition_kvm_available with_runtime condition_true
        (ne_of_test _ _ refl)
      ∙ has_condition-written_other _ _ _ _ _ node_condition_kvm_available with_kvm condition_true
          (ne_of_test _ _ refl)
      ∙ has_condition-written _ _ _ _ _ with_ready condition_true with_ready-UniqueTypes
      ∙ condition_status-true health.kvm_available

  pub reported-runtime :
      has_condition after node_condition_runtime_ready condition_true ≡ health.socket_ready
  unfolding reported_conditions
  reported-runtime =
      has_condition-written_other _ _ _ _ _ node_condition_runtime_ready with_runtime condition_true
        (ne_of_test _ _ refl)
      ∙ has_condition-written _ _ _ _ _ with_kvm condition_true with_kvm-UniqueTypes
      ∙ condition_status-true health.socket_ready

  pub reported-schedulable :
      has_condition after node_condition_schedulable condition_true ≡ node_is_ready && health.ok
  unfolding reported_conditions
  reported-schedulable =
      has_condition-written _ _ _ _ _ with_runtime condition_true with_runtime-UniqueTypes
      ∙ condition_status-true (node_is_ready && health.ok)

-- A status as the report writes it, over conditions with distinct types, passes the scheduler's test
-- exactly when the runtime is healthy, the Kubernetes node was ready, the agent has an address and a
-- positive port, and the heartbeat is at most two minutes old.
pub reported-eligible :
    (a : Agent) (host : Host) (node_is_ready : Bool) (t : ReportTimes) (time : ℕ)
    (node : SmolVmNode)
    → UniqueTypes node.status.conditions
    → (smolvm_node_eligible time
          (record node { status = reported_status a host node_is_ready t node.status })
        ≡ true)
      ↔ (((health_of host).ok ≡ true)
          × (node_is_ready ≡ true)
          × (a.pod_ip ≢ "")
          × (int32_lt 0 a.listen_port ≡ true)
          × (time ≤ t.heartbeat + heartbeat_limit))
unfolding smolvm_node_eligible reported_status health_of
reported-eligible a host node_is_ready t time node unique =
    let health = health_of host in
    let cs = node.status.conditions in
    ground (
      arith,
      reported-ready health node_is_ready t cs unique,
      reported-kvm health node_is_ready t cs unique,
      reported-runtime health node_is_ready t cs unique,
      reported-schedulable health node_is_ready t cs unique,
      eq_iff a.pod_ip "",
    )
