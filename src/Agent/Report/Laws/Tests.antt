-- ===== src/Agent/Report/Laws/Tests.antt =====
-- A report of a healthy node, read by the scheduler a minute later.
use smolvm_operator.Prelude.{◌≡◌, ◌≢◌, ◌↔◌, ◌≤◌, ◌+◌, true, int32_lt, refl, ne_of_test}
use smolvm_operator.Agent.{health_of}
use smolvm_operator.Agent.Report.{ReportTimes, reported_status}
use smolvm_operator.Agent.Report.Laws.{reported-eligible}
use smolvm_operator.Controller.Fit.{smolvm_node_eligible, heartbeat_limit}
use smolvm_operator.Samples.{sample_node}
use smolvm_operator.Samples.Agents.{sample_agent, healthy_host}

abbrev sample_times : ReportTimes
sample_times = record { heartbeat = 100; ready = 101; kvm = 101; runtime = 102; schedulable = 102 }

reported-eligible_example :
    (smolvm_node_eligible 160 (record sample_node {
      status = reported_status sample_agent healthy_host true sample_times sample_node.status;
    })
      ≡ true)
    ↔ (((health_of healthy_host).ok ≡ true)
        × (true ≡ true)
        × (sample_agent.pod_ip ≢ "")
        × (int32_lt 0 9443 ≡ true)
        × (160 ≤ 100 + heartbeat_limit))
reported-eligible_example =
    reported-eligible sample_agent healthy_host true sample_times 160 sample_node (
      (ne_of_test _ _ refl, (ne_of_test _ _ refl, (ne_of_test _ _ refl, tt))),
      ((ne_of_test _ _ refl, (ne_of_test _ _ refl, tt)), ((ne_of_test _ _ refl, tt), (tt, tt))),
    )
