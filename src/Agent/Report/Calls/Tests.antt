-- ===== src/Agent/Report/Calls/Tests.antt =====
-- The report of a concrete agent.
use smolvm_operator.Prelude.{[]}
use smolvm_operator.Program.Rules.{Holds}
use smolvm_operator.Agent.Report.{report}
use smolvm_operator.Agent.Report.Calls.{Reports, Learned, report-Reports}
use smolvm_operator.Samples.Agents.{sample_agent, healthy_host}

report-Reports_example :
    Holds
      (Reports sample_agent healthy_host)
      (Learned sample_agent)
      []
      (report healthy_host sample_agent)
report-Reports_example = report-Reports sample_agent healthy_host
