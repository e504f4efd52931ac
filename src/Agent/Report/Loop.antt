-- ===== src/Agent/Report/Loop.antt =====
-- reportLoop of cmd/runtime-agent/main.go, up to the end of its context: what the agent observes in the
-- first round, and in each round after a tick. What a tick waits for is not part of the program.
mod Tests
use smolvm_operator.Prelude.{ℕ, zero, suc, String, ◌≡◌, ◌⊎◌, List, [], ◌∷◌, ◌++◌}
use smolvm_operator.Api.{KubernetesNode}
use smolvm_operator.Smolvm.{ok}
use smolvm_operator.Program.{Call, get_kubernetes_node, History, Program, ◌>>=◌}
use smolvm_operator.Program.Past.{Got}
use smolvm_operator.Agent.{Agent, Host}
use smolvm_operator.Agent.Report.{report}
use smolvm_operator.Agent.Report.Calls.{Reports, reports_in}

unfoldable pub report_loop : List Host → Host → Agent → Program Agent
report_loop [] host a = report host a
report_loop (next ∷ more) host a = report host a >>= report_loop more next

-- The UID is the one at the start, or was read from the node's object.
abbrev pub Known : Agent → History → String → Type 0
Known a h uid =
    (uid ≡ a.node_uid)
    ⊎ ((node : KubernetesNode) × Got (get_kubernetes_node a.node_name) (ok node) h
        × (uid ≡ node.uid))

abbrev pub knowing : Agent → String → Agent
knowing a uid = record a { node_uid = uid }

-- What is observed in the round of a number, from 0.
abbrev pub At : ℕ → List Host → Host → Type 0
At n [] host = ⊥
At zero (x ∷ xs) host = x ≡ host
At (suc n) (x ∷ xs) host = At n xs host

-- The call is one that a report may make after the answers `now`, those since its round began, about what
-- was observed for this round, by an agent with a UID known from the rounds before.
pub record RoundReports (a : Agent) (hosts : List Host) (h : History) (c : Call) : Type 0 where
  pub start : History
  pub since : History
  pub split : h ≡ since ++ start
  pub uid : String
  pub known : Known a start uid
  pub host : Host
  pub its_round : At (reports_in start) hosts host
  pub reports : Reports (knowing a uid) host since c

abbrev pub rounds : List Host → ℕ
rounds [] = 1
rounds (x ∷ xs) = suc (rounds xs)

abbrev pub KnowsNode : Agent → ℕ → History → Agent → Type 0
KnowsNode a n h after =
    (uid : String) × Known a h uid × (after ≡ knowing a uid) × (reports_in h ≡ n)
