-- ===== src/Agent/Report/Calls.antt =====
-- The calls of report of cmd/runtime-agent/main.go, whatever the API server answers.
mod Tests
use mathlib.Core.Path.{subst}
use smolvm_operator.Prelude.{
  ℕ, zero, suc, String, ◌≡◌, ◌⊎◌, inl, inr, refl, ap, [], ◌∷◌, List, Option,
}
use smolvm_operator.Api.{SmolVmNode, KubernetesNode}
use smolvm_operator.Smolvm.{Error, Result, ok, err}
use smolvm_operator.Program.{
  Call, get_node, get_kubernetes_node, now, create_missing_node, update_node, update_node_status,
  History,
}
use smolvm_operator.Program.Past.{Got, latest, earlier}
use smolvm_operator.Program.Rules.{Holds, returns, calls}
use smolvm_operator.Agent.{Agent, Host}
use smolvm_operator.Agent.Report.{
  node_or_zero, learned, relabelled, updated, report_on, report_after, report,
}
use smolvm_operator.Agent.Report.Told.{uid_of, learned_lem, Tells, reported_status-Tells}

-- The labels that the agent copies: those of its Kubernetes node, or none if it could not read it.
abbrev pub labels_of : Result KubernetesNode → List (String × String)
labels_of (err e) = []
labels_of (ok node) = node.labels

-- The object that the status is written into: what the server answered to the labels, or, if it refused
-- them, the object with the labels as the agent has it.
abbrev pub Base : SmolVmNode → Result SmolVmNode → SmolVmNode → Type 0
Base sent answer base = (answer ≡ ok base) ⊎ ((e : Error) × (answer ≡ err e) × (base ≡ sent))

-- How many reports have begun to write: each creates its object once, if it is missing.
abbrev pub reports_in : History → ℕ
reports_in [] = zero
reports_in ((create_missing_node node, x) ∷ h) = suc (reports_in h)
reports_in (_ ∷ h) = reports_in h

-- What the report may do, after the answers that it had.
pub data Reports (a : Agent) (host : Host) (h : History) : Call → Type 0 where
  read_kubernetes : Reports a host h (get_kubernetes_node a.node_name)
  read_node : Reports a host h (get_node a.node_name)
  read_clock : Reports a host h now
  create :
      {node : SmolVmNode}
      → (found : Result KubernetesNode) → Got (get_kubernetes_node a.node_name) found h
      → node.meta.name ≡ a.node_name
      → node.meta.labels ≡ labels_of found
      → Reports a host h (create_missing_node node)
  relabel :
      {node : SmolVmNode}
      → (found : Result KubernetesNode) (current : SmolVmNode)
      → Got (get_kubernetes_node a.node_name) found h
      → Got (get_node a.node_name) (ok current) h
      → node ≡ relabelled current (labels_of found)
      → Reports a host h (update_node node)
  tell :
      {node : SmolVmNode}
      → (found again : Result KubernetesNode) (current base : SmolVmNode)
        (answer : Result SmolVmNode) (heartbeat : ℕ)
      → Got (get_kubernetes_node a.node_name) found h
      → Got (get_kubernetes_node a.node_name) again h
      → Got (get_node a.node_name) (ok current) h
      → Got (update_node (relabelled current (labels_of found))) answer h
      → Got now heartbeat h
      → Base (relabelled current (labels_of found)) answer base
      → node.meta ≡ base.meta
      → Tells a host found again heartbeat base.status node.status
      → Reports a host h (update_node_status node)

abbrev pub Told : Agent → History → Type 0
Told a h =
    ((e : Error) × Got (get_node a.node_name) (err e) h)
    ⊎ ((node : SmolVmNode) × (answer : Option Error) × Got (update_node_status node) answer h)

-- The report is over: it has written a status, unless its object could not be read, and leaves the agent
-- with the UID that was read, or the one it had.
abbrev pub Learned : Agent → History → Agent → Type 0
Learned a h after =
    (found : Result KubernetesNode) × Got (get_kubernetes_node a.node_name) found h
    × (after ≡ record a { node_uid = uid_of a found })
    × (reports_in h ≡ 1)
    × Told a h

labels_of_lem : (found : Result KubernetesNode) → (node_or_zero found).labels ≡ labels_of found
labels_of_lem (err e) = refl
labels_of_lem (ok node) = refl

updated-Base :
    (sent : SmolVmNode) (answer : Result SmolVmNode) → Base sent answer (updated sent answer)
updated-Base sent (ok answered) = inl refl
updated-Base sent (err e) = inr (e, refl, refl)

sent-Got :
    {h : History} (current : SmolVmNode) (labels labels' : List (String × String))
    (answer : Result SmolVmNode)
    → labels ≡ labels'
    → Got (update_node (relabelled current labels)) answer h
    → Got (update_node (relabelled current labels')) answer h
sent-Got {h} current labels labels' answer same =
    subst (λ l. Got (update_node (relabelled current l)) answer h) same

-- From the update of the labels on.
report_on-Reports :
    (a : Agent) (host : Host) (h : History) (found : Result KubernetesNode) (heartbeat : ℕ)
    (current : SmolVmNode)
    → Got (get_kubernetes_node a.node_name) found h
    → Got now heartbeat h
    → Got (get_node a.node_name) (ok current) h
    → reports_in h ≡ 1
    → Holds
        (Reports a host)
        (Learned a)
        h
        (report_on host (learned a found) (node_or_zero found) heartbeat current)
unfolding report_on
report_on-Reports a host h found heartbeat current got beat got_current once =
    let labels = labels_of_lem found in
    let sent = relabelled current (node_or_zero found).labels in
    calls (relabel found current got got_current (ap (relabelled current) labels)) (λ answered.
      calls read_kubernetes (λ again. calls read_clock (λ t1. calls read_clock (λ t2.
        calls read_clock (λ t3. calls read_clock (λ t4.
          calls
            (tell found again current (updated sent answered) answered heartbeat
              (earlier (earlier (earlier (earlier (earlier (earlier got))))))
              (earlier (earlier (earlier (earlier latest))))
              (earlier (earlier (earlier (earlier (earlier (earlier got_current))))))
              (sent-Got current _ _ answered labels
                (earlier (earlier (earlier (earlier (earlier latest))))))
              (earlier (earlier (earlier (earlier (earlier (earlier beat))))))
              (subst (λ l. Base (relabelled current l) answered (updated sent answered)) labels
                (updated-Base sent answered))
              refl (reported_status-Tells a host found again _ (updated sent answered).status))
            (λ e. returns (
              found,
              (earlier (earlier (earlier (earlier (earlier (earlier (earlier got))))))),
              learned_lem a found,
              once,
              inr (_, e, latest),
            ))))))))

-- Whatever the API server answers, the report makes only these calls: it reads its node and its object;
-- it creates its object and writes the object's labels with the labels of its Kubernetes node as read,
-- which are none if that read failed; and it writes a status into the object that the server answered,
-- or, if the server refused the labels, into the object as it read it, with the labels. The status names the
-- agent's address, version, UID and time of heartbeat as read, and what node and disk offer as observed;
-- over conditions of distinct types, it is Ready exactly if the socket, the state directory and the KVM
-- device are ready, and Schedulable exactly if the Kubernetes node was read and ready, besides. It ends with
-- the UID that it read, or the one that it had, and has written a status unless its object could not be read.
pub report-Reports :
    (a : Agent) (host : Host) → Holds (Reports a host) (Learned a) [] (report host a)
unfolding report report_after
report-Reports a host = calls read_kubernetes (λ found. calls read_clock (λ heartbeat.
    calls (create found (earlier latest) refl (labels_of_lem found)) (λ e. calls read_node (elim [
      | err e ↦
          returns (
            found,
            (earlier (earlier (earlier latest))),
            learned_lem a found,
            refl,
            inl (e, latest),
          )
      | ok current ↦
          report_on-Reports a host _ found heartbeat current (earlier (earlier (earlier latest)))
            (earlier (earlier latest)) latest refl
    ]))))
