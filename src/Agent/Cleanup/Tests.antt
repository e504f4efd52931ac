-- ===== src/Agent/Cleanup/Tests.antt =====
-- The cleanup with two machines, of which one is kept.
use smolvm_operator.Prelude.{◌≡◌, ◌↔◌, refl, [], ◌∷◌, Any, true}
use smolvm_operator.Smolvm.{MachineInfo, message_error, ok, err}
use smolvm_operator.Http.{answer, ◌>>=◌}
use smolvm_operator.Http.Paths.{has_prefix}
use smolvm_operator.Client
use smolvm_operator.Agent.Cleanup.{
  cleanup_orphans, orphans, delete_listed, Keeps, cleanup_orphans_exact,
}
use smolvm_operator.Samples.{bound_vm, sample_machine}
use smolvm_operator.Samples.Agents.{sample_agent}
use smolvm_operator.Samples.Json.{sample_web}

abbrev left_over : MachineInfo
left_over = record sample_machine { name = "k8s-default-old-1" }

abbrev foreign : MachineInfo
foreign = record sample_machine { name = "mine" }

orphans_run :
    orphans "node-a" (bound_vm ∷ []) (sample_machine ∷ left_over ∷ foreign ∷ [])
    ≡ "k8s-default-old-1" ∷ []
unfolding orphans
orphans_run = refl

cleanup_orphans_exact_example :
    (cleanup_orphans sample_web sample_agent (ok (bound_vm ∷ [])) ≡ (
      Client.list_machines sample_web sample_agent.smolvm
      >>= delete_listed sample_web sample_agent (bound_vm ∷ [])))
    × (Any
          (λ n. n ≡ "k8s-default-old-1")
          (orphans "node-a" (bound_vm ∷ []) (left_over ∷ foreign ∷ []))
        ↔ (Any (λ m. m.name ≡ "k8s-default-old-1") (left_over ∷ foreign ∷ [])
            × (has_prefix "k8s-default-old-1" "k8s-" ≡ true)
            × ¬ Any (Keeps "node-a" "k8s-default-old-1") (bound_vm ∷ [])))
    × (cleanup_orphans sample_web sample_agent (err (message_error "refused"))
        ≡ (Client.list_machines sample_web sample_agent.smolvm >>= λ r. answer tt))
cleanup_orphans_exact_example =
    cleanup_orphans_exact sample_web sample_agent (bound_vm ∷ []) (left_over ∷ foreign ∷ [])
      "k8s-default-old-1" (message_error "refused")
