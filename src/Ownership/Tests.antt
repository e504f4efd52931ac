-- ===== src/Ownership/Tests.antt =====
-- A bound object, and one that is gone.
use smolvm_operator.Prelude.{◌≡◌, refl, [], ◌∷◌}
use smolvm_operator.Smolvm.{MachineInfo}
use smolvm_operator.Controller.Machine.{stable_machine_name}
use smolvm_operator.Http.{◌>>=◌}
use smolvm_operator.Client
use smolvm_operator.Agent.Cleanup.{owned_names, delete_orphans}
use smolvm_operator.Samples.Agents.{sample_agent}
use smolvm_operator.Samples.Json.{sample_web}
use smolvm_operator.Ownership.{delete_orphans-stable}
use smolvm_operator.Samples.{sample_vm, sample_machine}
use smolvm_operator.Samples.Libraries.{libraries}

abbrev left_machine : MachineInfo
left_machine = record sample_machine { name = stable_machine_name libraries sample_vm }

delete_orphans-stable_example :
    delete_orphans sample_web sample_agent [] (sample_machine ∷ left_machine ∷ []) ≡ (
      delete_orphans sample_web sample_agent [] (sample_machine ∷ []) >>= λ done.
      Client.delete_machine sample_web sample_agent.smolvm left_machine.name >>= λ e.
      delete_orphans sample_web sample_agent [] [])
unfolding owned_names
delete_orphans-stable_example =
    delete_orphans-stable sample_web sample_agent libraries sample_vm [] (sample_machine ∷ []) []
      left_machine refl (λ none_kept. none_kept)
