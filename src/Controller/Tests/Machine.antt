-- ===== src/Controller/Tests/Machine.antt =====
-- Conditions, statuses and machines at concrete inputs.
use mathlib.Core.List.{Perm}
use mathlib.Core.List.Perm
use smolvm_operator.Prelude.{
  ◌≡◌, ◌↔◌, refl, inr, true, false, none, some, List, [], ◌∷◌, map, arith,
}
use smolvm_operator.Api.{condition_false, Condition}
use smolvm_operator.Program.{now}
use smolvm_operator.Program.Rules.{Holds}
use smolvm_operator.Controller.Conditions.{set_condition}
use smolvm_operator.Controller.Conditions.Laws.{
  find_condition, Says, time_after, find_condition-set_condition,
}
use smolvm_operator.Controller.Machine.Ports.{same_ports-pairs}
use smolvm_operator.Controller.Machine.{
  build_create_request, port_spec, same_ports, validate_immutable_runtime_fields,
  validate_storage_does_not_shrink, needs_storage_expansion,
}
use smolvm_operator.Controller.Machine.Laws.{MadeFrom, made_settled, SizeAgrees, storage_trichotomy}
use smolvm_operator.Controller.Reconciler.{finished}
use smolvm_operator.Controller.Status.{publish}
use smolvm_operator.Controller.Status.Settled.{updated, publish_again}
use smolvm_operator.Samples.{bound_vm, sample_machine, ready_condition, sample_input, sample_times}
use smolvm_operator.Samples.Libraries.{sample_reconciler, libraries-Documented}

abbrev conditions : List Condition
conditions = ready_condition "Ready" ∷ ready_condition "Scheduled" ∷ []

find_condition-set_condition_example :
    (c : Condition) × (find_condition "Ready"
        (set_condition 7 "Ready" condition_false "Stopped" "off" 2 conditions)
      ≡ some c)
    × Says condition_false "Stopped" "off" 2 c
    × (c.type ≡ "Ready")
    × (c.last_transition_time
        ≡ time_after 7 "Ready" condition_false "Stopped" "off" 2
            (find_condition "Ready" conditions))
find_condition-set_condition_example =
    find_condition-set_condition 7 "Ready" condition_false "Stopped" "off" 2 conditions

publish_again_example :
    Holds
      (λ g c. c ≡ now)
      (λ g outcome. outcome ≡ finished none)
      []
      (publish sample_reconciler sample_input (updated sample_input bound_vm sample_times))
publish_again_example =
    publish_again sample_reconciler sample_input bound_vm sample_times [] libraries-Documented

same_ports-pairs_example :
    (same_ports bound_vm.spec.network.ports sample_machine.ports ≡ true)
    ↔ Perm (map port_spec bound_vm.spec.network.ports) sample_machine.ports
same_ports-pairs_example =
    same_ports-pairs bound_vm.spec.network.ports sample_machine.ports
      ((omega arith, omega arith), tt) ((omega arith, omega arith), tt)

sample-MadeFrom : MadeFrom (build_create_request bound_vm "k8s-default-alpine-0") sample_machine
unfolding build_create_request
sample-MadeFrom = record {
  cpus = refl;
  memory = refl;
  ports = Perm.refl _;
  storage = inr refl;
  overlay = inr refl;
}

made_settled_example :
    (validate_immutable_runtime_fields bound_vm sample_machine ≡ none)
    × (validate_storage_does_not_shrink bound_vm sample_machine ≡ none)
    × (needs_storage_expansion bound_vm sample_machine ≡ false)
made_settled_example = made_settled bound_vm "k8s-default-alpine-0" sample_machine sample-MadeFrom

storage_trichotomy_example : SizeAgrees 20 (some 20) × SizeAgrees 10 (some 10)
storage_trichotomy_example =
    storage_trichotomy bound_vm sample_machine (omega arith) (omega arith)
      (λ n e. ground (arith, e)) (λ n e. ground (arith, e)) made_settled_example.1
      made_settled_example.2
