-- ===== src/Controller/Progress/Tests.antt =====
-- Progress at concrete objects, and answers that keep the assumption.
use smolvm_operator.Prelude.{◌≡◌, refl, none, []}
use smolvm_operator.Api.{smolvm_finalizer}
use smolvm_operator.Smolvm.{MachineInfo, Result, api_error, message_error, ok, err}
use smolvm_operator.Program
use smolvm_operator.Program.{Call, Reply, create_machine, delete_machine, update_vm}
use smolvm_operator.Program.Progress.{Reaches}
use smolvm_operator.Controller.Reconcile.{machine_name_of, reconcile_vm}
use smolvm_operator.Controller.Serving.{Serves}
use smolvm_operator.Controller.Progress.{Asks, reconcile_vm-Deletes}
use smolvm_operator.Samples.{sample_node, deleting_vm}
use smolvm_operator.Samples.Libraries.{sample_reconciler}
use smolvm_operator.Samples.Serving.{sample_node-eligible, well, who, caps}

abbrev absent : Result MachineInfo
absent = err (api_error 404 "not found")

-- Each call has an answer that keeps the assumption.
serving : (c : Call) → (a : Reply c) × Serves sample_reconciler "node-a" sample_node absent c a
serving (Program.get_vm key) = (err (message_error ""), tt)
serving Program.list_vms = (ok [], tt)
serving Program.list_nodes = (ok [], tt)
serving Program.now = (150, sample_node-eligible)
serving (Program.get_node name) = (ok sample_node, refl)
serving (Program.get_kubernetes_node name) = (err (message_error ""), tt)
serving (Program.update_vm vm) = (none, tt)
serving (Program.update_vm_status vm) = (none, tt)
serving (Program.create_missing_node node) = (none, tt)
serving (Program.update_node node) = (ok node, tt)
serving (Program.update_node_status node) = (none, tt)
serving (Program.event kind reason message) = (tt, tt)
serving (Program.runtime api Program.health) = (ok well, (well, refl, refl))
serving (Program.runtime api Program.identity) = (ok who, (who, refl, refl))
serving (Program.runtime api Program.capabilities) = (ok caps, (caps, refl, refl))
serving (Program.runtime api (Program.get_machine name)) = (absent, refl)
serving (Program.runtime api (Program.create_machine wanted)) = (err (message_error ""), tt)
serving (Program.runtime api (Program.ensure_machine_running name)) = (none, tt)
serving (Program.runtime api (Program.stop_machine name)) = (none, tt)
serving (Program.runtime api (Program.delete_machine name)) = (none, refl)
serving (Program.runtime api (Program.resize_machine name wanted)) = (none, tt)

reconcile_vm-Deletes_example :
    Reaches
      (Serves sample_reconciler "node-a" sample_node absent)
      (Asks (delete_machine "k8s-default-alpine-0"))
      (reconcile_vm sample_reconciler deleting_vm)
    × Reaches
        (Serves sample_reconciler "node-a" sample_node absent)
        (λ c.
          c
          ≡ update_vm (record deleting_vm {
            meta = record deleting_vm.meta {
              finalizers =
                  sample_reconciler.deps.remove_finalizer deleting_vm.meta.finalizers
                    smolvm_finalizer;
            };
          }))
        (reconcile_vm sample_reconciler deleting_vm)
unfolding machine_name_of
reconcile_vm-Deletes_example =
    reconcile_vm-Deletes sample_reconciler deleting_vm sample_node absent refl refl refl
