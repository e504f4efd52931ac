-- ===== src/Controller/Placing/Tests.antt =====
-- Placing a free object on the only node of a cluster.
use smolvm_operator.Prelude.{◌≡◌, inr, refl, [], ◌∷◌, none, true}
use smolvm_operator.Smolvm.{ok, err, message_error}
use smolvm_operator.Program
use smolvm_operator.Program.{Call, Reply}
use smolvm_operator.Controller.Fit.{smolvm_node_eligible}
use smolvm_operator.Controller.Placing.{Offers}
use smolvm_operator.Samples.{sample_node, sample_kubernetes_node}

sample_node-eligible : smolvm_node_eligible 160 sample_node ≡ true
unfolding smolvm_node_eligible
sample_node-eligible = refl

-- Each call has an answer that keeps the assumption.
offering :
    (c : Call) → (a : Reply c) × Offers [] (sample_node ∷ []) sample_node sample_kubernetes_node c a
offering (Program.get_vm key) = (err (message_error ""), tt)
offering Program.list_vms = (ok [], refl)
offering Program.list_nodes = (ok (sample_node ∷ []), refl)
offering Program.now = (160, sample_node-eligible)
offering (Program.get_node name) = (ok sample_node, refl)
offering (Program.get_kubernetes_node name) = (ok sample_kubernetes_node, inr refl)
offering (Program.update_vm vm) = (none, tt)
offering (Program.update_vm_status vm) = (none, tt)
offering (Program.create_missing_node node) = (none, tt)
offering (Program.update_node node) = (ok node, tt)
offering (Program.update_node_status node) = (none, tt)
offering (Program.event kind reason message) = (tt, tt)
offering (Program.runtime api Program.health) = (err (message_error ""), tt)
offering (Program.runtime api Program.identity) = (err (message_error ""), tt)
offering (Program.runtime api Program.capabilities) = (err (message_error ""), tt)
offering (Program.runtime api (Program.get_machine name)) = (err (message_error ""), tt)
offering (Program.runtime api (Program.create_machine wanted)) = (err (message_error ""), tt)
offering (Program.runtime api (Program.ensure_machine_running name)) = (none, tt)
offering (Program.runtime api (Program.stop_machine name)) = (none, tt)
offering (Program.runtime api (Program.delete_machine name)) = (none, tt)
offering (Program.runtime api (Program.resize_machine name wanted)) = (none, tt)
