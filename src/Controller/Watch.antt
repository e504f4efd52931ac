-- ===== src/Controller/Watch.antt =====
-- requestsForNodeChange of internal/controller/smolvm_controller.go: the machines to reconcile when a
-- node changes.
pub mod Laws
use smolvm_operator.Prelude.{String, Bool, ◌&&◌, ◌||◌, List, [], ◌∷◌, str_eq, if◌then◌else◌}
use smolvm_operator.Api.{SmolVm}
use smolvm_operator.Program.{Key, list_vms, Program, ret, perform, ◌>>=◌}
use smolvm_operator.Program.Control.{caught}
use smolvm_operator.Controller.Reconciler.{key_of}

-- The test of the loop.
unfoldable pub is_concerned : String → SmolVm → Bool
is_concerned node_name vm =
    str_eq vm.status.node_name node_name
    || (str_eq vm.status.node_name ""
        && (str_eq vm.spec.node_name "" || str_eq vm.spec.node_name node_name))

unfoldable pub concerned_keys : String → List SmolVm → List Key
unfolding is_concerned
concerned_keys node_name [] = []
concerned_keys node_name (vm ∷ vms) =
    let rest = concerned_keys node_name vms in
    if is_concerned node_name vm then key_of vm ∷ rest else rest

unfoldable pub requests_for_node_change : String → Program (List Key)
unfolding concerned_keys
requests_for_node_change node_name =
    perform list_vms >>= caught (λ e. ret []) (λ vms. ret (concerned_keys node_name vms))
