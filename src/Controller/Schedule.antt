-- ===== src/Controller/Schedule.antt =====
-- schedule, nodeRejectReason and boundVMs of internal/controller/smolvm_controller.go. An empty node
-- name with a message says that no node fits.
use smolvm_operator.Prelude.{String, not, List, [], ◌∷◌, ◌++◌, str_eq, concat, join, if◌then◌else◌}
use smolvm_operator.Api.{SmolVm, SmolVmNode, KubernetesNode}
use smolvm_operator.Smolvm.{error_text, Result, ok, err}
use smolvm_operator.Program.{
  list_vms, list_nodes, get_node, get_kubernetes_node, now, Program, ret, perform, ◌>>=◌,
}
use smolvm_operator.Program.Control.{caught}
use smolvm_operator.Controller.Fit.{
  keep_bound, kubernetes_node_ready, resource_fit_reason, host_port_conflict_reason,
  smolvm_node_eligible, matches_node_selector,
}
use smolvm_operator.Controller.Reconciler.{Reconciler}

unfoldable pub bound_vms : SmolVm → Program (Result (List SmolVm))
bound_vms pending =
    perform list_vms >>= caught (λ e. ret (err e)) (λ items. ret (ok (keep_bound pending items)))

-- The tests after the read of the Kubernetes Node.
unfoldable pub placement_reason : SmolVmNode → SmolVm → List SmolVm → KubernetesNode → String
placement_reason node vm bound k =
    if k.unschedulable
    then "Kubernetes Node is unschedulable"
    else if not (kubernetes_node_ready k)
    then "Kubernetes Node is not Ready"
    else let fit = resource_fit_reason node vm bound in
      if not (str_eq fit "") then fit else host_port_conflict_reason node.meta.name vm bound

unfoldable pub node_reject_reason : SmolVmNode → SmolVm → List SmolVm → Program String
node_reject_reason node vm bound = perform now >>= λ time.
    if not (smolvm_node_eligible time node)
    then ret "runtime not ready, heartbeat stale, or endpoint missing"
    else if not (matches_node_selector node vm.spec.node_selector)
    then ret "nodeSelector does not match"
    else perform (get_kubernetes_node node.meta.name)
      >>= caught (λ e. ret (concat ("Kubernetes Node unavailable: " ∷ error_text e ∷ [])))
          (λ k. ret (placement_reason node vm bound k))

-- The loop over the nodes, with the reasons collected so far.
unfoldable pub first_fit :
    SmolVm → List SmolVm → List String → List SmolVmNode → Program (Result (String × String))
first_fit vm bound [] [] = ret (ok ("", "no SmolVMNode objects exist"))
first_fit vm bound (r ∷ reasons) [] =
    ret (ok ("", concat ("no ready SmolVMNode matches this VM: " ∷ join "; " (r ∷ reasons) ∷ [])))
first_fit vm bound reasons (node ∷ nodes) = node_reject_reason node vm bound >>= λ reason.
    let rest =
      first_fit vm bound (reasons ++ concat (node.meta.name ∷ ": " ∷ reason ∷ []) ∷ []) nodes in
    if not (str_eq reason "") then rest else ret (ok (node.meta.name, ""))

-- The pinned node has been read.
unfoldable pub judge_pinned : SmolVm → List SmolVm → SmolVmNode → Program (Result (String × String))
judge_pinned vm bound node = node_reject_reason node vm bound >>= λ reason.
    if not (str_eq reason "")
    then ret
        (ok ("", concat ("pinned node " ∷ vm.spec.node_name ∷ " is not eligible: " ∷ reason ∷ [])))
    else ret (ok (node.meta.name, ""))

module _ (r : Reconciler) where
  unfoldable pub schedule_pinned : SmolVm → List SmolVm → Program (Result (String × String))
  schedule_pinned vm bound =
      perform (get_node vm.spec.node_name)
      >>= caught
          (λ e.
            if r.deps.kube_not_found e
            then ret (
                ok (
                  "",
                  concat (
                      "pinned node " ∷ vm.spec.node_name ∷ " has no SmolVMNode runtime status"
                      ∷ []),
                ))
            else ret (err e))
          (judge_pinned vm bound)

  -- The machines bound to nodes are known.
  unfoldable pub place : SmolVm → List SmolVm → Program (Result (String × String))
  unfolding schedule_pinned first_fit
  place vm bound =
      if not (str_eq vm.spec.node_name "")
      then schedule_pinned vm bound
      else perform list_nodes >>= caught (λ e. ret (err e)) (first_fit vm bound [])

  unfoldable pub schedule : SmolVm → Program (Result (String × String))
  unfolding bound_vms place
  schedule vm = bound_vms vm >>= caught (λ e. ret (err e)) (place vm)
