-- ===== src/Controller/Reconciler.antt =====
-- SmolVMReconciler of internal/controller/smolvm_controller.go, what its methods return, `event`, and
-- runtimeForNode, which finds and checks the runtime of a node.
use smolvm_operator.Prelude.{
  ℕ, ◌*◌, ◌^◌, String, Bool, not, ◌&&◌, ◌||◌, Option, none, [], ◌∷◌, ◌==◌, str_eq, concat,
  show_int32, if◌then◌else◌,
}
use smolvm_operator.Api.{SmolVm, SmolVmNode}
use smolvm_operator.Smolvm.{
  Health, Identity, Capabilities, Error, message_error, error_text, Result, ok, err,
}
use smolvm_operator.Deps.{Deps}
use smolvm_operator.Program.{
  Key, Runtime, factory, api_client, EventType, now, get_node, runtime, event, health, identity,
  capabilities, Program, ret, perform, ◌>>=◌,
}
use smolvm_operator.Program.Control.{caught}
use smolvm_operator.Controller.Fit.{smolvm_node_eligible}

-- The fields that the methods read, the libraries, and the environment variables
-- SMOLVM_RUNTIME_TOKEN and SMOLVM_RUNTIME_INSECURE_SKIP_VERIFY. `has_factory` and `has_recorder` say
-- whether RuntimeFactory and Recorder are not nil.
pub record Reconciler : Type 0 where
  pub deps : Deps
  pub has_factory : Bool
  pub has_recorder : Bool
  pub runtime_token : String
  pub insecure_skip_verify : String

-- (ctrl.Result, error); the wait is in nanoseconds, 0 for none.
pub record Outcome : Type 0 where
  pub requeue_after : ℕ
  pub error : Option Error

abbrev pub finished : Option Error → Outcome
finished e = record { requeue_after = 0; error = e }

-- ctrl.Result{RequeueAfter: requeueAfter}, nil
abbrev pub requeue : Outcome
requeue = record { requeue_after = 10 * 10 ^ 9; error = none }

abbrev pub key_of : SmolVm → Key
key_of vm = record { name = vm.meta.name; namespace = vm.meta.namespace }

module _ (r : Reconciler) where
  unfoldable pub emit : EventType → (reason message : String) → Program (Unit {0})
  emit kind reason message = if r.has_recorder then perform (event kind reason message) else ret tt

  -- `%w` renders as the text of the wrapped error.
  abbrev pub wrapped : String → String → Error → Error
  wrapped what node_name e = message_error (concat (what ∷ node_name ∷ ": " ∷ error_text e ∷ []))

  abbrev pub identity_mismatch : String → SmolVmNode → Identity → Bool
  identity_mismatch node_name node who =
      not (str_eq who.node_name node_name)
      || (not (str_eq node.status.node_uid "")
          && not (str_eq who.node_uid "")
          && not (str_eq who.node_uid node.status.node_uid))

  abbrev pub protocol_mismatch : SmolVmNode → Capabilities → Bool
  protocol_mismatch node caps =
      not (str_eq caps.protocol_version "")
      && not (str_eq caps.protocol_version node.status.protocol_version)

  unfoldable pub check_capabilities :
      String → SmolVmNode → Runtime → Capabilities → Program (Result Runtime)
  check_capabilities node_name node api caps =
      if protocol_mismatch node caps
      then ret (
          err (
            message_error (
              concat (
                "runtime protocol mismatch for node " ∷ node_name ∷ ": endpoint="
                ∷ caps.protocol_version ∷ " status=" ∷ node.status.protocol_version ∷ []))))
      else ret (ok api)

  unfoldable pub check_identity :
      String → SmolVmNode → Runtime → Identity → Program (Result Runtime)
  check_identity node_name node api who =
      if identity_mismatch node_name node who
      then ret (
          err (
            message_error (
              concat (
                "runtime endpoint identity mismatch for node " ∷ node_name ∷ ": got node="
                ∷ who.node_name ∷ " uid=" ∷ who.node_uid ∷ []))))
      else perform (runtime api capabilities)
        >>= caught (λ e. ret (err (wrapped "get runtime capabilities for node " node_name e)))
            (check_capabilities node_name node api)

  unfoldable pub check_health : String → SmolVmNode → Runtime → Health → Program (Result Runtime)
  check_health node_name node api report =
      if not report.ok
      then ret (
          err (
            message_error
              (concat ("runtime for node " ∷ node_name ∷ " is unhealthy: " ∷ report.message ∷ []))))
      else perform (runtime api identity)
        >>= caught (λ e. ret (err (wrapped "get runtime identity for node " node_name e)))
            (check_identity node_name node api)

  -- NewClientWithAuth with the endpoint's address.
  abbrev pub node_client : SmolVmNode → Runtime
  node_client node =
      api_client
        (concat (
          "https://"
          ∷ node.status.endpoint.pod_ip
          ∷ ":"
          ∷ show_int32 node.status.endpoint.port
          ∷ []))
        r.runtime_token (str_eq r.insecure_skip_verify "true")

  unfoldable pub check_node : String → ℕ → SmolVmNode → Program (Result Runtime)
  check_node node_name time node =
      if not (smolvm_node_eligible time node)
      then ret (
          err (
            message_error
              (concat ("SmolVMNode " ∷ node_name ∷ " is not ready or heartbeat is stale" ∷ []))))
      else if str_eq node.status.endpoint.pod_ip "" || node.status.endpoint.port == 0
      then ret (
          err
            (message_error (concat ("SmolVMNode " ∷ node_name ∷ " has no runtime endpoint" ∷ []))))
      else perform (runtime (node_client node) health)
        >>= caught (λ e. ret (err (wrapped "get runtime health for node " node_name e)))
            (check_health node_name node (node_client node))

  unfoldable pub runtime_for_node : String → Program (Result Runtime)
  unfolding check_node check_health check_identity check_capabilities
  runtime_for_node node_name =
      if r.has_factory
      then ret (ok factory)
      else perform (get_node node_name)
        >>= caught (λ e. ret (err (wrapped "get SmolVMNode " node_name e)))
            (λ node. perform now >>= λ time. check_node node_name time node)
