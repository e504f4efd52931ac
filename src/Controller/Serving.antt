-- ===== src/Controller/Serving.antt =====
-- A node whose agent serves: what runtimeForNode of internal/controller/smolvm_controller.go ends with.
use smolvm_operator.Prelude.{ℕ, String, ◌≡◌, refl, true, false, none, ◌⊎◌, Bool-cases, inl, inr}
use smolvm_operator.Api.{SmolVmNode}
use smolvm_operator.Smolvm.{MachineInfo, Identity, Health, Capabilities, Result, ok}
use smolvm_operator.Program.{
  Call, Reply, Runtime, factory, get_node, now, runtime, health, identity, capabilities,
  get_machine, delete_machine,
}
use smolvm_operator.Program.Progress.{Assumption, Ends, ends, after, Ends-weaken}
use smolvm_operator.Controller.Fit.{smolvm_node_eligible}
use smolvm_operator.Controller.Reconciler.{
  Reconciler, identity_mismatch, protocol_mismatch, node_client, runtime_for_node, check_node,
  check_health, check_identity, check_capabilities,
}
use smolvm_operator.Controller.Permitted.Lookup.{eligible-has_endpoint}

-- The node's object, its agent and its runtime answer: the node is eligible whenever the clock is read, the
-- runtime is healthy and is the node's, it says `observed` of the machine, and a deletion succeeds.
abbrev pub Serves : Reconciler → String → SmolVmNode → Result MachineInfo → Assumption
Serves r node_name node observed (get_node n) a = a ≡ ok node
Serves r node_name node observed now time = smolvm_node_eligible time node ≡ true
Serves r node_name node observed (runtime api health) a =
    (report : Health) × (a ≡ ok report) × (report.ok ≡ true)
Serves r node_name node observed (runtime api identity) a =
    (who : Identity) × (a ≡ ok who) × (identity_mismatch r node_name node who ≡ false)
Serves r node_name node observed (runtime api capabilities) a =
    (caps : Capabilities) × (a ≡ ok caps) × (protocol_mismatch r node caps ≡ false)
Serves r node_name node observed (runtime api (get_machine name)) a = a ≡ observed
Serves r node_name node observed (runtime api (delete_machine name)) a = a ≡ none
Serves r node_name node observed _ a = Unit

-- The client for the node's endpoint, or the runtime that the reconciler was given.
abbrev pub IsRuntime : Reconciler → SmolVmNode → Runtime → Type 0
IsRuntime r node api = (api ≡ factory) ⊎ (api ≡ node_client r node)

-- As much of it as runtimeForNode asks for.
abbrev pub Available : Reconciler → String → SmolVmNode → Assumption
Available r node_name node (get_node n) a = a ≡ ok node
Available r node_name node now time = smolvm_node_eligible time node ≡ true
Available r node_name node (runtime api health) a =
    IsRuntime r node api → (report : Health) × (a ≡ ok report) × (report.ok ≡ true)
Available r node_name node (runtime api identity) a =
    IsRuntime r node api
    → (who : Identity) × (a ≡ ok who) × (identity_mismatch r node_name node who ≡ false)
Available r node_name node (runtime api capabilities) a =
    IsRuntime r node api
    → (caps : Capabilities) × (a ≡ ok caps) × (protocol_mismatch r node caps ≡ false)
Available r node_name node _ a = Unit

module _ (r : Reconciler) (node_name : String) (node : SmolVmNode) where
  abbrev pub Found : Result Runtime → Type 0
  Found a = (api : Runtime) × (a ≡ ok api) × IsRuntime r node api

  check_capabilities-Ends :
      (caps : Capabilities)
      → protocol_mismatch r node caps ≡ false
      → Ends
          (Available r node_name node)
          Found
          (check_capabilities r node_name node (node_client r node) caps)
  unfolding check_capabilities
  check_capabilities-Ends caps speaks = rw (speaks) (ends (node_client r node, refl, inr refl))

  check_identity-Ends :
      (who : Identity)
      → identity_mismatch r node_name node who ≡ false
      → Ends
          (Available r node_name node)
          Found
          (check_identity r node_name node (node_client r node) who)
  unfolding check_identity
  check_identity-Ends who same = rw (same) (
      after (λ a answers.
        let (caps, e, speaks) = answers (inr refl) in rw (e) (check_capabilities-Ends caps speaks)))

  check_health-Ends :
      (report : Health)
      → report.ok ≡ true
      → Ends
          (Available r node_name node)
          Found
          (check_health r node_name node (node_client r node) report)
  unfolding check_health
  check_health-Ends report well = rw (well) (
      after (λ a answers.
        let (who, e, same) = answers (inr refl) in rw (e) (check_identity-Ends who same)))

  check_node-Ends :
      (time : ℕ)
      → smolvm_node_eligible time node ≡ true
      → Ends (Available r node_name node) Found (check_node r node_name time node)
  unfolding check_node
  check_node-Ends time fit =
      rw (fit, eligible-has_endpoint time node fit)
        (after (λ a answers.
          let (report, e, well) = answers (inr refl) in rw (e) (check_health-Ends report well)))

  pub runtime_for_node-Available :
      Ends (Available r node_name node) Found (runtime_for_node r node_name)
  unfolding runtime_for_node
  runtime_for_node-Available = elim (Bool-cases r.has_factory) [
    | inl given ↦ rw (given) (ends (factory, refl, inl refl))
    | inr no_fac ↦
        rw (no_fac) (after (λ a e. rw (e) (after (λ time fit. check_node-Ends time fit))))
  ]

module _ (r : Reconciler) (node_name : String) (node : SmolVmNode)
    (observed : Result MachineInfo) where
  Serves-Available :
      (c : Call) (a : Reply c)
      → Serves r node_name node observed c a
      → Available r node_name node c a
  Serves-Available (get_node n) a serves = serves
  Serves-Available now a serves = serves
  Serves-Available (runtime api health) a serves = λ its. serves
  Serves-Available (runtime api identity) a serves = λ its. serves
  Serves-Available (runtime api capabilities) a serves = λ its. serves
  Serves-Available _ a serves = tt

  pub runtime_for_node-Ends :
      Ends
        (Serves r node_name node observed)
        (Found r node_name node)
        (runtime_for_node r node_name)
  runtime_for_node-Ends = Ends-weaken Serves-Available (runtime_for_node-Available r node_name node)
