-- ===== src/Manager/Laws.antt =====
-- The controller that cmd/main.go runs.
use smolvm_operator.Prelude.{
  show_int32, concat, str_eq, ◌∷◌, String, false, ◌≡◌, ◌⊎◌, inl, inr, refl, [], arith,
}
use smolvm_operator.Api.{SmolVm, SmolVmNode}
use smolvm_operator.Deps.{Deps}
use smolvm_operator.Program.{Key, Runtime, Call, runtime, api_client, History}
use smolvm_operator.Program.Rules.{Holds, Holds-mono}
use smolvm_operator.Controller.Reconciler.{Reconciler, node_client}
use smolvm_operator.Controller.Reconcile.{machine_name_of, reconcile}
use smolvm_operator.Controller.Guarantees.{PermittedFor, reconcile-Permitted}
use smolvm_operator.Controller.Permitted as Contract
use smolvm_operator.Controller.Permitted.{
  ReadsOnly, IsRead, Permitted, read, guard, release, publish, create, resize, delete,
}
use smolvm_operator.Controller.Permitted.Trust.{Checked, Trusted, injected, checked}
use smolvm_operator.Controller.Permitted.Writes.{AnyOutcome}
use smolvm_operator.Manager.{new_reconciler, setup_with_manager}

-- The call goes to a client that is made from a checked node's endpoint, with the controller's token.
abbrev pub ThroughChecked : Reconciler → History → Runtime → Type 0
ThroughChecked r h api =
    (node_name : String) × (node : SmolVmNode) × (api ≡ node_client r node)
    × Checked r node_name node h

-- An operation that changes a machine goes to a checked node.
abbrev pub ChangesChecked : Reconciler → History → Call → Type 0
ChangesChecked r h (runtime api op) = ReadsOnly op ⊎ ThroughChecked r h api
ChangesChecked r h _ = Unit

ChangesChecked-read : (r : Reconciler) (h : History) (c : Call) → IsRead c → ChangesChecked r h c
ChangesChecked-read r h (runtime api op) reads = inl reads
ChangesChecked-read r h _ reads = tt

Trusted-Checked :
    (r : Reconciler) (h : History) (node_name : String) (api : Runtime)
    → r.has_factory ≡ false
    → Trusted r node_name h api
    → ThroughChecked r h api
Trusted-Checked r h node_name _ none_given (injected given) =
    absurd (ground (arith, none_given, given))
Trusted-Checked r h node_name _ none_given (checked node is_checked) =
    (node_name, node, refl, is_checked)

module _ (r : Reconciler) (none_given : r.has_factory ≡ false) where
  Permitted-ChangesChecked :
      (vm : SmolVm) (name : String) (h : History) (c : Call)
      → Permitted r vm name h c
      → ChangesChecked r h c
  Permitted-ChangesChecked vm name h c (read reads) = ChangesChecked-read r h c reads
  Permitted-ChangesChecked vm name h c (guard wanted) = tt
  Permitted-ChangesChecked vm name h c (release deleting released) = tt
  Permitted-ChangesChecked vm name h c (publish given newest times got p) = tt
  Permitted-ChangesChecked vm name h c (create api e active got missing) =
      inr (Trusted-Checked r h _ api none_given active.trusted)
  Permitted-ChangesChecked vm name h c (Contract.start api machine found on off enough) =
      inr (Trusted-Checked r h _ api none_given found.active.trusted)
  Permitted-ChangesChecked vm name h c (Contract.stop api machine found off on enough) =
      inr (Trusted-Checked r h _ api none_given found.active.trusted)
  Permitted-ChangesChecked vm name h c (resize api machine found off more) =
      inr (Trusted-Checked r h _ api none_given found.active.trusted)
  Permitted-ChangesChecked vm name h c (delete api deleting placed trusted) =
      inr (Trusted-Checked r h _ api none_given trusted)

  PermittedFor-ChangesChecked :
      (key : Key) (h : History) (c : Call) → PermittedFor r key h c → ChangesChecked r h c
  PermittedFor-ChangesChecked key h c (inl reads) = ChangesChecked-read r h c reads
  PermittedFor-ChangesChecked key h c (inr (vm, got, allowed)) =
      Permitted-ChangesChecked vm (machine_name_of r vm) h c allowed

-- An operation that changes a machine goes to the address of a node that was checked, with the token of the
-- environment, and with the verification of certificates that the environment asks for.
abbrev pub ChangesReach : Deps → (String → String) → History → Call → Type 0
ChangesReach d env h (runtime api op) =
    ReadsOnly op
    ⊎ ((node_name : String) × (node : SmolVmNode) × (api
          ≡ api_client
              (concat (
                "https://"
                ∷ node.status.endpoint.pod_ip
                ∷ ":"
                ∷ show_int32 node.status.endpoint.port
                ∷ []))
              (env "SMOLVM_RUNTIME_TOKEN")
              (str_eq (env "SMOLVM_RUNTIME_INSECURE_SKIP_VERIFY") "true"))
        × Checked (setup_with_manager (new_reconciler d env)) node_name node h)
ChangesReach d env h _ = Unit

ChangesChecked-Reach :
    (d : Deps) (env : String → String) (h : History) (c : Call)
    → ChangesChecked (setup_with_manager (new_reconciler d env)) h c
    → ChangesReach d env h c
unfolding setup_with_manager new_reconciler
ChangesChecked-Reach d env h (runtime api op) reaches = reaches
ChangesChecked-Reach d env h _ reaches = tt

-- The controller that main sets up has no runtime of its own: whatever the environment answers, it
-- creates, starts, stops, resizes and deletes machines only at the https address of a node that it found
-- eligible, healthy, of the right identity and of the right protocol in the same reconciliation, with
-- the token in SMOLVM_RUNTIME_TOKEN, and without verifying certificates exactly if
-- SMOLVM_RUNTIME_INSECURE_SKIP_VERIFY is "true".
pub reconcile-ChangesReach :
    (d : Deps) (env : String → String) (key : Key)
    → Holds
        (ChangesReach d env)
        AnyOutcome
        []
        (reconcile (setup_with_manager (new_reconciler d env)) key)
unfolding setup_with_manager new_reconciler
reconcile-ChangesReach d env key =
    let r = setup_with_manager (new_reconciler d env) in
    Holds-mono (reconcile-Permitted r key)
      (λ h c allowed.
        ChangesChecked-Reach d env h c (PermittedFor-ChangesChecked r refl key h c allowed))
      (λ h o any. tt)
