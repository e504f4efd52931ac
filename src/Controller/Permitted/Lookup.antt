-- ===== src/Controller/Permitted/Lookup.antt =====
-- runtimeForNode keeps its contract: a runtime that it returns has been checked, and where it returns
-- an error the runtime cannot be used.
use smolvm_operator.Prelude.{
  ℕ, String, ◌≡◌, true, false, not, ◌||◌, ◌==◌, ◌∷◌, inl, inr, Bool-cases, arith, str_eq,
}
use smolvm_operator.Api.{SmolVmNode}
use smolvm_operator.Smolvm.{Health, Identity, Capabilities, Result, ok, err}
use smolvm_operator.Program.{
  Runtime, Call, now, get_node, runtime, health, identity, capabilities, History,
}
use smolvm_operator.Program.Past.{latest, Extends, Extends-refl, past}
use smolvm_operator.Program.Rules.{Holds, returns, calls, Holds-if}
use smolvm_operator.Controller.Fit.{smolvm_node_eligible}
use smolvm_operator.Controller.Reconciler.{
  Reconciler, node_client, identity_mismatch, protocol_mismatch, runtime_for_node, check_node,
  check_health, check_identity, check_capabilities,
}
use smolvm_operator.Controller.Permitted.{IsRead}
use smolvm_operator.Controller.Permitted.Trust.{
  Trusted, injected, checked, Unusable, no_node, ineligible, no_health, unhealthy, no_identity,
  stranger, no_capabilities, other_protocol,
}

-- An eligible node has an endpoint, so the error for a missing endpoint is never returned.
pub eligible-has_endpoint :
    (time : ℕ) (node : SmolVmNode)
    → smolvm_node_eligible time node ≡ true
    → (str_eq node.status.endpoint.pod_ip "" || node.status.endpoint.port == 0) ≡ false
unfolding smolvm_node_eligible
eligible-has_endpoint time node h = ground arith

abbrev pub Looked : Reconciler → String → History → History → Result Runtime → Type 0
Looked r node_name h g (ok api) = Extends h g × Trusted r node_name g api
Looked r node_name h g (err e) = Extends h g × Unusable r node_name g

module _ (r : Reconciler) (node_name : String) {P : History → Call → Type 0}
    (reads : (h : History) (c : Call) → IsRead c → P h c) where
  module _ (h : History) (node : SmolVmNode) (time : ℕ)
      (eligible : smolvm_node_eligible time node ≡ true) where
    abbrev since_node : History
    since_node = (now, time) ∷ (get_node node_name, ok node) ∷ h

    check_capabilities-Looked :
        (report : Health) (who : Identity) (caps : Capabilities)
        → report.ok ≡ true
        → identity_mismatch r node_name node who ≡ false
        → Holds P
            (Looked r node_name h)
            ((runtime (node_client r node) capabilities, ok caps)
              ∷ (runtime (node_client r node) identity, ok who)
              ∷ (runtime (node_client r node) health, ok report)
              ∷ since_node)
            (check_capabilities r node_name node (node_client r node) caps)
    unfolding check_capabilities
    check_capabilities-Looked report who caps healthy same =
        Holds-if (protocol_mismatch r node caps)
          (λ other. returns (search past, other_protocol node caps (search past) latest other))
          (λ speaks. returns (
            search past,
            checked node (record {
              found = search past;
              time = time;
              read_at = search past;
              eligible = eligible;
              report = report;
              reported = search past;
              healthy = healthy;
              who = who;
              identified = search past;
              matches = same;
              caps = caps;
              described = search past;
              speaks = speaks;
            }),
          ))

    check_identity-Looked :
        (report : Health) (who : Identity)
        → report.ok ≡ true
        → Holds P
            (Looked r node_name h)
            ((runtime (node_client r node) identity, ok who)
              ∷ (runtime (node_client r node) health, ok report)
              ∷ since_node)
            (check_identity r node_name node (node_client r node) who)
    unfolding check_identity
    check_identity-Looked report who healthy =
        Holds-if (identity_mismatch r node_name node who)
          (λ other. returns (search past, stranger node who (search past) latest other))
          (λ same. calls (reads _ _ tt) (elim [
            | err e ↦ returns (search past, no_capabilities node e (search past) latest)
            | ok caps ↦ check_capabilities-Looked report who caps healthy same
          ]))

    check_health-Looked :
        (report : Health)
        → Holds P
            (Looked r node_name h)
            ((runtime (node_client r node) health, ok report) ∷ since_node)
            (check_health r node_name node (node_client r node) report)
    unfolding check_health
    check_health-Looked report =
        Holds-if (not report.ok)
          (λ sick. returns (search past, unhealthy node report (search past) latest (ground arith)))
          (λ well. calls (reads _ _ tt) (elim [
            | err e ↦ returns (search past, no_identity node e (search past) latest)
            | ok who ↦ check_identity-Looked report who (ground arith)
          ]))

  check_node-Looked :
      (h : History) (node : SmolVmNode) (time : ℕ)
      → Holds P
          (Looked r node_name h)
          ((now, time) ∷ (get_node node_name, ok node) ∷ h)
          (check_node r node_name time node)
  unfolding check_node
  check_node-Looked h node time = elim (Bool-cases (smolvm_node_eligible time node)) [
    | inl fit ↦
        rw (fit, eligible-has_endpoint time node fit)
          (calls (reads _ _ tt) (elim [
            | err e ↦ returns (search past, no_health node e (search past) latest)
            | ok report ↦ check_health-Looked h node time fit report
          ]))
    | inr unfit ↦ rw unfit (returns (search past, ineligible node time (search past) latest unfit))
  ]

  pub runtime_for_node-Looked :
      (h : History) → Holds P (Looked r node_name h) h (runtime_for_node r node_name)
  unfolding runtime_for_node
  runtime_for_node-Looked h =
      Holds-if r.has_factory (λ fac. returns (Extends-refl h, injected fac))
        (λ no_fac. calls (reads h (get_node node_name) tt) (elim [
          | err e ↦ returns (search past, no_node e latest)
          | ok node ↦ calls (reads _ now tt) (λ time. check_node-Looked h node time)
        ]))
