-- ===== src/Controller/Converge/Offering.antt =====
-- An environment that also answers the scheduler: the node is listed first, and accepts the object.
use smolvm_operator.Prelude.{
  String, ◌≡◌, refl, true, false, List, [], ◌∷◌, inl, inr, ◌⊎◌, Bool-cases, str_eq,
}
use smolvm_operator.Api.{SmolVm, SmolVmNode, KubernetesNode}
use smolvm_operator.Smolvm.{ok}
use smolvm_operator.Program.{Call, Reply, list_vms, list_nodes, get_kubernetes_node}
use smolvm_operator.Program.Runs.{Environment, Leads, done, on_quiet, Leads-bind}
use smolvm_operator.Controller.Fit.{keep_bound, smolvm_node_eligible, matches_node_selector}
use smolvm_operator.Controller.Reconciler.{Reconciler}
use smolvm_operator.Controller.Schedule.{
  bound_vms, placement_reason, node_reject_reason, judge_pinned, first_fit, schedule_pinned, place,
  schedule,
}
use smolvm_operator.Controller.Converge.{State, Lawful}

module _ (r : Reconciler) (node_name : String) (node : SmolVmNode) (others : List SmolVmNode)
    (bound : List SmolVm) (kube : KubernetesNode) where
  -- The node is the first of those that are listed, the objects that are listed and that boundVMs keeps are
  -- `bound`, and the Kubernetes node is `kube`.
  abbrev pub Offered : State → (c : Call) → Reply c → Type 0
  Offered s list_vms x = (items : List SmolVm) × (x ≡ ok items) × (keep_bound s.vm items ≡ bound)
  Offered s list_nodes x = x ≡ ok (node ∷ others)
  Offered s (get_kubernetes_node name) x = x ≡ ok kube
  Offered s _ x = Unit

  abbrev pub Offering : Environment State
  Offering s c x t = Lawful r node_name node s c x t × Offered s c x

  module _ (s : State) (selected : matches_node_selector node s.vm.spec.node_selector ≡ true)
      (accepted : placement_reason node s.vm bound kube ≡ "") where
    reject-Leads :
        Leads Offering (λ t reason. (t ≡ s) × (reason ≡ "")) s (node_reject_reason node s.vm bound)
    unfolding node_reject_reason
    reject-Leads =
        on_quiet (λ time. smolvm_node_eligible time node ≡ true)
          (λ x t ((same, fit), u). (same, fit))
          (λ time fit.
            rw (fit, selected)
              (on_quiet (λ x. x ≡ ok kube) (λ x t (same, e). (same, e))
                (λ x e. rw e (done (refl, accepted)))))

    judge-Leads :
        Leads Offering
          (λ t a. (t ≡ s) × (a ≡ ok (node.meta.name, "")))
          s
          (judge_pinned s.vm bound node)
    unfolding judge_pinned
    judge-Leads = Leads-bind reject-Leads (λ t reason (same, empty). rw empty (done (same, refl)))

    first-Leads :
        Leads Offering
          (λ t a. (t ≡ s) × (a ≡ ok (node.meta.name, "")))
          s
          (first_fit s.vm bound [] (node ∷ others))
    unfolding first_fit
    first-Leads = Leads-bind reject-Leads (λ t reason (same, empty). rw empty (done (same, refl)))

    place-Leads :
        (str_eq s.vm.spec.node_name "" ≡ true) ⊎ (str_eq s.vm.spec.node_name "" ≡ false)
        → Leads Offering (λ t a. (t ≡ s) × (a ≡ ok (node.meta.name, ""))) s (place r s.vm bound)
    unfolding place schedule_pinned
    place-Leads (inl free) = rw free (
        on_quiet (λ y. y ≡ ok (node ∷ others)) (λ y t listed. listed)
          (λ y listed. rw listed first-Leads))
    place-Leads (inr pinned) = rw pinned (
        on_quiet (λ y. y ≡ ok node) (λ y t ((same, found), u). (same, found))
          (λ y found. rw found judge-Leads))

    pub schedule-Leads :
        Leads Offering (λ t a. (t ≡ s) × (a ≡ ok (node.meta.name, ""))) s (schedule r s.vm)
    unfolding schedule bound_vms
    schedule-Leads =
        on_quiet (λ x. (items : List SmolVm) × (x ≡ ok items) × (keep_bound s.vm items ≡ bound))
          (λ x t (same, listed). (same, listed))
          (λ x (items, e, kept).
            rw (e, kept) (place-Leads (Bool-cases (str_eq s.vm.spec.node_name ""))))
