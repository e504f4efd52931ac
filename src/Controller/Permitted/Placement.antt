-- ===== src/Controller/Permitted/Placement.antt =====
-- schedule keeps its contract: the node that it returns passed every test, in this reconciliation.
use smolvm_operator.Prelude.{
  String, ◌≡◌, ◌≢◌, inl, inr, refl, true, false, not, List, [], ◌∷◌, ◌++◌, Bool-cases, arith,
  str_eq, eq_iff, concat, concat-ne-nil, Any,
}
use smolvm_operator.Api.{SmolVm, SmolVmNode, KubernetesNode}
use smolvm_operator.Smolvm.{Result, ok, err, error_text}
use smolvm_operator.Program.{
  Call, now, list_vms, list_nodes, get_node, get_kubernetes_node, History,
}
use smolvm_operator.Program.Past.{
  Got, latest, earlier, Extends, Extends-refl, Extends-cons, Extends-trans, past,
}
use smolvm_operator.Program.Rules.{Holds, returns, calls, Holds-if, Holds-bind}
use smolvm_operator.Controller.Fit.{
  keep_bound, kubernetes_node_ready, resource_fit_reason, host_port_conflict_reason,
  smolvm_node_eligible, matches_node_selector,
}
use smolvm_operator.Controller.Reconciler.{Reconciler}
use smolvm_operator.Controller.Schedule.{
  placement_reason, node_reject_reason, first_fit, judge_pinned, schedule_pinned, place, schedule,
}
use smolvm_operator.Controller.Permitted.{IsRead, Fits, Placed}

module _ (node : SmolVmNode) (vm : SmolVm) (bound : List SmolVm) (kube : KubernetesNode) where
  placement_reason_lem :
      placement_reason node vm bound kube ≡ ""
      → (kube.unschedulable ≡ false)
        × (kubernetes_node_ready kube ≡ true)
        × (resource_fit_reason node vm bound ≡ "")
        × (host_port_conflict_reason node.meta.name vm bound ≡ "")
  unfolding placement_reason
  placement_reason_lem h = ground (
    arith,
    eq_iff "Kubernetes Node is unschedulable" "",
    eq_iff "Kubernetes Node is not Ready" "",
    eq_iff (resource_fit_reason node vm bound) "",
  )

-- What nodeRejectReason has found out: an empty reason means that the node fits.
abbrev Judged : SmolVm → SmolVmNode → History → History → String → Type 0
Judged vm node h g reason = Extends h g × (reason ≡ "" → Fits vm node g)

abbrev pub Assigned : SmolVm → History → History → Result (String × String) → Type 0
Assigned vm h g (ok (node_name, message)) = Extends h g × (node_name ≢ "" → Placed vm node_name g)
Assigned vm h g (err e) = Extends h g

module _ (r : Reconciler) (vm : SmolVm) {P : History → Call → Type 0}
    (reads : (h : History) (c : Call) → IsRead c → P h c) where
  node_reject_reason-Judged :
      {h : History} (node : SmolVmNode) (items : List SmolVm)
      → Got list_vms (ok items) h
      → Holds P (Judged vm node h) h (node_reject_reason node vm (keep_bound vm items))
  unfolding node_reject_reason
  node_reject_reason-Judged node items listed = calls (reads _ now tt) λ time.
      Holds-if (not (smolvm_node_eligible time node))
        (λ unfit. returns (
          search past,
          λ e. absurd (
              ground
                (arith, eq_iff "runtime not ready, heartbeat stale, or endpoint missing" "", e)),
        ))
        (λ fit.
          Holds-if (not (matches_node_selector node vm.spec.node_selector))
            (λ other. returns (
              search past,
              λ e. absurd (ground (arith, eq_iff "nodeSelector does not match" "", e)),
            ))
            (λ selected. calls (reads _ (get_kubernetes_node node.meta.name) tt) (elim [
              | err e ↦ returns (
                search past,
                λ empty.
                    absurd (
                      concat-ne-nil "Kubernetes Node unavailable: " (error_text e ∷ []) refl empty),
              )
              | ok kube ↦ returns (
                search past,
                λ empty.
                    let (schedulable, ready, resources, ports) =
                      placement_reason_lem node vm (keep_bound vm items) kube empty in
                    record {
                      time = time;
                      read_at = search past;
                      eligible = ground arith;
                      selected = ground arith;
                      kube = kube;
                      kube_found = latest;
                      schedulable = schedulable;
                      ready = ready;
                      items = items;
                      listed = earlier (earlier listed);
                      resources = resources;
                      ports = ports;
                    },
              )
            ])))

  -- `first` is the history before the scheduler's first call.
  module _ (first : History) where
    first_fit-Assigned :
        {h : History} (items : List SmolVm) (reasons : List String) (nodes all : List SmolVmNode)
        → Extends first h
        → vm.spec.node_name ≡ ""
        → Got list_vms (ok items) h
        → Got list_nodes (ok all) h
        → ((node : SmolVmNode) → Any (λ n. n ≡ node) nodes → Any (λ n. n ≡ node) all)
        → Holds P (Assigned vm first) h (first_fit vm (keep_bound vm items) reasons nodes)
    unfolding first_fit
    first_fit-Assigned items [] [] all since free listed got among =
        returns (since, λ ne. absurd (ne refl))
    first_fit-Assigned items (reason ∷ reasons) [] all since free listed got among =
        returns (since, λ ne. absurd (ne refl))
    first_fit-Assigned items reasons (node ∷ nodes) all since free listed got among =
        Holds-bind (node_reject_reason-Judged node items listed) λ g reason (grown, fits).
          Holds-if (not (str_eq reason ""))
            (λ rejected.
              first_fit-Assigned items
                (reasons ++ concat (node.meta.name ∷ ": " ∷ reason ∷ []) ∷ []) nodes all
                (Extends-trans since grown) free (grown.keeps _ _ listed) (grown.keeps _ _ got)
                (λ other later. among other (inr later)))
            (λ accepted. returns (
              Extends-trans since grown,
              λ ne. record {
                node = node;
                named = refl;
                fits = fits (ground (arith, eq_iff reason ""));
                known = inl (free, all, grown.keeps _ _ got, among node (inl refl));
              },
            ))

    judge_pinned-Assigned :
        {h : History} (items : List SmolVm) (node : SmolVmNode)
        → Extends first h
        → Got list_vms (ok items) h
        → Got (get_node vm.spec.node_name) (ok node) h
        → Holds P (Assigned vm first) h (judge_pinned vm (keep_bound vm items) node)
    unfolding judge_pinned
    judge_pinned-Assigned items node since listed got =
        Holds-bind (node_reject_reason-Judged node items listed) λ g reason (grown, fits).
          Holds-if (not (str_eq reason ""))
            (λ rejected. returns (Extends-trans since grown, λ ne. absurd (ne refl)))
            (λ accepted. returns (
              Extends-trans since grown,
              λ ne. record {
                node = node;
                named = refl;
                fits = fits (ground (arith, eq_iff reason ""));
                known = inr (grown.keeps _ _ got);
              },
            ))

    schedule_pinned-Assigned :
        {h : History} (items : List SmolVm)
        → Extends first h
        → Got list_vms (ok items) h
        → Holds P (Assigned vm first) h (schedule_pinned r vm (keep_bound vm items))
    unfolding schedule_pinned
    schedule_pinned-Assigned items since listed =
        calls (reads _ (get_node vm.spec.node_name) tt) (elim [
          | err e ↦ elim (Bool-cases (r.deps.kube_not_found e)) [
            | inl missing ↦ rw missing (returns (Extends-cons _ since, λ ne. absurd (ne refl)))
            | inr other ↦ rw other (returns (Extends-cons _ since))
          ]
          | ok node ↦
              judge_pinned-Assigned items node (Extends-cons _ since) (earlier listed) latest
        ])

    place-Assigned :
        {h : History} (items : List SmolVm)
        → Extends first h
        → Got list_vms (ok items) h
        → Holds P (Assigned vm first) h (place r vm (keep_bound vm items))
    unfolding place
    place-Assigned items since listed =
        Holds-if (not (str_eq vm.spec.node_name ""))
          (λ pinned. schedule_pinned-Assigned items since listed)
          (λ free. calls (reads _ list_nodes tt) (elim [
            | err e ↦ returns (Extends-cons _ since)
            | ok nodes ↦
                first_fit-Assigned items [] nodes nodes (Extends-cons _ since)
                  (ground (arith, eq_iff vm.spec.node_name "")) (earlier listed) latest
                  (λ node there. there)
          ]))

  pub schedule-Assigned : (h : History) → Holds P (Assigned vm h) h (schedule r vm)
  unfolding schedule
  schedule-Assigned h = calls (reads _ list_vms tt) (elim [
    | err e ↦ returns (Extends-cons _ (Extends-refl h))
    | ok items ↦ place-Assigned h items (Extends-cons _ (Extends-refl h)) latest
  ])
