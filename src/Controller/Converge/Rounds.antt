-- ===== src/Controller/Converge/Rounds.antt =====
-- Repeated reconciliation of an object in a lawful environment.
use mathlib.Core.Path.{subst}
use smolvm_operator.Prelude.{
  String, ◌≡◌, refl, sym, ap, ◌∙◌, true, false, none, some, arith, ◌-◌, ◌≤◌, str_eq,
}
use smolvm_operator.Api.{SmolVm, SmolVmSpec, SmolVmNode, SmolVmStatus}
use smolvm_operator.Smolvm.{MachineInfo}
use smolvm_operator.Program.{Runtime, normal, Program}
use smolvm_operator.Program.Runs.{Leads, done, Leads-bind, Leads-mono}
use smolvm_operator.Controller.Machine.{
  build_create_request, build_resize_request, validate_immutable_runtime_fields,
  validate_storage_does_not_shrink, needs_storage_expansion,
}
use smolvm_operator.Controller.Validation.{validate_spec}
use smolvm_operator.Controller.Reconciler.{Reconciler, Outcome}
use smolvm_operator.Controller.Reconcile.{
  machine_name_of, report_reconciled, create, resize, start, stop, then_requeue,
}
use smolvm_operator.Controller.Progress.{Workable}
use smolvm_operator.Controller.Converge.{State, Lawful, SameMachine, Resized, Becomes}
use smolvm_operator.Controller.Serving.{IsRuntime}
use smolvm_operator.Controller.Converge.Machines.{
  runs, work_on, work, Tractable, Manageable, made-Tractable, same-Tractable, grown-Tractable,
}
use smolvm_operator.Controller.Converge.Statuses.{
  Kept, Kept-refl, on_runtime, emit-then, update_status-Kept, update_status_then_requeue-Kept,
}

-- The object is placed on the node, Reconcile is to work on it, the machine is the one of its name, and can be
-- brought to what it wants.
pub record Good (r : Reconciler) (node_name : String) (wanted : SmolVmSpec) (s : State)
    : Type 0 where
  pub spec : s.vm.spec ≡ wanted
  pub bound : s.vm.status.node_name ≡ node_name
  pub workable : Workable r s.vm
  pub named : machine_name_of r s.vm ≡ s.name
  pub manageable : Manageable s.vm s.machine

-- What depends on the spec and the node only does not change with the rest of the status.
module _ (r : Reconciler) (vm : SmolVm) (status : SmolVmStatus)
    (same : status.node_name ≡ vm.status.node_name) where
  pub restated-Workable : Workable r vm → Workable r (record vm { status = status })
  unfolding validate_spec
  restated-Workable w = record {
    wanted = w.wanted;
    guarded = w.guarded;
    valid =
        (λ i. validate_spec r.deps (record vm { status = record vm.status { node_name = same i } }))
        ∙ w.valid;
    placed = ap (λ name. str_eq name "") same ∙ w.placed;
  }

  restated-Tractable :
      (m : MachineInfo)
      → Tractable vm m
      → Tractable (record vm { status = status }) m
        × (work_on (record vm { status = status }) m ≡ work_on vm m)
  unfolding validate_immutable_runtime_fields validate_storage_does_not_shrink
      needs_storage_expansion
  restated-Tractable m t = (
    record {
      matching = record { same_fields = t.matching.same_fields; no_shrink = t.matching.no_shrink };
      growable = t.growable;
    },
    refl,
  )

module _ (r : Reconciler) (node_name : String) (node : SmolVmNode) (wanted : SmolVmSpec) where
  -- After a round, there is less to do.
  abbrev pub Advanced : State → State → Type 0
  Advanced s t = Good r node_name wanted t × (work t.vm t.machine ≤ work s.vm s.machine - 1)

  abbrev Round : State → Program Outcome → Type 0
  Round s p = Leads (Lawful r node_name node) (λ t o. Advanced s t) s p

  -- The machine has been worked on, and the status may have been written.
  Kept-Advanced :
      (s u t : State) (m : MachineInfo)
      → Good r node_name wanted s
      → u ≡ record s { machine = some m }
      → Tractable s.vm m
      → work_on s.vm m ≤ work s.vm s.machine - 1
      → Kept r u t
      → Advanced s t
  Kept-Advanced s u t m good worked tractable less kept =
      let (status, stored, same, called) = kept.stored in
      let node_kept : status.node_name ≡ s.vm.status.node_name =
        same ∙ ap (λ v. v.vm.status.node_name) worked in
      let path : t
          ≡ record { vm = record s.vm { status = status }; name = s.name; machine = some m } =
        λ i. record {
          vm = (stored ∙ ap (λ v. record v.vm { status = status }) worked) i;
          name = (kept.name ∙ ap (λ v. v.name) worked) i;
          machine = (kept.machine ∙ ap (λ v. v.machine) worked) i;
        } in
      let (still, work_same) = restated-Tractable r s.vm status node_kept m tractable in
      subst (Advanced s) (sym path) (
        record {
          spec = good.spec;
          bound = node_kept ∙ good.bound;
          workable = restated-Workable r s.vm status node_kept good.workable;
          named =
              ap (λ v. machine_name_of r (record v.vm { status = status })) (sym worked)
              ∙ called
              ∙ ap (λ v. machine_name_of r v.vm) worked
              ∙ good.named;
          manageable = still;
        },
        omega (arith, work_same, less),
      )

  module _ (s : State) (name : String) (api : Runtime) (good : Good r node_name wanted s)
      (called : name ≡ machine_name_of r s.vm) (its : IsRuntime r node api) where
    its_machine : name ≡ s.name
    its_machine = called ∙ good.named

    -- An operation whose error would be reported has none.
    requeued :
        (t : State) (m : MachineInfo)
        → t ≡ record s { machine = some m }
        → Tractable s.vm m
        → work_on s.vm m ≤ work s.vm s.machine - 1
        → Leads (Lawful r node_name node) (λ u o. Advanced s u) t (then_requeue r s.vm name none)
    unfolding then_requeue
    requeued t m worked tractable less =
        done (Kept-Advanced s t t m good worked tractable less (Kept-refl r t))

    pub create-Round : s.machine ≡ none → Round s (create r s.vm name api)
    unfolding create build_create_request
    create-Round absent = emit-then r node_name node normal _ _ _ (
        on_runtime r node_name node (its, its_machine)
          (λ x t same (m, e, made, from).
            let worked : t ≡ record s { machine = some m } =
              same ∙ ap (λ k. record s { machine = k }) made in
            let (tractable, less) = made-Tractable s.vm name m from in
            rw e (
              Leads-mono
                (update_status_then_requeue-Kept r node_name node t s.vm _
                  (sym (ap (λ v. v.vm.status.node_name) worked))
                  (called ∙ sym (ap (λ v. machine_name_of r v.vm) worked)))
                (λ u o kept.
                  Kept-Advanced s t u m good worked tractable
                    (ground (arith, less, ap (work s.vm) absent)) kept))))

    module _ (m : MachineInfo) (there : s.machine ≡ some m) (tractable : Tractable s.vm m) where
      before : work s.vm s.machine ≡ work_on s.vm m
      before = ap (work s.vm) there

      pub resize-Round : needs_storage_expansion s.vm m ≡ true → Round s (resize r s.vm name api)
      unfolding resize
      resize-Round grow = emit-then r node_name node normal _ _ _ (
          on_runtime r node_name node (its, its_machine)
            (λ x t same (e, became).
              let (m', after, resized) =
                subst (λ k. Becomes (Resized (build_resize_request s.vm)) k t.machine) there
                  became in
              let (still, less) =
                grown-Tractable s.vm m m' resized tractable (tractable.growable grow) in
              let worked : t ≡ record s { machine = some m' } =
                same ∙ ap (λ k. record s { machine = k }) after in
              rw e (requeued t m' worked still (ground (arith, before, less, grow)))))

      pub start-Round :
          needs_storage_expansion s.vm m ≡ false
          → s.vm.spec.running ≡ true
          → runs m ≡ false
          → Round s (start r s.vm name api)
      unfolding start
      start-Round enough wants off = emit-then r node_name node normal _ _ _ (
          on_runtime r node_name node (its, its_machine)
            (λ x t same (e, became).
              let (m', after, (alike, up)) =
                subst (λ k. Becomes (λ a b. SameMachine a b × (runs b ≡ true)) k t.machine) there
                  became in
              let (still, none_left) =
                same-Tractable s.vm m m' alike tractable enough (up ∙ sym wants) in
              let worked : t ≡ record s { machine = some m' } =
                same ∙ ap (λ k. record s { machine = k }) after in
              rw e (requeued t m' worked still (omega (arith, none_left)))))

      pub stop-Round :
          needs_storage_expansion s.vm m ≡ false
          → s.vm.spec.running ≡ false
          → Round s (stop r s.vm name api)
      unfolding stop
      stop-Round enough wants = emit-then r node_name node normal _ _ _ (
          on_runtime r node_name node (its, its_machine)
            (λ x t same (e, became).
              let (m', after, (alike, down)) =
                subst (λ k. Becomes (λ a b. SameMachine a b × (runs b ≡ false)) k t.machine) there
                  became in
              let (still, none_left) =
                same-Tractable s.vm m m' alike tractable enough (down ∙ sym wants) in
              let worked : t ≡ record s { machine = some m' } =
                same ∙ ap (λ k. record s { machine = k }) after in
              rw e (requeued t m' worked still (omega (arith, none_left)))))

      pub report-Round : work_on s.vm m ≡ 0 → Round s (report_reconciled r s.vm name m)
      unfolding report_reconciled
      report-Round none_left =
          Leads-bind (update_status-Kept r node_name node s s.vm _ refl called) (λ t o (kept, fine).
            rw fine (
              done (
                Kept-Advanced s s t m good (λ i. record s { machine = there i }) tractable
                  (omega (arith, none_left)) kept)))
