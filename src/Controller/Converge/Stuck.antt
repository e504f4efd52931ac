-- ===== src/Controller/Converge/Stuck.antt =====
-- A running machine whose disks have to grow: Reconcile waits for it to stop, also where the object asks
-- for it to stop.
use mathlib.Core.Path.{subst}
use smolvm_operator.Prelude.{ℕ, zero, suc, String, ◌≡◌, refl, sym, ◌∙◌, true, some}
use smolvm_operator.Api.{SmolVmNode}
use smolvm_operator.Smolvm.{MachineInfo, ok}
use smolvm_operator.Program.{Key}
use smolvm_operator.Program.Runs.{Leads, done, Leads-bind, Leads-mono}
use smolvm_operator.Controller.Machine.{
  validate_immutable_runtime_fields, validate_storage_does_not_shrink, needs_storage_expansion,
}
use smolvm_operator.Controller.Reconciler.{Reconciler}
use smolvm_operator.Controller.Reconcile.{
  machine_name_of, reconcile, reconcile_machine, reconcile_storage,
}
use smolvm_operator.Controller.Progress.{Workable, Matching}
use smolvm_operator.Controller.Converge.{State, Lawful, Observed}
use smolvm_operator.Controller.Converge.Machines.{runs}
use smolvm_operator.Controller.Converge.Statuses.{Kept, update_status-Kept}
use smolvm_operator.Controller.Converge.Asking.{reconcile-Leads}
use smolvm_operator.Controller.Converge.Rounds.{restated-Workable}
use smolvm_operator.Controller.Converge.Settles.{reconcile_times}

-- The object is placed and to be worked on, and its machine runs with a disk that is smaller than wanted.
pub record Stuck (r : Reconciler) (node_name : String) (m : MachineInfo) (s : State) : Type 0 where
  pub bound : s.vm.status.node_name ≡ node_name
  pub workable : Workable r s.vm
  pub named : machine_name_of r s.vm ≡ s.name
  pub there : s.machine ≡ some m
  pub matching : Matching s.vm m
  pub grow : needs_storage_expansion s.vm m ≡ true
  pub up : runs m ≡ true

module _ (r : Reconciler) (node_name : String) (node : SmolVmNode) (m : MachineInfo) where
  Kept-Stuck : (s t : State) → Stuck r node_name m s → Kept r s t → Stuck r node_name m t
  unfolding validate_immutable_runtime_fields validate_storage_does_not_shrink
      needs_storage_expansion
  Kept-Stuck s t stuck kept =
      let (status, stored, same, called) = kept.stored in
      let path : t
          ≡ record { vm = record s.vm { status = status }; name = s.name; machine = s.machine } =
        λ i. record { vm = stored i; name = kept.name i; machine = kept.machine i } in
      subst (Stuck r node_name m) (sym path) (record {
        bound = same ∙ stuck.bound;
        workable = restated-Workable r s.vm status same stuck.workable;
        named = called ∙ stuck.named;
        there = stuck.there;
        matching = record {
          same_fields = stuck.matching.same_fields;
          no_shrink = stuck.matching.no_shrink;
        };
        grow = stuck.grow;
        up = stuck.up;
      })

  blocked-Round :
      (s : State) (key : Key)
      → Stuck r node_name m s
      → Leads (Lawful r node_name node) (λ t o. Stuck r node_name m t) s (reconcile r key)
  unfolding reconcile_machine reconcile_storage
  blocked-Round s key stuck =
      reconcile-Leads r node_name node _ s key stuck.workable stuck.named stuck.bound
        (λ api x its seen.
          let found : x ≡ ok m = subst (λ k. Observed k x) stuck.there seen in
          rw (found, stuck.matching.same_fields, stuck.matching.no_shrink, stuck.grow, stuck.up)
            (Leads-mono (update_status-Kept r node_name node s s.vm _ refl refl)
              (λ t o (kept, fine). Kept-Stuck s t stuck kept)))

  -- In an environment that keeps its promises, an object whose machine runs with a disk smaller than wanted
  -- stays so however often it is reconciled, whether it asks for the machine to run or to stop: the
  -- machine is neither stopped nor expanded.
  pub reconcile_times-Stuck :
      (n : ℕ) (s : State) (key : Key)
      → Stuck r node_name m s
      → Leads
          (Lawful r node_name node)
          (λ t done. Stuck r node_name m t)
          s
          (reconcile_times r n key)
  reconcile_times-Stuck zero s key stuck = done stuck
  reconcile_times-Stuck (suc n) s key stuck =
      Leads-bind (blocked-Round s key stuck) (λ t o still. reconcile_times-Stuck n t key still)
