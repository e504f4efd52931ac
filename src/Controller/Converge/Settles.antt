-- ===== src/Controller/Converge/Settles.antt =====
-- Reconcile as a whole, again and again, in a lawful environment.
use mathlib.Core.Path.{subst}
use smolvm_operator.Prelude.{
  ℕ, zero, suc, String, ◌≡◌, refl, sym, ap, ◌∙◌, false, Option, none, some, inl, inr, Bool-cases,
  arith, ◌-◌, ◌≤◌, str_eq,
}
use smolvm_operator.Api.{SmolVm, SmolVmSpec, SmolVmNode}
use smolvm_operator.Smolvm.{MachineInfo, Result}
use smolvm_operator.Program.{Key, Runtime, Program, ret, ◌>>=◌}
use smolvm_operator.Program.Control.{caught}
use smolvm_operator.Program.Runs.{Leads, done, Leads-bind, Leads-mono}
use smolvm_operator.Controller.Machine.{needs_storage_expansion}
use smolvm_operator.Controller.Reconciler.{Reconciler, Outcome}
use smolvm_operator.Controller.Reconcile.{
  machine_name_of, reconcile, reconcile_machine, reconcile_storage, reconcile_power,
  missing_machine,
}
use smolvm_operator.Controller.Serving.{IsRuntime}
use smolvm_operator.Controller.Converge.{State, Lawful, Observed}
use smolvm_operator.Controller.Converge.Machines.{runs, work_on, work, Tractable, Manageable}
use smolvm_operator.Controller.Converge.Asking.{reconcile-Leads}
use smolvm_operator.Controller.Converge.Rounds.{
  Good, Advanced, create-Round, resize-Round, start-Round, stop-Round, report-Round,
}

module _ (r : Reconciler) (node_name : String) (node : SmolVmNode) where
  module _ (wanted : SmolVmSpec) (s : State) (name : String) (good : Good r node_name wanted s)
      (called : name ≡ machine_name_of r s.vm) where
    abbrev Round : Program Outcome → Type 0
    Round p = Leads (Lawful r node_name node) (λ t o. Advanced r node_name node wanted s t) s p

    module _ (api : Runtime) (its : IsRuntime r node api) (m : MachineInfo)
        (there : s.machine ≡ some m) (tractable : Tractable s.vm m) where
      power-Round :
          needs_storage_expansion s.vm m ≡ false → Round (reconcile_power r s.vm name api m)
      unfolding reconcile_power
      power-Round enough = elim (Bool-cases s.vm.spec.running) [
        | inl wants ↦ elim (Bool-cases (runs m)) [
          | inl up ↦
              simp (wants, up)
                (report-Round r node_name node wanted s name api good called its m there tractable
                  (ground (arith, enough, wants, up)))
          | inr off ↦
              simp (wants, off)
                (start-Round r node_name node wanted s name api good called its m there tractable
                  enough wants off)
        ]
        | inr wants ↦ elim (Bool-cases (runs m)) [
          | inl up ↦
              simp (wants, up)
                (stop-Round r node_name node wanted s name api good called its m there tractable
                  enough wants)
          | inr off ↦
              simp (wants, off)
                (report-Round r node_name node wanted s name api good called its m there tractable
                  (ground (arith, enough, wants, off)))
        ]
      ]

      machine-Round : Round (reconcile_machine r s.vm name api m)
      unfolding reconcile_machine reconcile_storage
      machine-Round = elim (Bool-cases (needs_storage_expansion s.vm m)) [
        | inl grow ↦
            rw
              (
                tractable.matching.same_fields,
                tractable.matching.no_shrink,
                grow,
                tractable.growable grow,
              )
              (resize-Round r node_name node wanted s name api good called its m there tractable
                grow)
        | inr enough ↦
            rw (tractable.matching.same_fields, tractable.matching.no_shrink, enough)
              (power-Round enough)
      ]

    -- The runtime has been asked for the machine.
    answer-Round :
        (api : Runtime) (machine : Option MachineInfo) (x : Result MachineInfo)
        → IsRuntime r node api
        → s.machine ≡ machine
        → Observed machine x
        → Round (caught (missing_machine r s.vm name api) (reconcile_machine r s.vm name api) x)
    unfolding missing_machine
    answer-Round api none x its absent (e, same, missing) =
        rw (same, missing) (create-Round r node_name node wanted s name api good called its absent)
    answer-Round api (some m) x its there same =
        rw same (machine-Round api its m there (subst (Manageable s.vm) there good.manageable))

  vm-Round :
      (wanted : SmolVmSpec) (s : State) (key : Key)
      → Good r node_name wanted s
      → Leads
          (Lawful r node_name node)
          (λ t o. Advanced r node_name node wanted s t)
          s
          (reconcile r key)
  vm-Round wanted s key good =
      reconcile-Leads r node_name node _ s key good.workable good.named good.bound (λ api x its.
        answer-Round wanted s (machine_name_of r s.vm) good refl api s.machine x its refl)

-- Reconcile, a number of times.
abbrev pub reconcile_times : Reconciler → ℕ → Key → Program (Unit {0})
reconcile_times r zero key = ret tt
reconcile_times r (suc n) key = reconcile r key >>= λ outcome. reconcile_times r n key

-- The machine is there as the object wants it: on or off, and no disk left to grow.
pub record Settled (wanted : SmolVmSpec) (t : State) : Type 0 where
  pub machine : MachineInfo
  pub there : t.machine ≡ some machine
  pub spec : t.vm.spec ≡ wanted
  pub grown : needs_storage_expansion t.vm machine ≡ false
  pub power : str_eq machine.state "running" ≡ wanted.running

module _ (r : Reconciler) (node_name : String) (node : SmolVmNode) (wanted : SmolVmSpec) where
  rounds_left :
      (n : ℕ) (s : State) (key : Key)
      → Good r node_name wanted s
      → Leads
          (Lawful r node_name node)
          (λ t done. Good r node_name wanted t × (work t.vm t.machine ≤ work s.vm s.machine - n))
          s
          (reconcile_times r n key)
  rounds_left zero s key good = done (good, omega arith)
  rounds_left (suc n) s key good =
      Leads-bind (vm-Round r node_name node wanted s key good) (λ t outcome (still, less).
        Leads-mono (rounds_left n t key still)
          (λ u finished (end, fewer). (end, omega (arith, less, fewer))))

  work-bound : (vm : SmolVm) (machine : Option MachineInfo) → work vm machine ≤ 3
  work-bound vm none = omega arith
  work-bound vm (some m) = ground arith

  Good-Settled :
      (t : State) → Good r node_name wanted t → work t.vm t.machine ≡ 0 → Settled wanted t
  Good-Settled t good none_left = by_machine t.machine refl
    where
      by_machine : (machine : Option MachineInfo) → t.machine ≡ machine → Settled wanted t
      by_machine none absent = absurd (omega (arith, none_left, ap (work t.vm) absent))
      by_machine (some m) there =
          let left : work_on t.vm m ≡ 0 = sym (ap (work t.vm) there) ∙ none_left in
          record {
            machine = m;
            there = there;
            spec = good.spec;
            grown = ground (arith, left);
            power = ground (arith, left, ap (λ spec. spec.running) good.spec);
          }

  -- In an environment that keeps its promises, three reconciliations, or more, bring the machine of an
  -- object to what its spec wants, whether there is no machine yet or one that differs from the spec only
  -- in what can be changed: it exists, its disks have no growing left, and it runs or not as wanted. The
  -- object is placed, guarded, valid and not being deleted; a machine whose disks have to grow must not
  -- be running at the start.
  pub reconcile_times-Settled :
      (n : ℕ) (s : State) (key : Key)
      → 3 ≤ n
      → Good r node_name wanted s
      → Leads (Lawful r node_name node) (λ t done. Settled wanted t) s (reconcile_times r n key)
  reconcile_times-Settled n s key enough good =
      Leads-mono (rounds_left n s key good) (λ t finished (end, fewer).
        Good-Settled t end (omega (arith, enough, fewer, work-bound s.vm s.machine)))
