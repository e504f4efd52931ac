-- ===== src/Controller/Converge/Statuses.antt =====
-- The steps of a lawful environment, and what the status updates of Reconcile leave as it is.
use mathlib.Core.Path.{subst}
use smolvm_operator.Prelude.{
  ℕ, String, ◌≡◌, ◌≢◌, refl, sym, ap, ◌∙◌, false, Option, none, inl, inr, Bool-cases, arith, str_eq,
  eq_iff, append-ne-nil,
}
use smolvm_operator.Controller.Machine.{stable_machine_name}
use smolvm_operator.Controller.Reconcile.{machine_name_of}
use smolvm_operator.Api.{SmolVm, SmolVmNode, SmolVmStatus}
use smolvm_operator.Smolvm.{Error, ok}
use smolvm_operator.Program.{
  Key, Reply, Runtime, Operation, OperationReply, EventType, get_vm, now, update_vm,
  update_vm_status, runtime, Program, call, ◌>>=◌,
}
use smolvm_operator.Program.Runs.{Leads, done, on, Leads-bind}
use smolvm_operator.Controller.Reconciler.{Reconciler, emit}
use smolvm_operator.Controller.Status.{
  StatusInput, Times, next_status, write_status, publish, update_status, update_status_then_requeue,
}
use smolvm_operator.Controller.Converge.{State, with_vm, Lawful, Performs, Concerns}

-- The machine and the object are as before, but for a status with the same node and the same name of the machine.
pub record Kept (r : Reconciler) (s t : State) : Type 0 where
  pub machine : t.machine ≡ s.machine
  pub name : t.name ≡ s.name
  pub stored :
      (status : SmolVmStatus) × (t.vm ≡ record s.vm { status = status })
      × (status.node_name ≡ s.vm.status.node_name)
      × (machine_name_of r (record s.vm { status = status }) ≡ machine_name_of r s.vm)

pub Kept-refl : (r : Reconciler) (s : State) → Kept r s s
Kept-refl r s = record { machine = refl; name = refl; stored = (s.vm.status, refl, refl, refl) }

stable_machine_name-full :
    (r : Reconciler) (vm : SmolVm) → str_eq (stable_machine_name r.deps vm) "" ≡ false
unfolding stable_machine_name
stable_machine_name-full r vm =
    let full : stable_machine_name r.deps vm ≢ "" = append-ne-nil "k8s-" _ refl in
    ground (arith, full, eq_iff (stable_machine_name r.deps vm) "")

pub machine_name_of-full : (r : Reconciler) (vm : SmolVm) → str_eq (machine_name_of r vm) "" ≡ false
unfolding machine_name_of
machine_name_of-full r vm = elim (Bool-cases (str_eq vm.status.machine_name "")) [
  | inl unnamed ↦ rw (machine_name_of, unnamed) (stable_machine_name-full r vm)
  | inr named ↦ rw (machine_name_of, named) named
]

-- A status with the machine's name keeps it.
pub machine_name_of-status :
    (r : Reconciler) (vm : SmolVm) (status : SmolVmStatus)
    → status.machine_name ≡ machine_name_of r vm
    → machine_name_of r (record vm { status = status }) ≡ machine_name_of r vm
unfolding machine_name_of stable_machine_name
machine_name_of-status r vm status same =
    let full : str_eq status.machine_name "" ≡ false =
      ap (λ name. str_eq name "") same ∙ machine_name_of-full r vm in
    rw full same

module _ (r : Reconciler) (node_name : String) (node : SmolVmNode) {A : Type 0}
    {Q : State → A → Type 0} where
  pub on_now :
      {s : State} {k : ℕ → Program A}
      → ((time : ℕ) → Leads (Lawful r node_name node) Q s (k time))
      → Leads (Lawful r node_name node) Q s (call now k)
  on_now {s} {k} f =
      on
        (λ x t (same, fit). subst (λ u. Leads (Lawful r node_name node) Q u (k x)) (sym same) (f x))

  pub on_get_vm :
      {s : State} {key : Key} {k : Reply (get_vm key) → Program A}
      → Leads (Lawful r node_name node) Q s (k (ok s.vm))
      → Leads (Lawful r node_name node) Q s (call (get_vm key) k)
  on_get_vm {s} {key} {k} f = on (λ x t (same, e).
      subst (λ u. Leads (Lawful r node_name node) Q u (k x)) (sym same)
        (subst (λ y. Leads (Lawful r node_name node) Q s (k y)) (sym e) f))

  pub on_update :
      {s : State} {vm : SmolVm} {k : Option Error → Program A}
      → Leads (Lawful r node_name node) Q (with_vm s vm) (k none)
      → Leads (Lawful r node_name node) Q s (call (update_vm_status vm) k)
  on_update {s} {vm} {k} f = on (λ x t (same, e).
      subst (λ u. Leads (Lawful r node_name node) Q u (k x)) (sym same)
        (subst (λ y. Leads (Lawful r node_name node) Q (with_vm s vm) (k y)) (sym e) f))

  pub on_update_vm :
      {s : State} {vm : SmolVm} {k : Option Error → Program A}
      → Leads (Lawful r node_name node) Q (with_vm s vm) (k none)
      → Leads (Lawful r node_name node) Q s (call (update_vm vm) k)
  on_update_vm {s} {vm} {k} f = on (λ x t (same, e).
      subst (λ u. Leads (Lawful r node_name node) Q u (k x)) (sym same)
        (subst (λ y. Leads (Lawful r node_name node) Q (with_vm s vm) (k y)) (sym e) f))

  -- The node's runtime performs an operation on the object's machine.
  pub on_runtime :
      {s : State} {api : Runtime} {op : Operation} {k : OperationReply op → Program A}
      → Concerns r node_name node s.name api op
      → ((x : OperationReply op) (t : State)
          → t ≡ record s { machine = t.machine }
          → Performs r node_name node s.machine op x t.machine
          → Leads (Lawful r node_name node) Q t (k x))
      → Leads (Lawful r node_name node) Q s (call (runtime api op) k)
  on_runtime concerns f = on (λ x t (same, reads, performs, other). f x t same (performs concerns))

  pub emit-then :
      {s : State} (kind : EventType) (reason message : String) (f : Unit {0} → Program A)
      → Leads (Lawful r node_name node) Q s (f tt)
      → Leads (Lawful r node_name node) Q s (emit r kind reason message >>= f)
  unfolding emit
  emit-then {s} kind reason message f rest = elim (Bool-cases r.has_recorder) [
    | inl given ↦
        rw given
          (on (λ x t same. subst (λ u. Leads (Lawful r node_name node) Q u (f x)) (sym same) rest))
    | inr silent ↦ rw silent rest
  ]

module _ (r : Reconciler) (node_name : String) (node : SmolVmNode) where
  write_status-Kept :
      (s : State) (given : StatusInput) (times : Times)
      → given.node_name ≡ s.vm.status.node_name
      → given.machine_name ≡ machine_name_of r s.vm
      → Leads
          (Lawful r node_name node)
          (λ t o. Kept r s t × (o.error ≡ none))
          s
          (write_status r given s.vm times)
  unfolding write_status next_status
  write_status-Kept s given times same named =
      elim (Bool-cases (r.deps.deep_equal s.vm.status (next_status given s.vm times))) [
        | inl equal ↦ rw equal (done (Kept-refl r s, refl))
        | inr other ↦ rw other (
            on_update r node_name node (
              done (
                record {
                  machine = refl;
                  name = refl;
                  stored = (
                    next_status given s.vm times,
                    refl,
                    same,
                    machine_name_of-status r s.vm (next_status given s.vm times) named,
                  );
                },
                refl,
              )))
      ]

  pub update_status-Kept :
      (s : State) (vm : SmolVm) (given : StatusInput)
      → given.node_name ≡ s.vm.status.node_name
      → given.machine_name ≡ machine_name_of r s.vm
      → Leads
          (Lawful r node_name node)
          (λ t o. Kept r s t × (o.error ≡ none))
          s
          (update_status r vm given)
  unfolding update_status publish
  update_status-Kept s vm given same named = on_get_vm r node_name node (
      on_now r node_name node λ t1. on_now r node_name node λ t2. on_now r node_name node λ t3.
        on_now r node_name node λ t4.
          on_now r node_name node
            λ t5. on_now r node_name node λ t6. write_status-Kept s given _ same named)

  pub update_status_then_requeue-Kept :
      (s : State) (vm : SmolVm) (given : StatusInput)
      → given.node_name ≡ s.vm.status.node_name
      → given.machine_name ≡ machine_name_of r s.vm
      → Leads
          (Lawful r node_name node)
          (λ t o. Kept r s t)
          s
          (update_status_then_requeue r vm given)
  unfolding update_status_then_requeue
  update_status_then_requeue-Kept s vm given same named =
      Leads-bind (update_status-Kept s vm given same named)
        (λ t o (kept, fine). rw fine (done kept))
