-- ===== src/Controller/Converge/Answers.antt =====
-- An environment that keeps its promises: answers to every call, in every state.
use mathlib.Core.List.Perm
use smolvm_operator.Prelude.{
  ◌≡◌, refl, true, false, none, some, Option, [], inl, inr, text_discrete, ◌⊎◌, Bool-cases, eq_iff,
  str_eq, arith, String,
}
use smolvm_operator.Smolvm.{
  MachineInfo, CreateMachineRequest, ResizeRequest, api_error, message_error, ok, err,
}
use smolvm_operator.Program
use smolvm_operator.Program.{Call, Reply, Operation, OperationReply, Runtime}
use smolvm_operator.Controller.Permitted.{ReadsOnly}
use smolvm_operator.Controller.Serving.{IsRuntime}
use smolvm_operator.Controller.Reconciler.{node_client}
use smolvm_operator.Controller.Converge.{
  State, with_vm, SameMachine, Resized, resized_to, Becomes, About, Performs, Lawful,
}
use smolvm_operator.Samples.{sample_node}
use smolvm_operator.Samples.Libraries.{sample_reconciler}
use smolvm_operator.Samples.Serving.{sample_node-eligible, well, who, caps}

abbrev made : CreateMachineRequest → MachineInfo
made wanted = record {
  name = wanted.name;
  state = "created";
  cpus = wanted.cpus;
  memory_mib = wanted.memory_mib;
  pid = none;
  ports = wanted.ports;
  network = wanted.network;
  storage_gb = wanted.storage_gb;
  overlay_gb = wanted.overlay_gb;
}

abbrev resized : ResizeRequest → MachineInfo → MachineInfo
resized wanted m = record m {
  storage_gb = resized_to wanted.storage_gb m.storage_gb;
  overlay_gb = resized_to wanted.overlay_gb m.overlay_gb;
}

becomes :
    (R : MachineInfo → MachineInfo → Type 0) (f : MachineInfo → MachineInfo)
    → ((m : MachineInfo) → R m (f m))
    → (machine : Option MachineInfo) → (after : Option MachineInfo) × Becomes R machine after
becomes R f good none = (none, refl)
becomes R f good (some m) = (some (f m), (f m, refl, good m))

performed :
    (machine : Option MachineInfo) (op : Operation)
    → (x : OperationReply op) × (after : Option MachineInfo) × Performs sample_reconciler "node-a"
        sample_node machine op x after
performed machine Program.health = (ok well, machine, (refl, well, refl, refl))
performed machine Program.identity = (ok who, machine, (refl, who, refl, refl))
performed machine Program.capabilities = (ok caps, machine, (refl, caps, refl, refl))
performed none (Program.get_machine name) =
    (err (api_error 404 "not found"), none, (refl, (api_error 404 "not found", refl, refl)))
performed (some m) (Program.get_machine name) = (ok m, some m, (refl, refl))
performed machine (Program.create_machine wanted) = (
  ok (made wanted),
  some (made wanted),
  (
    made wanted,
    refl,
    refl,
    record {
      cpus = refl;
      memory = refl;
      ports = Perm.refl _;
      storage = inr refl;
      overlay = inr refl;
    },
  ),
)
performed machine (Program.ensure_machine_running name) =
    let (after, done) =
      becomes (λ m m'. SameMachine m m' × (str_eq m'.state "running" ≡ true))
        (λ m. record m { state = "running" })
        (λ m. (
          record { cpus = refl; memory = refl; ports = refl; storage = refl; overlay = refl },
          refl,
        ))
        machine in
    (none, after, (refl, done))
performed machine (Program.stop_machine name) =
    let (after, done) =
      becomes (λ m m'. SameMachine m m' × (str_eq m'.state "running" ≡ false))
        (λ m. record m { state = "stopped" })
        (λ m. (
          record { cpus = refl; memory = refl; ports = refl; storage = refl; overlay = refl },
          refl,
        ))
        machine in
    (none, after, (refl, done))
performed none (Program.delete_machine name) =
    (some (api_error 404 "not found"), none, (refl, inr (api_error 404 "not found", refl, refl)))
performed (some m) (Program.delete_machine name) = (none, none, (refl, refl))
performed machine (Program.resize_machine name wanted) =
    let (after, done) =
      becomes (Resized wanted) (resized wanted)
        (λ m. record {
          cpus = refl;
          memory = refl;
          ports = refl;
          state = refl;
          storage = refl;
          overlay = refl;
        })
        machine in
    (none, after, (refl, done))

runtime_discrete : Discrete Runtime
runtime_discrete = hlevel text_discrete

abbrev here_or_not : {A : Type 0} → Dec A → A ⊎ ¬ A
here_or_not (yes a) = inl a
here_or_not (no f) = inr f

same_text_or_not : (n name : String) → (n ≡ name) ⊎ ¬ (n ≡ name)
same_text_or_not n name = elim (Bool-cases (str_eq n name)) [
  | inl same ↦ inl ((eq_iff n name).0 same)
  | inr other ↦ inr (λ same. ground (arith, other, same, eq_iff n name))
]

of_name_or_not : (name : String) (op : Operation) → About name op ⊎ ¬ About name op
of_name_or_not name (Program.get_machine n) = same_text_or_not n name
of_name_or_not name (Program.create_machine wanted) = same_text_or_not wanted.name name
of_name_or_not name (Program.ensure_machine_running n) = same_text_or_not n name
of_name_or_not name (Program.stop_machine n) = same_text_or_not n name
of_name_or_not name (Program.delete_machine n) = same_text_or_not n name
of_name_or_not name (Program.resize_machine n wanted) = same_text_or_not n name
of_name_or_not name Program.health = inl tt
of_name_or_not name Program.identity = inl tt
of_name_or_not name Program.capabilities = inl tt

its_or_not :
    (api : Runtime)
    → IsRuntime sample_reconciler sample_node api ⊎ ¬ IsRuntime sample_reconciler sample_node api
its_or_not api = elim (here_or_not (runtime_discrete api Program.factory)) [
  | inl given ↦ inl (inl given)
  | inr not_given ↦
      elim (here_or_not (runtime_discrete api (node_client sample_reconciler sample_node))) [
        | inl made ↦ inl (inr made)
        | inr not_made ↦ inr (elim [ inl given ↦ not_given given | inr made ↦ not_made made ])
      ]
]

-- A read leaves the machine as it is.
idle :
    (machine : Option MachineInfo) (op : Operation) (x : OperationReply op)
    (after : Option MachineInfo)
    → Performs sample_reconciler "node-a" sample_node machine op x after
    → ReadsOnly op
    → after ≡ machine
idle machine Program.health x after (same, found, e, good) reads = same
idle machine Program.identity x after (same, found, e, good) reads = same
idle machine Program.capabilities x after (same, found, e, good) reads = same
idle machine (Program.get_machine name) x after (same, rest) reads = same
idle machine (Program.create_machine wanted) x after performs reads = absurd reads
idle machine (Program.ensure_machine_running name) x after performs reads = absurd reads
idle machine (Program.stop_machine name) x after performs reads = absurd reads
idle machine (Program.delete_machine name) x after performs reads = absurd reads
idle machine (Program.resize_machine name wanted) x after performs reads = absurd reads

-- The runtime does nothing to the machine where it is not asked, or is asked about another.
answered_or_idle :
    (s : State) (api : Runtime) (op : Operation)
    → (x : OperationReply op) × (t : State) × Lawful sample_reconciler "node-a" sample_node s
        (Program.runtime api op)
        x
        t
answered_or_idle s api op =
    let (x, after, done) = performed s.machine op in
    elim (its_or_not api) [
      | inr other ↦ (
        x,
        s,
        (refl, (λ reads. refl), (λ (its, about). absurd (other its)), (λ none_asked. refl)),
      )
      | inl its ↦ elim (of_name_or_not s.name op) [
        | inr other ↦ (
          x,
          s,
          (refl, (λ reads. refl), (λ (its, about). absurd (other about)), (λ none_asked. refl)),
        )
        | inl about ↦ (
          x,
          record s { machine = after },
          (
            refl,
            idle s.machine op x after done,
            (λ concerns. done),
            (λ none_asked. absurd (none_asked (its, about))),
          ),
        )
      ]
    ]

-- Every call has an answer that keeps the promises, in every state.
pub lawful :
    (s : State) (c : Call)
    → (x : Reply c) × (t : State) × Lawful sample_reconciler "node-a" sample_node s c x t
lawful s (Program.get_vm key) = (ok s.vm, s, (refl, refl))
lawful s Program.list_vms = (ok [], s, refl)
lawful s Program.list_nodes = (ok [], s, refl)
lawful s Program.now = (150, s, (refl, sample_node-eligible))
lawful s (Program.get_node name) = (ok sample_node, s, (refl, refl))
lawful s (Program.get_kubernetes_node name) = (err (message_error ""), s, refl)
lawful s (Program.update_vm vm) = (none, with_vm s vm, (refl, refl))
lawful s (Program.update_vm_status vm) = (none, with_vm s vm, (refl, refl))
lawful s (Program.create_missing_node node) = (none, s, refl)
lawful s (Program.update_node node) = (ok node, s, refl)
lawful s (Program.update_node_status node) = (none, s, refl)
lawful s (Program.event kind reason message) = (tt, s, refl)
lawful s (Program.runtime api op) = answered_or_idle s api op
