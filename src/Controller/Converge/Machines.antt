-- ===== src/Controller/Converge/Machines.antt =====
-- How far the machine is from what the object wants, and what the runtime's operations do to that.
use smolvm_operator.Prelude.{
  ℕ, String, ◌≡◌, refl, sym, ap, ◌∙◌, Bool, true, false, Option, none, some, inl, inr, str_eq,
  arith, if◌then◌else◌, Bool-cases, ◌<◌, int64_lt, Int64,
}
use smolvm_operator.Api.{SmolVm}
use smolvm_operator.Smolvm.{MachineInfo}
use smolvm_operator.Controller.Machine.{
  positive_size, build_create_request, build_resize_request, shrinks, grows,
  validate_immutable_runtime_fields, validate_storage_does_not_shrink, needs_storage_expansion,
}
use smolvm_operator.Controller.Machine.Laws.{MadeFrom, made_settled, size_settled}
use smolvm_operator.Controller.Progress.{Matching}
use smolvm_operator.Controller.Converge.{SameMachine, Resized, resized_to}

abbrev pub runs : MachineInfo → Bool
runs m = str_eq m.state "running"

-- The operations left: a creation and what it leaves, an expansion and a start, a start or a stop.
abbrev pub work_on : SmolVm → MachineInfo → ℕ
work_on vm m =
    if needs_storage_expansion vm m
    then 2
    else if vm.spec.running
    then (if runs m then 0 else 1)
    else (if runs m then 1 else 0)

abbrev pub work : SmolVm → Option MachineInfo → ℕ
work vm none = 3
work vm (some m) = work_on vm m

-- A machine that Reconcile can bring to what the object wants: a disk that has to grow is not in use.
pub record Tractable (vm : SmolVm) (m : MachineInfo) : Type 0 where
  pub matching : Matching vm m
  pub growable : needs_storage_expansion vm m ≡ true → runs m ≡ false

abbrev pub Manageable : SmolVm → Option MachineInfo → Type 0
Manageable vm none = Unit
Manageable vm (some m) = Tractable vm m

module _ (vm : SmolVm) where
  pub made-Tractable :
      (name : String) (m : MachineInfo)
      → MadeFrom (build_create_request vm name) m
      → Tractable vm m × (work_on vm m < 3)
  made-Tractable name m made =
      let (fields, shrink, expand) = made_settled vm name m made in
      (
        record {
          matching = record { same_fields = fields; no_shrink = shrink };
          growable = λ grow. absurd (ground (arith, grow, expand));
        },
        ground (arith, expand),
      )

  module _ (m m' : MachineInfo) (same : SameMachine m m') where
    same-fields : validate_immutable_runtime_fields vm m' ≡ validate_immutable_runtime_fields vm m
    unfolding validate_immutable_runtime_fields
    same-fields = λ i.
        validate_immutable_runtime_fields vm
          (record m { cpus = same.cpus i; memory_mib = same.memory i; ports = same.ports i })

    same-shrink : validate_storage_does_not_shrink vm m' ≡ validate_storage_does_not_shrink vm m
    unfolding validate_storage_does_not_shrink
    same-shrink = λ i.
        validate_storage_does_not_shrink vm
          (record m { storage_gb = same.storage i; overlay_gb = same.overlay i })

    same-expansion : needs_storage_expansion vm m' ≡ needs_storage_expansion vm m
    unfolding needs_storage_expansion
    same-expansion = λ i.
        needs_storage_expansion vm
          (record m { storage_gb = same.storage i; overlay_gb = same.overlay i })

    -- A start or a stop of a machine whose disks are as wanted.
    pub same-Tractable :
        Tractable vm m
        → needs_storage_expansion vm m ≡ false
        → runs m' ≡ vm.spec.running
        → Tractable vm m' × (work_on vm m' ≡ 0)
    same-Tractable w enough agrees = (
      record {
        matching = record {
          same_fields = same-fields ∙ w.matching.same_fields;
          no_shrink = same-shrink ∙ w.matching.no_shrink;
        };
        growable = λ grow. absurd (ground (arith, grow, enough, same-expansion));
      },
      ground (arith, enough, same-expansion, agrees),
    )

  resized-settled :
      (wanted : Int64) (old new : Option Int64)
      → shrinks wanted old ≡ false
      → new ≡ resized_to (positive_size wanted) old
      → (shrinks wanted new ≡ false) × (grows wanted new ≡ false)
  resized-settled wanted old new kept e = elim (Bool-cases (int64_lt 0 wanted)) [
    | inl positive ↦ size_settled wanted new (inr (rw positive at e ∙ sym (rw positive refl)))
    | inr none_wanted ↦ size_settled wanted new (inl (rw none_wanted refl))
  ]

  -- An expansion of a machine that does not run.
  pub grown-Tractable :
      (m m' : MachineInfo)
      → Resized (build_resize_request vm) m m'
      → Tractable vm m
      → runs m ≡ false
      → Tractable vm m' × (work_on vm m' < 2)
  unfolding validate_immutable_runtime_fields validate_storage_does_not_shrink
      needs_storage_expansion build_resize_request
  grown-Tractable m m' z w off =
      let kept = w.matching.no_shrink in
      let s =
        resized-settled vm.spec.storage.storage_gib m.storage_gb m'.storage_gb
          (ground (arith, kept)) z.storage in
      let o =
        resized-settled vm.spec.storage.overlay_gib m.overlay_gb m'.overlay_gb
          (ground (arith, kept)) z.overlay in
      let expand : needs_storage_expansion vm m' ≡ false = ground (arith, s, o) in
      let fields : validate_immutable_runtime_fields vm m'
          ≡ validate_immutable_runtime_fields vm m =
        λ i.
          validate_immutable_runtime_fields vm
            (record m { cpus = z.cpus i; memory_mib = z.memory i; ports = z.ports i }) in
      let state : runs m' ≡ runs m = ap (λ t. str_eq t "running") z.state in
      (
        record {
          matching = record {
            same_fields = fields ∙ w.matching.same_fields;
            no_shrink = ground (arith, s, o);
          };
          growable = λ grow. absurd (ground (arith, grow, expand));
        },
        ground (arith, expand),
      )
