-- ===== src/Controller/Machine/Laws.antt =====
-- How the request that creates a machine, the checks on updates and the resize request fit together.
use mathlib.Core.List.{Perm}
use mathlib.Core.List.Perm
use smolvm_operator.Prelude.{
  String, ◌≡◌, ◌↔◌, ◌⊎◌, inl, inr, refl, sym, ap, ◌∙◌, true, false, Option, none, some, List, [],
  ◌∷◌, map, ◌^◌, ◌<◌, length, arith, Int64, int64_lt,
}
use smolvm_operator.Api.{Port, SmolVm}
use smolvm_operator.Smolvm.{PortSpec, MachineInfo, CreateMachineRequest}
use smolvm_operator.Controller.Machine.{
  positive_size, port_spec, build_create_request, show_port, show_port_spec, sort_texts, same_ports,
  ports_from_runtime, shrinks, grows, validate_immutable_runtime_fields,
  validate_storage_does_not_shrink, needs_storage_expansion,
}
use smolvm_operator.Controller.Machine.Sorting.{
  sort_texts_iff, same_texts_iff, length-perm, length-map,
}

-- samePorts accepts exactly when the ports of the spec and of the machine, each written host:guest, are
-- the same up to order.
pub same_ports_iff :
    (spec : List Port) (runtime : List PortSpec)
    → (same_ports spec runtime ≡ true) ↔ Perm (map show_port spec) (map show_port_spec runtime)
unfolding same_ports
same_ports_iff spec runtime =
    let texts =
      same_texts_iff (sort_texts (map show_port spec)) (sort_texts (map show_port_spec runtime)) in
    let sorted = sort_texts_iff (map show_port spec) (map show_port_spec runtime) in
    (
      (λ h. sorted.0 (texts.0 (ground arith))),
      (λ p.
          let lengths : length spec ≡ length runtime =
            sym (length-map show_port spec) ∙ length-perm p ∙ length-map show_port_spec runtime in
          ground (arith, lengths, texts.1 (sorted.1 p))),
    )

pub show_port_spec-port_spec :
    (ports : List Port) → map show_port_spec (map port_spec ports) ≡ map show_port ports
unfolding show_port show_port_spec
show_port_spec-port_spec [] = refl
show_port_spec-port_spec (p ∷ ports) =
    ap (λ rest. show_port p ∷ rest) (show_port_spec-port_spec ports)

ports_from_runtime-port_spec :
    (ports : List Port) → ports_from_runtime (map port_spec ports) ≡ ports
unfolding ports_from_runtime
ports_from_runtime-port_spec [] = refl
ports_from_runtime-port_spec (p ∷ ports) =
    ap (λ rest. p ∷ rest) (ports_from_runtime-port_spec ports)

-- The machine was made as the request asks: the sizes that the request leaves out are the runtime's.
pub record MadeFrom (wanted : CreateMachineRequest) (machine : MachineInfo) : Type 0 where
  pub cpus : machine.cpus ≡ wanted.cpus
  pub memory : machine.memory_mib ≡ wanted.memory_mib
  pub ports : Perm machine.ports wanted.ports
  pub storage : (wanted.storage_gb ≡ none) ⊎ (machine.storage_gb ≡ wanted.storage_gb)
  pub overlay : (wanted.overlay_gb ≡ none) ⊎ (machine.overlay_gb ≡ wanted.overlay_gb)

pub size_settled :
    (wanted : Int64) (actual : Option Int64)
    → (positive_size wanted ≡ none) ⊎ (actual ≡ positive_size wanted)
    → (shrinks wanted actual ≡ false) × (grows wanted actual ≡ false)
size_settled wanted none h = (refl, refl)
size_settled wanted (some n) h = ground arith

-- A machine that was made as the request asks, its ports in any order, passes every check of the next
-- reconciliations: no immutable field differs, no disk shrinks, and no disk has to grow.
pub made_settled :
    (vm : SmolVm) (name : String) (machine : MachineInfo)
    → MadeFrom (build_create_request vm name) machine
    → (validate_immutable_runtime_fields vm machine ≡ none)
      × (validate_storage_does_not_shrink vm machine ≡ none)
      × (needs_storage_expansion vm machine ≡ false)
unfolding validate_immutable_runtime_fields validate_storage_does_not_shrink needs_storage_expansion
    build_create_request
made_settled vm name machine made =
    let ports =
      (same_ports_iff vm.spec.network.ports machine.ports).1
        (Perm.symm (rw show_port_spec-port_spec at (Perm.map show_port_spec made.ports))) in
    let cpus = made.cpus in
    let memory = made.memory in
    let storage = size_settled vm.spec.storage.storage_gib machine.storage_gb made.storage in
    let overlay = size_settled vm.spec.storage.overlay_gib machine.overlay_gb made.overlay in
    (
      ground (arith, ports, cpus, memory),
      ground (arith, storage, overlay),
      ground (arith, storage, overlay),
    )

-- After validateStorageDoesNotShrink and needsStorageExpansion there is one case left for each disk:
-- its size is not asked for or not reported, or it is the size that is asked for.
abbrev pub SizeAgrees : Int64 → Option Int64 → Type 0
SizeAgrees wanted actual = (int64_lt 0 wanted ≡ false) ⊎ (actual ≡ none) ⊎ (actual ≡ some wanted)

size_agrees :
    (wanted : Int64) (actual : Option Int64)
    → wanted < 2 ^ 64
    → ((n : Int64) → actual ≡ some n → n < 2 ^ 64)
    → shrinks wanted actual ≡ false
    → grows wanted actual ≡ false
    → SizeAgrees wanted actual
size_agrees wanted none small bound s g = inr (inl refl)
size_agrees wanted (some n) small bound s g = ground (arith, bound n refl)

-- Where the checks on storage pass and no expansion is needed, each disk whose size is asked for and
-- reported has exactly the size asked for.
pub storage_trichotomy :
    (vm : SmolVm) (machine : MachineInfo)
    → vm.spec.storage.storage_gib < 2 ^ 64
    → vm.spec.storage.overlay_gib < 2 ^ 64
    → ((n : Int64) → machine.storage_gb ≡ some n → n < 2 ^ 64)
    → ((n : Int64) → machine.overlay_gb ≡ some n → n < 2 ^ 64)
    → validate_storage_does_not_shrink vm machine ≡ none
    → needs_storage_expansion vm machine ≡ false
    → SizeAgrees vm.spec.storage.storage_gib machine.storage_gb
      × SizeAgrees vm.spec.storage.overlay_gib machine.overlay_gb
unfolding validate_storage_does_not_shrink needs_storage_expansion
storage_trichotomy vm machine s o sb ob kept enough = (
  size_agrees vm.spec.storage.storage_gib machine.storage_gb s sb (ground arith) (ground arith),
  size_agrees vm.spec.storage.overlay_gib machine.overlay_gb o ob (ground arith) (ground arith),
)
