-- ===== src/Controller/Machine.antt =====
-- The pure functions of internal/controller/smolvm_controller.go between a SmolVM and its machine:
-- requests, the checks on updates, and what the status shows of the machine.
pub mod Sorting
pub mod Laws
pub mod Ports
use Prim.Native.String
use text.Mathlib.Text.{is_le}
use smolvm_operator.Prelude.{
  String, Bool, true, false, not, ◌&&◌, ◌||◌, Option, none, some, List, [], ◌∷◌, map, Int64,
  int32_lt, int64_lt, length, ◌==◌, str_eq, concat, show_int32, show_int64, if◌then◌else◌,
}
use smolvm_operator.Api.{Port, SmolVm, ConditionStatus, condition_true, condition_false}
use smolvm_operator.Smolvm.{
  PortSpec, MachineInfo, CreateMachineRequest, ResizeRequest, Error, message_error,
}
use smolvm_operator.Deps.{Deps}

-- A pointer to the size, if the size is positive.
abbrev pub positive_size : Int64 → Option Int64
positive_size n = if int64_lt 0 n then some n else none

abbrev pub port_spec : Port → PortSpec
port_spec p = record { host = p.host_port; guest = p.guest_port }

unfoldable pub build_create_request : SmolVm → String → CreateMachineRequest
build_create_request vm machine_name = record {
  name = machine_name;
  cpus = vm.spec.resources.cpus;
  memory_mib = vm.spec.resources.memory_mib;
  ports = map port_spec vm.spec.network.ports;
  network = vm.spec.network.enabled;
  storage_gb = positive_size vm.spec.storage.storage_gib;
  overlay_gb = positive_size vm.spec.storage.overlay_gib;
  allowed_cidrs = vm.spec.network.allowed_cidrs;
  image = vm.spec.image;
  from = vm.spec.from;
}

unfoldable pub build_resize_request : SmolVm → ResizeRequest
build_resize_request vm = record {
  storage_gb = positive_size vm.spec.storage.storage_gib;
  overlay_gb = positive_size vm.spec.storage.overlay_gib;
}

-- sort.Strings: the order of Go's texts is that of their bytes, hence of their code points.
abbrev text_le : String → String → Bool
text_le s t = is_le (String.compare s t)

insert_text : String → List String → List String
insert_text s [] = s ∷ []
insert_text s (t ∷ ts) = if text_le s t then s ∷ t ∷ ts else t ∷ insert_text s ts

pub sort_texts : List String → List String
unfolding insert_text
sort_texts [] = []
sort_texts (s ∷ ts) = insert_text s (sort_texts ts)

pub show_port : Port → String
unfolding show_int32
show_port p = concat (show_int32 p.host_port ∷ ":" ∷ show_int32 p.guest_port ∷ [])

pub show_port_spec : PortSpec → String
unfolding show_int32
show_port_spec p = concat (show_int32 p.host ∷ ":" ∷ show_int32 p.guest ∷ [])

-- The last loop, over two lists of one length.
pub same_texts : List String → List String → Bool
same_texts [] [] = true
same_texts (s ∷ ss) (t ∷ ts) = str_eq s t && same_texts ss ts
same_texts _ _ = false

unfoldable pub same_ports : List Port → List PortSpec → Bool
unfolding sort_texts show_port show_port_spec same_texts
same_ports spec runtime =
    if not (length spec == length runtime)
    then false
    else same_texts (sort_texts (map show_port spec)) (sort_texts (map show_port_spec runtime))

unfoldable pub validate_immutable_runtime_fields : SmolVm → MachineInfo → Option Error
validate_immutable_runtime_fields vm machine =
    if int32_lt 0 vm.spec.resources.cpus
      && int32_lt 0 machine.cpus
      && not (vm.spec.resources.cpus == machine.cpus)
    then some (
        message_error (
          concat (
            "cpus is immutable after creation; runtime has "
            ∷ show_int32 machine.cpus
            ∷ " and spec requests "
            ∷ show_int32 vm.spec.resources.cpus
            ∷ [])))
    else if int32_lt 0 vm.spec.resources.memory_mib
        && int32_lt 0 machine.memory_mib
        && not (vm.spec.resources.memory_mib == machine.memory_mib)
    then some (
        message_error (
          concat (
            "memoryMiB is immutable after creation; runtime has "
            ∷ show_int32 machine.memory_mib
            ∷ " and spec requests "
            ∷ show_int32 vm.spec.resources.memory_mib
            ∷ [])))
    else if not (same_ports vm.spec.network.ports machine.ports)
    then some (message_error "network port mappings are immutable after creation")
    else none

unfoldable pub ports_from_runtime : List PortSpec → List Port
ports_from_runtime [] = []
ports_from_runtime (p ∷ ports) =
    record { host_port = p.host; guest_port = p.guest } ∷ ports_from_runtime ports

-- One of the two tests of validateStorageDoesNotShrink and of needsStorageExpansion, on a spec's size
-- and the machine's, which may be absent.
abbrev pub shrinks : Int64 → Option Int64 → Bool
shrinks wanted none = false
shrinks wanted (some actual) = int64_lt 0 wanted && int64_lt wanted actual

abbrev pub grows : Int64 → Option Int64 → Bool
grows wanted none = false
grows wanted (some actual) = int64_lt 0 wanted && int64_lt actual wanted

-- `%d` of a size whose pointer is not nil.
abbrev show_size : Option Int64 → String
show_size none = ""
show_size (some n) = show_int64 n

unfoldable pub validate_storage_does_not_shrink : SmolVm → MachineInfo → Option Error
validate_storage_does_not_shrink vm machine =
    if shrinks vm.spec.storage.storage_gib machine.storage_gb
    then some (
        message_error (
          concat (
            "storageGiB cannot shrink from "
            ∷ show_size machine.storage_gb
            ∷ " to "
            ∷ show_int64 vm.spec.storage.storage_gib
            ∷ [])))
    else if shrinks vm.spec.storage.overlay_gib machine.overlay_gb
    then some (
        message_error (
          concat (
            "overlayGiB cannot shrink from "
            ∷ show_size machine.overlay_gb
            ∷ " to "
            ∷ show_int64 vm.spec.storage.overlay_gib
            ∷ [])))
    else none

unfoldable pub needs_storage_expansion : SmolVm → MachineInfo → Bool
needs_storage_expansion vm machine =
    grows vm.spec.storage.storage_gib machine.storage_gb
    || grows vm.spec.storage.overlay_gib machine.overlay_gb

unfoldable pub phase_from_machine : MachineInfo → String
phase_from_machine machine =
    if str_eq machine.state "running"
    then "Running"
    else if str_eq machine.state "stopped"
    then "Stopped"
    else if str_eq machine.state "created"
    then "Created"
    else "Unknown"

unfoldable pub ready_from_machine : MachineInfo → ConditionStatus
ready_from_machine machine =
    if str_eq machine.state "running" then condition_true else condition_false

unfoldable pub stable_machine_name : Deps → SmolVm → String
stable_machine_name d vm =
    let uid = String.slice (d.sha256_hex vm.meta.uid) 0 10 in
    concat ("k8s-" ∷ vm.meta.namespace ∷ "-" ∷ vm.meta.name ∷ "-" ∷ uid ∷ [])
