-- ===== src/Samples/Serving.antt =====
-- A node whose agent serves, and an object to be worked on.
use smolvm_operator.Prelude.{◌≡◌, refl, true, none}
use smolvm_operator.Api.{smolvm_finalizer}
use smolvm_operator.Smolvm.{Identity, Health, Capabilities}
use smolvm_operator.Controller.Validation.{validate_spec, member}
use smolvm_operator.Controller.Fit.{smolvm_node_eligible}
use smolvm_operator.Controller.Progress.{Workable}
use smolvm_operator.Samples.{sample_node, bound_vm}
use smolvm_operator.Samples.Libraries.{sample_reconciler, libraries}

pub sample_node-eligible : smolvm_node_eligible 150 sample_node ≡ true
unfolding smolvm_node_eligible
sample_node-eligible = refl

abbrev pub well : Health
well = record {
  ok = true;
  kvm_available = true;
  socket_ready = true;
  state_ready = true;
  message = "runtime healthy";
}

abbrev pub who : Identity
who = record { node_name = "node-a"; node_uid = "uid-a" }

abbrev pub caps : Capabilities
caps = record {
  runtime_version = "0.8.1";
  protocol_version = "v1alpha1";
  cpus = 8;
  memory_mib = 16384;
  storage_gib = 100;
  kvm_available = true;
}

pub bound_vm-guarded :
    sample_reconciler.deps.contains_finalizer bound_vm.meta.finalizers smolvm_finalizer ≡ true
unfolding libraries
bound_vm-guarded = refl

pub bound_vm-valid : validate_spec sample_reconciler.deps bound_vm ≡ none
unfolding validate_spec libraries member
bound_vm-valid = refl

pub bound_vm-Workable : Workable sample_reconciler bound_vm
bound_vm-Workable = record {
  wanted = refl;
  guarded = bound_vm-guarded;
  valid = bound_vm-valid;
  placed = refl;
}
