-- ===== src/Controller/Watch/Laws.antt =====
-- Which machines a change of a node reconciles.
use smolvm_operator.Prelude.{
  String, ◌≡◌, ◌↔◌, ◌⊎◌, inl, inr, true, List, [], ◌∷◌, arith, Bool-cases, eq_iff, Any,
}
use smolvm_operator.Api.{SmolVm}
use smolvm_operator.Program.{Key}
use smolvm_operator.Controller.Reconciler.{key_of}
use smolvm_operator.Controller.Watch.{is_concerned, concerned_keys}

-- The machine is bound to the node, or it waits for a node and may be placed on this one.
abbrev pub Concerned : String → SmolVm → Type 0
Concerned node_name vm =
    (vm.status.node_name ≡ node_name)
    ⊎ ((vm.status.node_name ≡ "") × ((vm.spec.node_name ≡ "") ⊎ (vm.spec.node_name ≡ node_name)))

is_concerned_iff :
    (node_name : String) (vm : SmolVm) → (is_concerned node_name vm ≡ true) ↔ Concerned node_name vm
unfolding is_concerned
is_concerned_iff node_name vm = ground (
  arith,
  eq_iff vm.status.node_name node_name,
  eq_iff vm.status.node_name "",
  eq_iff vm.spec.node_name "",
  eq_iff vm.spec.node_name node_name,
)

-- A key is requested exactly when it is the key of a concerned machine of the list.
pub concerned_keys_iff :
    (node_name : String) (vms : List SmolVm) (key : Key)
    → Any (λ k. key ≡ k) (concerned_keys node_name vms)
      ↔ Any (λ vm. Concerned node_name vm × (key ≡ key_of vm)) vms
unfolding concerned_keys
concerned_keys_iff node_name [] key = ground arith
concerned_keys_iff node_name (vm ∷ vms) key =
    let later = concerned_keys_iff node_name vms key in
    let here = is_concerned_iff node_name vm in
    elim (Bool-cases (is_concerned node_name vm)) [
      | inl yes_here ↦ rw yes_here (
        elim [ inl e ↦ inl (here.0 yes_here, e) | inr l ↦ inr (later.0 l) ],
        elim [ inl (c, e) ↦ inl e | inr l ↦ inr (later.1 l) ],
      )
      | inr not_here ↦
          rw not_here
            ((λ l. inr (later.0 l)), elim [ inl (c, e) ↦ cc (here.1 c) | inr l ↦ later.1 l ])
    ]
