-- ===== src/Controller/Validation.antt =====
-- validateSpec of internal/controller/smolvm_controller.go. A set of ports is the list of its members.
pub mod Laws
use smolvm_operator.Prelude.{
  String, Bool, false, not, ◌&&◌, ◌||◌, Option, none, some, List, [], ◌∷◌, Int32, ◌==◌, str_eq,
  concat, show_int32, quote, if◌then◌else◌,
}
use smolvm_operator.Api.{Port, SmolVm}
use smolvm_operator.Smolvm.{Error, message_error}
use smolvm_operator.Deps.{Deps}

unfoldable pub member : Int32 → List Int32 → Bool
member n [] = false
member n (m ∷ rest) = n == m || member n rest

-- The loop over spec.network.ports: the first port whose host port was seen before.
unfoldable pub duplicate_host_port : List Int32 → List Port → Option Int32
duplicate_host_port seen [] = none
duplicate_host_port seen (p ∷ ports) =
    if member p.host_port seen
    then some p.host_port
    else duplicate_host_port (p.host_port ∷ seen) ports

-- The loop over spec.network.allowedCIDRs.
unfoldable pub invalid_cidr : Deps → List String → Option Error
invalid_cidr d [] = none
invalid_cidr d (cidr ∷ rest) = elim (d.parse_cidr_error cidr) [
  | some text ↦
      some (message_error (concat ("invalid allowedCIDR " ∷ quote cidr ∷ ": " ∷ text ∷ [])))
  | none ↦ invalid_cidr d rest
]

unfoldable pub validate_spec : Deps → SmolVm → Option Error
unfolding duplicate_host_port invalid_cidr
validate_spec d vm =
    if not (str_eq vm.status.node_name "")
      && not (str_eq vm.spec.node_name "")
      && not (str_eq vm.spec.node_name vm.status.node_name)
    then some (
        message_error (
          concat (
            "spec.nodeName is immutable after binding; machine is owned by node "
            ∷ quote vm.status.node_name
            ∷ [])))
    else if not (str_eq vm.spec.image "") && not (str_eq vm.spec.from "")
    then some (message_error "spec.image and spec.from are mutually exclusive")
    else if str_eq vm.spec.image "" && str_eq vm.spec.from ""
    then some (message_error "one of spec.image or spec.from is required")
    else elim (duplicate_host_port [] vm.spec.network.ports) [
      | some port ↦ some (message_error (concat ("duplicate hostPort " ∷ show_int32 port ∷ [])))
      | none ↦ invalid_cidr d vm.spec.network.allowed_cidrs
    ]
