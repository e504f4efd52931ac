-- ===== src/Controller/Validation/Laws.antt =====
-- validateSpec accepts exactly the valid specs.
use smolvm_operator.Prelude.{
  String, ◌≡◌, ◌≢◌, ◌↔◌, ◌⊎◌, inl, inr, none, List, [], ◌∷◌, Bool-cases, arith, Int32, eq_iff, All,
}
use smolvm_operator.Api.{Port, SmolVm}
use smolvm_operator.Deps.{Deps}
use smolvm_operator.Controller.Validation.{member, duplicate_host_port, invalid_cidr, validate_spec}
use smolvm_operator.Controller.Fit.Ports.{In, member_iff}

abbrev pub DistinctPorts : List Port → Type 0
DistinctPorts [] = Unit
DistinctPorts (p ∷ ports) = All (λ q. q.host_port ≢ p.host_port) ports × DistinctPorts ports

abbrev Unseen : List Int32 → List Port → Type 0
Unseen seen ports = All (λ p. ¬ In p.host_port seen) ports

Unseen-cons :
    (n : Int32) (seen : List Int32) (ports : List Port)
    → Unseen (n ∷ seen) ports ↔ (All (λ q. q.host_port ≢ n) ports × Unseen seen ports)
Unseen-cons n seen [] = ground arith
Unseen-cons n seen (p ∷ ports) =
    let later = Unseen-cons n seen ports in
    (
      (λ h.
          let (ne, unseen) = later.0 h.1 in
          (((λ e. h.0 (inl e)), ne), ((λ i. h.0 (inr i)), unseen))),
      (λ h. ((elim [ inl e ↦ h.0.0 e | inr i ↦ h.1.0 i ]), later.1 (h.0.1, h.1.1))),
    )

duplicate_host_port_iff :
    (seen : List Int32) (ports : List Port)
    → (duplicate_host_port seen ports ≡ none) ↔ (Unseen seen ports × DistinctPorts ports)
unfolding duplicate_host_port
duplicate_host_port_iff seen [] = ground arith
duplicate_host_port_iff seen (p ∷ ports) =
    let later = duplicate_host_port_iff (p.host_port ∷ seen) ports in
    let split = Unseen-cons p.host_port seen ports in
    let here = member_iff p.host_port seen in
    elim (Bool-cases (member p.host_port seen)) [
      | inl old ↦ rw old ((λ e. cc), λ h. absurd (h.0.0 (here.0 old)))
      | inr new ↦ rw new (
        (λ e.
            let (unseen, distinct) = later.0 e in
            let (ne, rest) = split.0 unseen in (((λ i. cc (here.1 i)), rest), (ne, distinct))),
        (λ h. later.1 (split.1 (h.1.0, h.0.1), h.1.1)),
      )
    ]

no_ports_seen : (ports : List Port) → Unseen [] ports
no_ports_seen [] = tt
no_ports_seen (p ∷ ports) = ((λ i. i), no_ports_seen ports)

invalid_cidr_iff :
    (d : Deps) (cidrs : List String)
    → (invalid_cidr d cidrs ≡ none) ↔ All (λ c. d.parse_cidr_error c ≡ none) cidrs
unfolding invalid_cidr
invalid_cidr_iff d [] = ground arith
invalid_cidr_iff d (cidr ∷ cidrs) = ground (arith, invalid_cidr_iff d cidrs)

pub record ValidSpec (d : Deps) (vm : SmolVm) : Type 0 where
  pub pin_kept :
      (vm.status.node_name ≡ "")
      ⊎ (vm.spec.node_name ≡ "")
      ⊎ (vm.spec.node_name ≡ vm.status.node_name)
  pub one_source :
      ((vm.spec.image ≢ "") × (vm.spec.from ≡ "")) ⊎ ((vm.spec.image ≡ "") × (vm.spec.from ≢ ""))
  pub distinct : DistinctPorts vm.spec.network.ports
  pub cidrs : All (λ c. d.parse_cidr_error c ≡ none) vm.spec.network.allowed_cidrs

-- validateSpec accepts an object exactly when a bound machine's pin, if it has one, is the node it is
-- bound to, exactly one of image and from is given, no two ports share a host port, and every allowed
-- CIDR parses.
pub validate_spec_iff : (d : Deps) (vm : SmolVm) → (validate_spec d vm ≡ none) ↔ ValidSpec d vm
unfolding validate_spec
validate_spec_iff d vm =
    let ports = duplicate_host_port_iff [] vm.spec.network.ports in
    let cidrs = invalid_cidr_iff d vm.spec.network.allowed_cidrs in
    (
      (λ h. record {
        pin_kept = ground (
          arith,
          h,
          eq_iff vm.status.node_name "",
          eq_iff vm.spec.node_name "",
          eq_iff vm.spec.node_name vm.status.node_name,
        );
        one_source = ground (arith, h, eq_iff vm.spec.image "", eq_iff vm.spec.from "");
        distinct = (ports.0 (ground (arith, h))).1;
        cidrs = cidrs.0 (ground (arith, h));
      }),
      (λ v.
          let fresh = ports.1 (no_ports_seen vm.spec.network.ports, v.distinct) in
          let parsed = cidrs.1 v.cidrs in
          ground (
            arith,
            fresh,
            parsed,
            v.pin_kept,
            v.one_source,
            eq_iff vm.status.node_name "",
            eq_iff vm.spec.node_name "",
            eq_iff vm.spec.node_name vm.status.node_name,
            eq_iff vm.spec.image "",
            eq_iff vm.spec.from "",
          )),
    )
