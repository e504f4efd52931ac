-- ===== src/Controller/Fit/Ports.antt =====
-- hostPortConflictReason: a machine is refused exactly when one of its host ports is taken.
use smolvm_operator.Prelude.{
  String, ◌≡◌, ◌↔◌, inl, inr, refl, true, none, List, [], ◌∷◌, Bool-cases, Option-cases, arith,
  Int32, str_eq, eq_iff, append-ne-nil, All, Any,
}
use smolvm_operator.Api.{Port, SmolVm}
use smolvm_operator.Controller.Validation.{member}
use smolvm_operator.Controller.Fit.{
  requested_port, port_conflict, host_ports, host_port_conflict_reason,
}

-- A number stands in a list.
abbrev pub In : Int32 → List Int32 → Type 0
In n ports = Any (λ m. n ≡ m) ports

pub member_iff : (n : Int32) (ports : List Int32) → (member n ports ≡ true) ↔ In n ports
unfolding member
member_iff n [] = ground arith
member_iff n (m ∷ ports) = ground (arith, member_iff n ports)

-- The two machines ask for one host port.
abbrev pub Clash : List Int32 → SmolVm → Type 0
Clash requested existing = Any (λ p. In p.host_port requested) existing.spec.network.ports

requested_port_iff :
    (requested : List Int32) (ports : List Port)
    → (requested_port requested ports ≡ none) ↔ ¬ Any (λ p. In p.host_port requested) ports
unfolding requested_port
requested_port_iff requested [] = ((λ e none_here. none_here), λ free. refl)
requested_port_iff requested (p ∷ ports) =
    let here = member_iff p.host_port requested in
    let later = requested_port_iff requested ports in
    elim (Bool-cases (member p.host_port requested)) [
      | inl taken ↦ rw taken ((λ e. cc), λ free. absurd (free (inl (here.0 taken))))
      | inr open_port ↦ rw open_port (
        (λ e. elim [ inl hit ↦ cc (here.1 hit) | inr hit ↦ later.0 e hit ]),
        λ free. later.1 (λ hit. free (inr hit)),
      )
    ]

-- No machine on the node has one of the host ports.
abbrev pub NoClash : String → List Int32 → List SmolVm → Type 0
NoClash node_name requested bound =
    All (λ existing. existing.status.node_name ≡ node_name → ¬ Clash requested existing) bound

port_conflict_iff :
    (node_name : String) (requested : List Int32) (bound : List SmolVm)
    → (port_conflict node_name requested bound ≡ "") ↔ NoClash node_name requested bound
unfolding port_conflict
port_conflict_iff node_name requested [] = ((λ e. tt), λ free. refl)
port_conflict_iff node_name requested (existing ∷ bound) =
    let later = port_conflict_iff node_name requested bound in
    let ports = requested_port_iff requested existing.spec.network.ports in
    elim (Bool-cases (str_eq existing.status.node_name node_name)) [
      | inr elsewhere ↦
          rw elsewhere
            ((λ e. ((λ same clash. cc ((eq_iff _ _).1 same)), later.0 e)), λ free. later.1 free.1)
      | inl here ↦
          rw here (elim (Option-cases (requested_port requested existing.spec.network.ports)) [
            | inl free_ports ↦
                rw free_ports
                  ((λ e. ((λ same. ports.0 free_ports), later.0 e)), λ free. later.1 free.1)
            | inr (port, taken) ↦ rw taken (
              (λ e. absurd (append-ne-nil "hostPort " _ refl e)),
              λ free. cc (taken, ports.1 (free.0 ((eq_iff _ _).0 here))),
            )
          ])
    ]

no_ports_NoClash : (node_name : String) (bound : List SmolVm) → NoClash node_name [] bound
no_ports_NoClash node_name [] = tt
no_ports_NoClash node_name (existing ∷ bound) =
    ((λ same. no_port existing.spec.network.ports), no_ports_NoClash node_name bound)
  where
    no_port : (ports : List Port) → ¬ Any (λ p. In p.host_port []) ports
    no_port [] hit = hit
    no_port (p ∷ ports) (inl hit) = hit
    no_port (p ∷ ports) (inr hit) = no_port ports hit

-- hostPortConflictReason accepts a node for a machine exactly when no machine bound to the node has a
-- host port that the machine asks for.
pub host_port_conflict_reason_iff :
    (node_name : String) (vm : SmolVm) (bound : List SmolVm)
    → (host_port_conflict_reason node_name vm bound ≡ "") ↔ NoClash node_name (host_ports vm) bound
unfolding host_port_conflict_reason
host_port_conflict_reason_iff node_name vm bound = by_ports (host_ports vm)
  where
    by_ports :
        (requested : List Int32)
        → ((elim requested as (λ x. String) [
          | [] ↦ ""
          | port ∷ ports ↦ port_conflict node_name requested bound
        ])
            ≡ "")
          ↔ NoClash node_name requested bound
    by_ports [] = ((λ e. no_ports_NoClash node_name bound), λ free. refl)
    by_ports (port ∷ ports) = port_conflict_iff node_name (port ∷ ports) bound
