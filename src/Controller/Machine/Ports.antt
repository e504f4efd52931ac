-- ===== src/Controller/Machine/Ports.antt =====
-- What samePorts of internal/controller/smolvm_controller.go compares: the texts host:guest determine
-- the ports.
use Prim.Native.Char.{code}
use Prim.Native.String
use mathlib.Core.List.{Perm}
use mathlib.Core.List.Perm
use text.Mathlib.TextLemmas.{cons-append, nil-append, append-nil}
use smolvm_operator.Prelude.{
  String, ◌≡◌, ◌↔◌, refl, sym, true, none, some, List, [], ◌∷◌, map, ◌<◌, ◌%◌, ◌^◌, ◌==◌, arith,
  All, show_int32, if◌then◌else◌,
}
use smolvm_operator.Api.{Port}
use smolvm_operator.Smolvm.{PortSpec}
use smolvm_operator.Strconv.{after_last, atoi}
use smolvm_operator.Strconv.Colons.{NoColon, show_int32-NoColon, after_last-colon}
use smolvm_operator.Strconv.Laws.{atoi-show_int32}
use smolvm_operator.Controller.Machine.{port_spec, show_port_spec, same_ports}
use smolvm_operator.Controller.Machine.Laws.{same_ports_iff, show_port_spec-port_spec}

until_colon : String → String
until_colon String.[] = ""
until_colon (String.◌∷◌ c s) =
    let rest = until_colon s in if code c == 0x3a then "" else String.◌∷◌ c rest

until_colon-append :
    (s t : String) → NoColon s → until_colon (String.◌++◌ s (String.◌++◌ ":" t)) ≡ s
unfolding until_colon
until_colon-append String.[] t free = rw (nil-append (String.◌++◌ ":" t), cons-append ":" "" t) refl
until_colon-append (String.◌∷◌ c s) t (here, free) =
    rw (cons-append c s (String.◌++◌ ":" t), until_colon, until_colon-append s t free)
      (ground (arith, here))

-- The ports that a text host:guest stands for.
parse_port : String → PortSpec
parse_port s = record {
  host = atoi (until_colon s) % 2 ^ 32;
  guest = elim (after_last 0x3a s) [ none ↦ 0 | some t ↦ atoi t % 2 ^ 32 ];
}

-- Words of 32 bits.
abbrev pub IsWord32 : PortSpec → Type 0
IsWord32 p = (p.host < 2 ^ 32) × (p.guest < 2 ^ 32)

parse_port-show : (p : PortSpec) → IsWord32 p → parse_port (show_port_spec p) ≡ p
unfolding parse_port show_port_spec
parse_port-show p (host_fits, guest_fits) =
    rw
      (
        append-nil (show_int32 p.guest),
        parse_port,
        until_colon-append (show_int32 p.host) (show_int32 p.guest) (show_int32-NoColon p.host),
        after_last-colon (show_int32 p.host) (show_int32 p.guest) (show_int32-NoColon p.guest),
        atoi-show_int32 p.host host_fits,
        atoi-show_int32 p.guest guest_fits,
      )
      refl

parse_ports :
    (ports : List PortSpec) → All IsWord32 ports → map parse_port (map show_port_spec ports) ≡ ports
parse_ports [] fit = refl
parse_ports (p ∷ ports) (here, fit) = λ i. parse_port-show p here i ∷ parse_ports ports fit i

-- samePorts accepts exactly when the pairs of ports of the spec and of the machine are the same up to
-- order, where all ports are 32-bit words.
pub same_ports-pairs :
    (spec : List Port) (runtime : List PortSpec)
    → All IsWord32 (map port_spec spec)
    → All IsWord32 runtime
    → (same_ports spec runtime ≡ true) ↔ Perm (map port_spec spec) runtime
same_ports-pairs spec runtime spec_fits runtime_fits =
    let texts = same_ports_iff spec runtime in
    (
      (λ accepted.
          rw (parse_ports (map port_spec spec) spec_fits, parse_ports runtime runtime_fits) at
            (Perm.map parse_port (rw (sym (show_port_spec-port_spec spec)) at (texts.0 accepted)))),
      (λ p. texts.1 (rw (show_port_spec-port_spec spec) at (Perm.map show_port_spec p))),
    )
