-- ===== src/Cluster/Ports.antt =====
-- No two machines on a node have a host port in common.
use smolvm_operator.Prelude.{
  String, ◌≡◌, sym, ap, ◌∙◌, true, false, List, [], ◌∷◌, ◌++◌, map, All, Any, inl, inr, arith,
  str_eq, eq_iff, Int32, Bool-cases,
}
use smolvm_operator.Api.{Port, SmolVm, SmolVmSpec, SmolVmNode}
use smolvm_operator.Controller.Fit.{is_bound_to_other, keep_bound, host_ports}
use smolvm_operator.Controller.Fit.Ports.{In, Clash, host_port_conflict_reason_iff}
use smolvm_operator.Controller.Permitted.{deletion_requested}
use smolvm_operator.Cluster.{
  OtherUid, Step, create, edit, settle, remove, place, Reach, empty, then_step, is_active,
}
use smolvm_operator.Cluster.Pairs.{
  Pairwise, All-middle, All-mono, All-mono2, Pairwise-middle, Pairwise-replace,
}

-- A host port that both objects ask for.
abbrev pub Shares : SmolVm → SmolVm → Type 0
Shares v w = (n : Int32) × In n (host_ports v) × In n (host_ports w)

-- Both hold their ports on one node, and then they share none.
abbrev pub Apart : SmolVm → SmolVm → Type 0
Apart v w =
    is_active v ≡ true → is_active w ≡ true → v.status.node_name ≡ w.status.node_name → ¬ Shares v w

Apart-sym : (v w : SmolVm) → Apart v w → Apart w v
Apart-sym v w apart active_w active_v same (n, in_w, in_v) =
    apart active_v active_w (sym same) (n, in_v, in_w)

pub OtherUid-sym : (v w : SmolVm) → OtherUid v w → OtherUid w v
OtherUid-sym v w other same = other (sym same)

Shares-Clash : (v w : SmolVm) → Shares v w → Clash (host_ports v) w
Shares-Clash v w (n, in_v, in_w) = by_ports w.spec.network.ports in_w
  where
    by_ports :
        (ports : List Port)
        → In n (map (λ p. p.host_port) ports)
        → Any (λ p. In p.host_port (host_ports v)) ports
    by_ports [] hit = hit
    by_ports (p ∷ ports) (inl same) = inl (rw same at in_v)
    by_ports (p ∷ ports) (inr later) = inr (by_ports ports later)

-- What holds of the objects that boundVMs keeps holds of every other active object.
pub keep_bound-All :
    (P : SmolVm → Type 0) (vm : SmolVm) (items : List SmolVm)
    → All P (keep_bound vm items)
    → All (λ w. OtherUid vm w → is_active w ≡ true → P w) items
unfolding keep_bound is_bound_to_other
keep_bound-All P vm [] all = tt
keep_bound-All P vm (w ∷ items) all = elim (Bool-cases (is_bound_to_other vm w)) [
  | inl kept ↦
      let (here, later) = rw (keep_bound, kept) at all in
      ((λ other on. here), keep_bound-All P vm items later)
  | inr dropped ↦
      let later = rw (keep_bound, dropped) at all in
      (
        (λ other on.
            absurd (ground (arith, dropped, other, on, eq_iff w.meta.uid vm.meta.uid, other))),
        keep_bound-All P vm items later,
      )
]

-- UIDs are distinct, and active objects on one node share no host port.
pub record Exclusive (store : List SmolVm) : Type 0 where
  pub distinct : Pairwise OtherUid store
  pub apart : Pairwise Apart store

-- The new object takes the place of one with its UID, and is apart from all that the other is apart from.
replaced-Exclusive :
    (before after : List SmolVm) (vm new : SmolVm)
    → new.meta.uid ≡ vm.meta.uid
    → ((w : SmolVm) → Apart vm w → Apart new w)
    → Exclusive (before ++ vm ∷ after)
    → Exclusive (before ++ new ∷ after)
replaced-Exclusive before after vm new same more held = record {
  distinct =
      Pairwise-replace OtherUid OtherUid-sym before after vm new (λ w other e. other (sym same ∙ e))
        held.distinct;
  apart = Pairwise-replace Apart Apart-sym before after vm new more held.apart;
}

pub inactive : (vm : SmolVm) → vm.status.node_name ≡ "" → is_active vm ≡ false
inactive vm unplaced = ground (arith, unplaced, eq_iff vm.status.node_name "")

inactive-Apart : (vm w : SmolVm) → is_active vm ≡ false → Apart vm w
inactive-Apart vm w off on = absurd (ground (arith, off, on))

settled-Apart :
    (vm settled w : SmolVm)
    → settled.spec ≡ vm.spec
    → settled.status.node_name ≡ vm.status.node_name
    → (deletion_requested vm ≡ true → deletion_requested settled ≡ true)
    → Apart vm w
    → Apart settled w
settled-Apart vm settled w same_spec same_node deleting apart on on_w same (n, in_settled, in_w) =
    let test : str_eq settled.status.node_name "" ≡ str_eq vm.status.node_name "" =
      ap (λ name. str_eq name "") same_node in
    let ports : host_ports settled ≡ host_ports vm =
      ap (λ spec. map (λ p. p.host_port) spec.network.ports) same_spec in
    apart (ground (arith, test, deleting, on)) on_w (sym same_node ∙ same)
      (n, (rw ports at in_settled), in_w)

placed-Apart :
    (vm placed w : SmolVm)
    → placed.spec ≡ vm.spec
    → OtherUid vm w
    → (OtherUid vm w
        → is_active w ≡ true
        → w.status.node_name ≡ placed.status.node_name
        → ¬ Clash (host_ports vm) w)
    → Apart placed w
placed-Apart vm placed w same_spec other free on on_w same (n, in_placed, in_w) =
    let ports : host_ports placed ≡ host_ports vm =
      ap (λ spec. map (λ p. p.host_port) spec.network.ports) same_spec in
    free other on_w (sym same) (Shares-Clash vm w (n, (rw ports at in_placed), in_w))

module _ (node_of : String → SmolVmNode) (Allowed : SmolVmSpec → Type 0) where
  Step-Exclusive : (s t : List SmolVm) → Exclusive s → Step node_of Allowed s t → Exclusive t
  Step-Exclusive s _ held (create vm unplaced allowed fresh) = record {
    distinct = (fresh, held.distinct);
    apart = (All-mono s (λ w other. inactive-Apart vm w (inactive vm unplaced)) fresh, held.apart);
  }
  Step-Exclusive _ _ held (edit before after vm edited same unplaced still allowed) =
      replaced-Exclusive before after vm edited same
        (λ w apart. inactive-Apart edited w (inactive edited still)) held
  Step-Exclusive _ _ held (settle before after vm settled same spec node deleting) =
      replaced-Exclusive before after vm settled same
        (λ w. settled-Apart vm settled w spec node deleting) held
  Step-Exclusive _ _ held (remove before after vm) = record {
    distinct = ((Pairwise-middle OtherUid OtherUid-sym before after vm).0 held.distinct).1;
    apart = ((Pairwise-middle Apart Apart-sym before after vm).0 held.apart).1;
  }
  Step-Exclusive _ _ held (place before after vm placed same spec unplaced fits free) =
      let others = ((Pairwise-middle OtherUid OtherUid-sym before after vm).0 held.distinct).0 in
      let no_clash =
        (host_port_conflict_reason_iff placed.status.node_name vm
            (keep_bound vm (before ++ vm ∷ after))).0
          free in
      let kept = keep_bound-All _ vm (before ++ vm ∷ after) no_clash in
      record {
        distinct =
            Pairwise-replace OtherUid OtherUid-sym before after vm placed
              (λ w other e. other (sym same ∙ e)) held.distinct;
        apart = (Pairwise-middle Apart Apart-sym before after placed).1 (
          All-mono2 (before ++ after) (λ w. placed-Apart vm placed w spec) others
              ((All-middle _ before after vm).0 kept).1,
          ((Pairwise-middle Apart Apart-sym before after vm).0 held.apart).1,
        );
      }

  -- If users create objects, edit those that are not placed yet, and delete objects, in any order, and if the
  -- controller places each object by the tests on the store as it is: UIDs stay distinct, and no two
  -- objects that are placed on one node and are not being deleted have a host port in common. A step that
  -- edits the spec of a placed object, which the API allows, is left out: the ports of such an object are
  -- not tested again.
  pub Reach-Exclusive : (store : List SmolVm) → Reach node_of Allowed store → Exclusive store
  Reach-Exclusive _ empty = record { distinct = tt; apart = tt }
  Reach-Exclusive _ (then_step {s} {t} reached step) =
      Step-Exclusive s t (Reach-Exclusive s reached) step
