-- ===== src/Controller/Permitted/Growth.antt =====
-- What the contract asks of a history stays true as the history grows.
use smolvm_operator.Prelude.{String, inl, inr}
use smolvm_operator.Api.{SmolVm, SmolVmNode}
use smolvm_operator.Smolvm.{MachineInfo}
use smolvm_operator.Program.{Runtime, History}
use smolvm_operator.Program.Past.{Extends}
use smolvm_operator.Controller.Reconciler.{Reconciler}
use smolvm_operator.Controller.Status.{StatusInput}
use smolvm_operator.Controller.Permitted.{Fits, Placed, Active, Found, Publishes}
use smolvm_operator.Controller.Permitted.Trust.{
  Checked, Trusted, injected, checked, Unusable, no_node, ineligible, no_health, unhealthy,
  no_identity, stranger, no_capabilities, other_protocol,
}

module _ {h g : History} (e : Extends h g) where
  Checked-grows :
      (r : Reconciler) (node_name : String) (node : SmolVmNode)
      → Checked r node_name node h
      → Checked r node_name node g
  Checked-grows r node_name node c = record {
    found = e.keeps _ _ c.found;
    time = c.time;
    read_at = e.keeps _ _ c.read_at;
    eligible = c.eligible;
    report = c.report;
    reported = e.keeps _ _ c.reported;
    healthy = c.healthy;
    who = c.who;
    identified = e.keeps _ _ c.identified;
    matches = c.matches;
    caps = c.caps;
    described = e.keeps _ _ c.described;
    speaks = c.speaks;
  }

  pub Trusted-grows :
      {r : Reconciler} {node_name : String} {api : Runtime}
      → Trusted r node_name h api
      → Trusted r node_name g api
  Trusted-grows (injected fac) = injected fac
  Trusted-grows (checked node c) = checked node (Checked-grows _ _ node c)

  pub Unusable-grows :
      {r : Reconciler} {node_name : String} → Unusable r node_name h → Unusable r node_name g
  Unusable-grows (no_node x got) = no_node x (e.keeps _ _ got)
  Unusable-grows (ineligible node time got at_time unfit) =
      ineligible node time (e.keeps _ _ got) (e.keeps _ _ at_time) unfit
  Unusable-grows (no_health node x got failed) =
      no_health node x (e.keeps _ _ got) (e.keeps _ _ failed)
  Unusable-grows (unhealthy node report got said sick) =
      unhealthy node report (e.keeps _ _ got) (e.keeps _ _ said) sick
  Unusable-grows (no_identity node x got failed) =
      no_identity node x (e.keeps _ _ got) (e.keeps _ _ failed)
  Unusable-grows (stranger node who got said other) =
      stranger node who (e.keeps _ _ got) (e.keeps _ _ said) other
  Unusable-grows (no_capabilities node x got failed) =
      no_capabilities node x (e.keeps _ _ got) (e.keeps _ _ failed)
  Unusable-grows (other_protocol node caps got said other) =
      other_protocol node caps (e.keeps _ _ got) (e.keeps _ _ said) other

  pub Fits-grows : {vm : SmolVm} {node : SmolVmNode} → Fits vm node h → Fits vm node g
  Fits-grows f = record {
    time = f.time;
    read_at = e.keeps _ _ f.read_at;
    eligible = f.eligible;
    selected = f.selected;
    kube = f.kube;
    kube_found = e.keeps _ _ f.kube_found;
    schedulable = f.schedulable;
    ready = f.ready;
    items = f.items;
    listed = e.keeps _ _ f.listed;
    resources = f.resources;
    ports = f.ports;
  }

  Placed-grows : {vm : SmolVm} {node_name : String} → Placed vm node_name h → Placed vm node_name g
  Placed-grows p = record {
    node = p.node;
    named = p.named;
    fits = Fits-grows p.fits;
    known = elim p.known [
      | inl (free, nodes, got, among) ↦ inl (free, nodes, e.keeps _ _ got, among)
      | inr got ↦ inr (e.keeps _ _ got)
    ];
  }

  module _ {r : Reconciler} {vm : SmolVm} {name : String} where
    pub Active-grows : {api : Runtime} → Active r vm name api h → Active r vm name api g
    Active-grows a = record {
      wanted = a.wanted;
      guarded = a.guarded;
      valid = a.valid;
      placed = a.placed;
      trusted = Trusted-grows a.trusted;
    }

    pub Found-grows :
        {api : Runtime} {machine : MachineInfo}
        → Found r vm name api machine h
        → Found r vm name api machine g
    Found-grows f = record {
      active = Active-grows f.active;
      seen = e.keeps _ _ f.seen;
      same_fields = f.same_fields;
      no_shrink = f.no_shrink;
    }

    pub Publishes-grows :
        {given : StatusInput} → Publishes r vm name given h → Publishes r vm name given g
    Publishes-grows p = record {
      name_kept = p.name_kept;
      node_kept = elim p.node_kept [
        | inl same ↦ inl same
        | inr (unbound, placed) ↦ inr (unbound, Placed-grows placed)
      ];
    }
