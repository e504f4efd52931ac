-- ===== src/Controller/Permitted/Trust.antt =====
-- What Reconcile has seen of a node's runtime: that it may be trusted, or that it cannot be used.
use smolvm_operator.Prelude.{ℕ, String, ◌≡◌, true, false}
use smolvm_operator.Api.{SmolVmNode}
use smolvm_operator.Smolvm.{Health, Identity, Capabilities, Error, ok, err}
use smolvm_operator.Program.{
  Runtime, factory, now, get_node, runtime, health, identity, capabilities, History,
}
use smolvm_operator.Program.Past.{Got}
use smolvm_operator.Controller.Fit.{smolvm_node_eligible}
use smolvm_operator.Controller.Reconciler.{
  Reconciler, node_client, identity_mismatch, protocol_mismatch,
}

-- The runtime of a node that has been checked: the node is eligible, and its runtime is healthy and
-- has the identity and the protocol of the node.
pub record Checked (r : Reconciler) (node_name : String) (node : SmolVmNode) (h : History)
    : Type 0 where
  pub found : Got (get_node node_name) (ok node) h
  pub time : ℕ
  pub read_at : Got now time h
  pub eligible : smolvm_node_eligible time node ≡ true
  pub report : Health
  pub reported : Got (runtime (node_client r node) health) (ok report) h
  pub healthy : report.ok ≡ true
  pub who : Identity
  pub identified : Got (runtime (node_client r node) identity) (ok who) h
  pub matches : identity_mismatch r node_name node who ≡ false
  pub caps : Capabilities
  pub described : Got (runtime (node_client r node) capabilities) (ok caps) h
  pub speaks : protocol_mismatch r node caps ≡ false

pub data Trusted (r : Reconciler) (node_name : String) (h : History) : Runtime → Type 0 where
  injected : r.has_factory ≡ true → Trusted r node_name h factory
  checked :
      (node : SmolVmNode) → Checked r node_name node h → Trusted r node_name h (node_client r node)

-- The runtime of a node cannot be used.
pub data Unusable (r : Reconciler) (node_name : String) (h : History) : Type 0 where
  no_node : (e : Error) → Got (get_node node_name) (err e) h → Unusable r node_name h
  ineligible :
      (node : SmolVmNode) (time : ℕ)
      → Got (get_node node_name) (ok node) h
      → Got now time h
      → smolvm_node_eligible time node ≡ false
      → Unusable r node_name h
  no_health :
      (node : SmolVmNode) (e : Error)
      → Got (get_node node_name) (ok node) h
      → Got (runtime (node_client r node) health) (err e) h
      → Unusable r node_name h
  unhealthy :
      (node : SmolVmNode) (report : Health)
      → Got (get_node node_name) (ok node) h
      → Got (runtime (node_client r node) health) (ok report) h
      → report.ok ≡ false
      → Unusable r node_name h
  no_identity :
      (node : SmolVmNode) (e : Error)
      → Got (get_node node_name) (ok node) h
      → Got (runtime (node_client r node) identity) (err e) h
      → Unusable r node_name h
  stranger :
      (node : SmolVmNode) (who : Identity)
      → Got (get_node node_name) (ok node) h
      → Got (runtime (node_client r node) identity) (ok who) h
      → identity_mismatch r node_name node who ≡ true
      → Unusable r node_name h
  no_capabilities :
      (node : SmolVmNode) (e : Error)
      → Got (get_node node_name) (ok node) h
      → Got (runtime (node_client r node) capabilities) (err e) h
      → Unusable r node_name h
  other_protocol :
      (node : SmolVmNode) (caps : Capabilities)
      → Got (get_node node_name) (ok node) h
      → Got (runtime (node_client r node) capabilities) (ok caps) h
      → protocol_mismatch r node caps ≡ true
      → Unusable r node_name h
