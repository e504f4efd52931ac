-- ===== src/Controller/Guarantees.antt =====
-- What a user of the operator may rely on, whatever the API server and the runtimes answer: Reconcile of
-- internal/controller/smolvm_controller.go as a whole.
mod Tests
use smolvm_operator.Prelude.{
  String, ◌≡◌, ◌≢◌, ◌⊎◌, inl, inr, refl, sym, ◌∙◌, true, false, [], ◌∷◌, arith,
}
use smolvm_operator.Api.{SmolVm, smolvm_finalizer}
use smolvm_operator.Smolvm.{ok, err}
use smolvm_operator.Deps.{Documented}
use smolvm_operator.Program.{Key, Call, get_vm, update_vm, update_vm_status, History}
use smolvm_operator.Program.Past.{Got, latest, Extends-refl}
use smolvm_operator.Program.Rules.{Holds, returns, calls, Holds-mono, Holds-since}
use smolvm_operator.Controller.Reconciler.{Reconciler}
use smolvm_operator.Controller.Status.{next_status}
use smolvm_operator.Controller.Reconcile.{machine_name_of, reconcile_vm, reconcile}
use smolvm_operator.Controller.Permitted.{
  IsRead, Placed, Released, deletion_requested, Permitted, read, guard, release, publish, create,
  start, stop, resize, delete,
}
use smolvm_operator.Controller.Permitted.Writes.{AnyOutcome}
use smolvm_operator.Controller.Permitted.Present.{reconcile_vm-Permitted}

-- A call is permitted for a key: it is a read, or what the object that was read permits.
abbrev pub PermittedFor : Reconciler → Key → History → Call → Type 0
PermittedFor r key h c =
    IsRead c
    ⊎ ((vm : SmolVm) × Got (get_vm key) (ok vm) h × Permitted r vm (machine_name_of r vm) h c)

-- Whatever the environment answers, Reconcile makes only the calls that its contract permits for the
-- object that it read first. It changes the object only to add the finalizer or, on deletion, to
-- release it. It writes a status that keeps the machine's name and its node, or that records a node
-- which passed every test of the scheduler. It creates, starts, stops and resizes a machine only
-- through a checked runtime, for a valid and bound object that is not being deleted, and only where
-- the machine's observed state calls for it; and it deletes a machine only on deletion.
pub reconcile-Permitted :
    (r : Reconciler) (key : Key) → Holds (PermittedFor r key) AnyOutcome [] (reconcile r key)
unfolding reconcile
reconcile-Permitted r key = calls (inl tt) (elim [
  | err e ↦ returns tt
  | ok vm ↦
      Holds-since ((get_vm key, ok vm) ∷ []) (Extends-refl _)
        (reconcile_vm-Permitted r vm ((get_vm key, ok vm) ∷ []))
        (λ g c since allowed. inr (vm, since.keeps _ _ latest, allowed))
])

-- A status write keeps the node of the object that was read, or it is the first placement.
abbrev pub KeepsNode : SmolVm → History → Call → Type 0
KeepsNode vm h (update_vm_status written) =
    (written.status.node_name ≡ vm.status.node_name)
    ⊎ ((vm.status.node_name ≡ "") × Placed vm written.status.node_name h)
KeepsNode vm h _ = Unit

KeepsNode-read : (vm : SmolVm) (h : History) (c : Call) → IsRead c → KeepsNode vm h c
KeepsNode-read vm h (update_vm_status written) reads = absurd reads
KeepsNode-read vm h _ reads = tt

module _ (r : Reconciler) (vm : SmolVm) (name : String) where
  Permitted-KeepsNode : (h : History) (c : Call) → Permitted r vm name h c → KeepsNode vm h c
  unfolding next_status
  Permitted-KeepsNode h c (read reads) = KeepsNode-read vm h c reads
  Permitted-KeepsNode h c (guard wanted) = tt
  Permitted-KeepsNode h c (release deleting released) = tt
  Permitted-KeepsNode h c (publish given newest times got p) = p.node_kept
  Permitted-KeepsNode h c (create api e active got missing) = tt
  Permitted-KeepsNode h c (start api machine found on off enough) = tt
  Permitted-KeepsNode h c (stop api machine found off on enough) = tt
  Permitted-KeepsNode h c (resize api machine found off more) = tt
  Permitted-KeepsNode h c (delete api deleting placed trusted) = tt

-- A bound machine never moves: every status that Reconcile writes names the node that the object had,
-- unless it had none; then the node named has passed every test of the scheduler since Reconcile began.
pub reconcile_vm-KeepsNode :
    (r : Reconciler) (vm : SmolVm) (h : History)
    → Holds (KeepsNode vm) AnyOutcome h (reconcile_vm r vm)
reconcile_vm-KeepsNode r vm h =
    Holds-mono (reconcile_vm-Permitted r vm h) (Permitted-KeepsNode r vm (machine_name_of r vm))
      (λ g o any. tt)

-- A write of the object leaves it with the finalizer, or comes after its release.
abbrev pub KeepsFinalizer : Reconciler → SmolVm → History → Call → Type 0
KeepsFinalizer r vm h (update_vm written) =
    (r.deps.contains_finalizer written.meta.finalizers smolvm_finalizer ≡ true)
    ⊎ ((deletion_requested vm ≡ true) × Released r vm (machine_name_of r vm) h)
KeepsFinalizer r vm h _ = Unit

KeepsFinalizer-read :
    (r : Reconciler) (vm : SmolVm) (h : History) (c : Call) → IsRead c → KeepsFinalizer r vm h c
KeepsFinalizer-read r vm h (update_vm written) reads = absurd reads
KeepsFinalizer-read r vm h _ reads = tt

module _ (r : Reconciler) (vm : SmolVm) (documented : Documented r.deps) where
  Permitted-KeepsFinalizer :
      (h : History) (c : Call) → Permitted r vm (machine_name_of r vm) h c → KeepsFinalizer r vm h c
  Permitted-KeepsFinalizer h c (read reads) = KeepsFinalizer-read r vm h c reads
  Permitted-KeepsFinalizer h c (guard wanted) =
      inl (documented.contains-add vm.meta.finalizers smolvm_finalizer)
  Permitted-KeepsFinalizer h c (release deleting released) = inr (deleting, released)
  Permitted-KeepsFinalizer h c (publish given newest times got p) = tt
  Permitted-KeepsFinalizer h c (create api e active got missing) = tt
  Permitted-KeepsFinalizer h c (start api machine found on off enough) = tt
  Permitted-KeepsFinalizer h c (stop api machine found off on enough) = tt
  Permitted-KeepsFinalizer h c (resize api machine found off more) = tt
  Permitted-KeepsFinalizer h c (delete api deleting placed trusted) = tt

-- With finalizer functions that work as documented, Reconcile writes the object without its finalizer
-- only if deletion is requested and the machine is released: it was never placed, or the runtime
-- answered that it is deleted or unknown, or the owner asked for a forced release and the node's
-- runtime could not be used.
pub reconcile_vm-KeepsFinalizer :
    (r : Reconciler) (vm : SmolVm) (h : History)
    → Documented r.deps
    → Holds (KeepsFinalizer r vm) AnyOutcome h (reconcile_vm r vm)
reconcile_vm-KeepsFinalizer r vm h documented =
    Holds-mono (reconcile_vm-Permitted r vm h) (Permitted-KeepsFinalizer r vm documented)
      (λ g o any. tt)
