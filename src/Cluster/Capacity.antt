-- ===== src/Cluster/Capacity.antt =====
-- Every store that is reached keeps every node within what it offers.
use mathlib.Core.Path.{subst}
use smolvm_operator.Prelude.{
  ℕ, String, ◌≡◌, sym, ap, true, List, ◌∷◌, ◌++◌, ◌+◌, ◌≤◌, All, inl, inr, arith, str_eq, eq_iff,
  Bool-cases,
}
use smolvm_operator.Api.{SmolVm, SmolVmNode}
use smolvm_operator.Controller.Fit.{keep_bound, resource_fit_reason}
use smolvm_operator.Controller.Fit.Resources.{cpus_of, memory_of, storage_of}
use smolvm_operator.Controller.Permitted.{deletion_requested}
use smolvm_operator.Cluster.{
  OtherUid, Step, create, edit, settle, remove, place, Reach, empty, then_step, active,
}
use smolvm_operator.Cluster.Pairs.{All-middle, Pairwise-middle}
use smolvm_operator.Cluster.Ports.{Exclusive, OtherUid-sym, inactive, Reach-Exclusive}
use smolvm_operator.Cluster.Resources.{
  load, share, load-cons, load-middle, share-inactive, share-settled, keep_bound-middle, Within,
  Within-less, Within-replace, Modest, Modest-MemoryValid, accepted-Within,
}

module _ (node_of : String → SmolVmNode)
    (named : (node_name : String) → (node_of node_name).meta.name ≡ node_name) where
  -- Each spec is modest, and each node is within its bounds.
  pub record Capacity (store : List SmolVm) : Type 0 where
    pub modest : All (λ vm. Modest node_of vm.spec) store
    pub within : (node_name : String) → Within (node_of node_name) node_name store

  -- An object in the middle gives way to another.
  replaced-Capacity :
      (before after : List SmolVm) (vm new : SmolVm)
      → (Modest node_of vm.spec → Modest node_of new.spec)
      → ((node_name : String)
          → Within (node_of node_name) node_name (before ++ vm ∷ after)
          → Within (node_of node_name) node_name (before ++ new ∷ after))
      → Capacity (before ++ vm ∷ after)
      → Capacity (before ++ new ∷ after)
  replaced-Capacity before after vm new modest within held =
      let parts = (All-middle (λ w. Modest node_of w.spec) before after vm).0 held.modest in
      record {
        modest =
            (All-middle (λ w. Modest node_of w.spec) before after new).1 (modest parts.0, parts.1);
        within = λ node_name. within node_name (held.within node_name);
      }

  settled-Within :
      (before after : List SmolVm) (vm settled : SmolVm) (node_name : String)
      → settled.spec ≡ vm.spec
      → settled.status.node_name ≡ vm.status.node_name
      → (deletion_requested vm ≡ true → deletion_requested settled ≡ true)
      → Within (node_of node_name) node_name (before ++ vm ∷ after)
      → Within (node_of node_name) node_name (before ++ settled ∷ after)
  settled-Within before after vm settled node_name spec node deleting =
      Within-replace (node_of node_name) node_name before after vm settled
        (share-settled node_name cpus_of vm settled (ap (λ s. s.resources.cpus) spec) node deleting)
        (share-settled node_name memory_of vm settled (ap (λ s. s.resources.memory_mib) spec) node
          deleting)
        (share-settled node_name storage_of vm settled
          (ap (λ s. s.storage.storage_gib + s.storage.overlay_gib) spec) node deleting)

  -- An object that is on no node, or on another, adds nothing to a node.
  elsewhere-Within :
      (before after : List SmolVm) (vm new : SmolVm) (node_name : String)
      → ((amount : SmolVm → ℕ) → share node_name amount new ≡ 0)
      → Within (node_of node_name) node_name (before ++ vm ∷ after)
      → Within (node_of node_name) node_name (before ++ new ∷ after)
  elsewhere-Within before after vm new node_name none_here =
      Within-replace (node_of node_name) node_name before after vm new
        (omega (arith, none_here cpus_of)) (omega (arith, none_here memory_of))
        (omega (arith, none_here storage_of))

  placed-Within :
      (before after : List SmolVm) (vm placed : SmolVm)
      → placed.spec ≡ vm.spec
      → vm.status.node_name ≡ ""
      → resource_fit_reason
          (node_of placed.status.node_name)
          vm
          (keep_bound vm (before ++ vm ∷ after))
        ≡ ""
      → All (OtherUid vm) (before ++ after)
      → Capacity (before ++ vm ∷ after)
      → (node_name : String) → Within (node_of node_name) node_name (before ++ placed ∷ after)
  placed-Within before after vm placed spec unplaced fits others held node_name =
      elim (Bool-cases (str_eq placed.status.node_name node_name)) [
        | inr other ↦
            elsewhere-Within before after vm placed node_name (λ amount. ground (arith, other))
              (held.within node_name)
        | inl here ↦
            let parts = (All-middle (λ w. Modest node_of w.spec) before after vm).0 held.modest in
            let p = placed.status.node_name in
            subst (λ n. Within (node_of n) n (before ++ placed ∷ after))
              ((eq_iff p node_name).0 here)
              (subst (λ n. Within (node_of p) n (before ++ placed ∷ after)) (named p)
                (accepted-Within (node_of p) before after vm placed spec (inactive vm unplaced)
                  (parts.0 p) (Modest-MemoryValid node_of (before ++ after) parts.1)
                  (rw (keep_bound-middle before after vm others) at fits)
                  (subst (λ n. Within (node_of p) n (before ++ vm ∷ after)) (sym (named p))
                    (held.within p))))
      ]

  Step-Capacity :
      (s t : List SmolVm)
      → Exclusive s
      → Capacity s
      → Step node_of (Modest node_of) s t
      → Capacity t
  Step-Capacity s _ exclusive held (create vm unplaced allowed fresh) = record {
    modest = (allowed, held.modest);
    within = λ node_name.
        let same : (amount : SmolVm → ℕ)
            → load node_name amount (vm ∷ s) ≤ load node_name amount s =
          λ amount. omega (
            arith,
            load-cons node_name amount vm s,
            share-inactive node_name amount vm (inactive vm unplaced),
          ) in
        Within-less (node_of node_name) node_name s (vm ∷ s) (same cpus_of) (same memory_of)
          (same storage_of) (held.within node_name);
  }
  Step-Capacity _ _ exclusive held (edit before after vm edited same unplaced still allowed) =
      replaced-Capacity before after vm edited (λ modest. allowed)
        (λ node_name.
          elsewhere-Within before after vm edited node_name
            (λ amount. share-inactive node_name amount edited (inactive edited still)))
        held
  Step-Capacity _ _ exclusive held (settle before after vm settled same spec node deleting) =
      replaced-Capacity before after vm settled (subst (Modest node_of) (sym spec))
        (λ node_name. settled-Within before after vm settled node_name spec node deleting) held
  Step-Capacity _ _ exclusive held (remove before after vm) = record {
    modest = ((All-middle (λ w. Modest node_of w.spec) before after vm).0 held.modest).1;
    within = λ node_name.
        let less : (amount : SmolVm → ℕ)
            → load node_name amount (before ++ after)
              ≤ load node_name amount (before ++ vm ∷ after) =
          λ amount. omega (arith, load-middle node_name amount before after vm) in
        Within-less (node_of node_name) node_name (before ++ vm ∷ after) (before ++ after)
          (less cpus_of) (less memory_of) (less storage_of) (held.within node_name);
  }
  Step-Capacity _ _ exclusive held (place before after vm placed same spec unplaced fits free) =
      let others =
        ((Pairwise-middle OtherUid OtherUid-sym before after vm).0 exclusive.distinct).0 in
      let parts = (All-middle (λ w. Modest node_of w.spec) before after vm).0 held.modest in
      record {
        modest =
            (All-middle (λ w. Modest node_of w.spec) before after placed).1
              (subst (Modest node_of) (sym spec) parts.0, parts.1);
        within = placed-Within before after vm placed spec unplaced fits others held;
      }

  -- If users create objects, edit those that are not placed yet, and delete objects, in any order, if their
  -- specs are modest, and if the controller places each object by the tests on the store as it is: on every
  -- node, what the objects ask for that are placed there and are not being deleted stays within each
  -- resource that the node bounds. A step that edits the spec of a placed object, which the API allows, is
  -- left out: it may take a node past what it offers.
  pub Reach-Capacity : (store : List SmolVm) → Reach node_of (Modest node_of) store → Capacity store
  unfolding active
  Reach-Capacity _ empty = record {
    modest = tt;
    within = λ node_name. record {
      cpus = λ pos. omega arith;
      memory = λ pos. omega arith;
      storage = λ pos. omega arith;
    };
  }
  Reach-Capacity _ (then_step {s} {t} reached step) =
      Step-Capacity s t (Reach-Exclusive node_of (Modest node_of) s reached)
        (Reach-Capacity s reached) step
