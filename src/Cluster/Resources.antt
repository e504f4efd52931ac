-- ===== src/Cluster/Resources.antt =====
-- The machines on a node stay within what the node offers.
use smolvm_operator.Prelude.{
  ℕ, String, ◌≡◌, refl, ap, true, false, List, [], ◌∷◌, ◌++◌, ◌+◌, ◌≤◌, ◌<◌, ◌^◌, All, inl, inr,
  arith, str_eq, eq_iff, Bool-cases, if◌then◌else◌,
}
use smolvm_operator.Api.{SmolVm, SmolVmSpec, SmolVmNode}
use smolvm_operator.Controller.Fit.{is_bound_to_other, keep_bound, resource_fit_reason}
use smolvm_operator.Controller.Fit.Resources.{
  total_on, cpus_of, memory_of, storage_of, MemoryValid, cpu_exceeded_iff, memory_exceeded_iff,
  storage_exceeded_iff, resource_fit_reason-parts,
}
use smolvm_operator.Controller.Permitted.{deletion_requested}
use smolvm_operator.Cluster.{OtherUid, is_active, active}

-- What the active objects on a node ask for.
abbrev pub load : String → (SmolVm → ℕ) → List SmolVm → ℕ
load node_name amount store = total_on node_name amount (active store)

abbrev pub share : String → (SmolVm → ℕ) → SmolVm → ℕ
share node_name amount vm =
    if is_active vm then (if str_eq vm.status.node_name node_name then amount vm else 0) else 0

module _ (node_name : String) (amount : SmolVm → ℕ) where
  pub load-cons :
      (vm : SmolVm) (store : List SmolVm)
      → load node_name amount (vm ∷ store) ≡ share node_name amount vm + load node_name amount store
  unfolding active
  load-cons vm store = elim (Bool-cases (is_active vm)) [
    | inl on ↦ rw (active, on) refl
    | inr off ↦ rw (active, off) (omega arith)
  ]

  pub load-middle :
      (before after : List SmolVm) (vm : SmolVm)
      → load node_name amount (before ++ vm ∷ after)
        ≡ share node_name amount vm + load node_name amount (before ++ after)
  load-middle [] after vm = load-cons vm after
  load-middle (w ∷ before) after vm =
      let whole = load-cons w (before ++ vm ∷ after) in
      let rest = load-cons w (before ++ after) in
      omega (arith, whole, rest, load-middle before after vm)

  pub share-inactive : (vm : SmolVm) → is_active vm ≡ false → share node_name amount vm ≡ 0
  share-inactive vm off = rw off refl

  pub share-settled :
      (vm settled : SmolVm)
      → amount settled ≡ amount vm
      → settled.status.node_name ≡ vm.status.node_name
      → (deletion_requested vm ≡ true → deletion_requested settled ≡ true)
      → share node_name amount settled ≤ share node_name amount vm
  share-settled vm settled same node deleting =
      let test : str_eq settled.status.node_name "" ≡ str_eq vm.status.node_name "" =
        ap (λ name. str_eq name "") node in
      let here : str_eq settled.status.node_name node_name ≡ str_eq vm.status.node_name node_name =
        ap (λ name. str_eq name node_name) node in
      ground (arith, test, here, deleting, same)

-- boundVMs keeps the active objects but the one to place.
is_bound_to_other-active : (vm w : SmolVm) → OtherUid vm w → is_bound_to_other vm w ≡ is_active w
unfolding is_bound_to_other
is_bound_to_other-active vm w other = ground (arith, eq_iff w.meta.uid vm.meta.uid, other)

keep_bound-active :
    (vm : SmolVm) (items : List SmolVm)
    → All (OtherUid vm) items
    → keep_bound vm items ≡ active items
unfolding keep_bound active
keep_bound-active vm [] others = refl
keep_bound-active vm (w ∷ items) (other, others) = λ i.
    if is_bound_to_other-active vm w other i
    then w ∷ keep_bound-active vm items others i
    else keep_bound-active vm items others i

pub keep_bound-middle :
    (before after : List SmolVm) (vm : SmolVm)
    → All (OtherUid vm) (before ++ after)
    → keep_bound vm (before ++ vm ∷ after) ≡ active (before ++ after)
unfolding keep_bound active is_bound_to_other
keep_bound-middle [] after vm others =
    rw ((eq_iff vm.meta.uid vm.meta.uid).1 refl) (keep_bound-active vm after others)
keep_bound-middle (w ∷ before) after vm (other, others) = λ i.
    if is_bound_to_other-active vm w other i
    then w ∷ keep_bound-middle before after vm others i
    else keep_bound-middle before after vm others i

-- A spec whose sizes are not negative, and whose sums with what any node offers do not overflow.
pub record ModestOn (node : SmolVmNode) (spec : SmolVmSpec) : Type 0 where
  pub cpus : spec.resources.cpus + node.status.allocatable.cpus < 2 ^ 31
  pub memory_word : spec.resources.memory_mib < 2 ^ 31
  pub memory : spec.resources.memory_mib + node.status.allocatable.memory_mib < 2 ^ 63
  pub storage :
      spec.storage.storage_gib + spec.storage.overlay_gib + node.status.allocatable.storage_gib
      < 2 ^ 63

-- The machines on a node stay within each resource that it bounds.
pub record Within (node : SmolVmNode) (node_name : String) (store : List SmolVm) : Type 0 where
  pub cpus :
      0 < node.status.allocatable.cpus → load node_name cpus_of store ≤ node.status.allocatable.cpus
  pub memory :
      0 < node.status.allocatable.memory_mib
      → load node_name memory_of store ≤ node.status.allocatable.memory_mib
  pub storage :
      0 < node.status.allocatable.storage_gib
      → load node_name storage_of store ≤ node.status.allocatable.storage_gib

-- A store with no more load is within the same bounds.
pub Within-less :
    (node : SmolVmNode) (node_name : String) (s t : List SmolVm)
    → load node_name cpus_of t ≤ load node_name cpus_of s
    → load node_name memory_of t ≤ load node_name memory_of s
    → load node_name storage_of t ≤ load node_name storage_of s
    → Within node node_name s
    → Within node node_name t
Within-less node node_name s t cpus memory storage within = record {
  cpus = λ pos. omega (arith, cpus, within.cpus pos);
  memory = λ pos. omega (arith, memory, within.memory pos);
  storage = λ pos. omega (arith, storage, within.storage pos);
}

-- One object gives way to another that adds no more to the load.
pub Within-replace :
    (node : SmolVmNode) (node_name : String) (before after : List SmolVm) (vm new : SmolVm)
    → share node_name cpus_of new ≤ share node_name cpus_of vm
    → share node_name memory_of new ≤ share node_name memory_of vm
    → share node_name storage_of new ≤ share node_name storage_of vm
    → Within node node_name (before ++ vm ∷ after)
    → Within node node_name (before ++ new ∷ after)
Within-replace node node_name before after vm new cpus memory storage =
    Within-less node node_name (before ++ vm ∷ after) (before ++ new ∷ after) (less cpus_of cpus)
      (less memory_of memory) (less storage_of storage)
  where
    less :
        (amount : SmolVm → ℕ)
        → share node_name amount new ≤ share node_name amount vm
        → load node_name amount (before ++ new ∷ after)
          ≤ load node_name amount (before ++ vm ∷ after)
    less amount h = omega (
      arith,
      h,
      load-middle node_name amount before after vm,
      load-middle node_name amount before after new,
    )

module _ (node_of : String → SmolVmNode) where
  -- No spec is too large for the arithmetic on any node.
  abbrev pub Modest : SmolVmSpec → Type 0
  Modest spec = (node_name : String) → ModestOn (node_of node_name) spec

  pub Modest-MemoryValid :
      (store : List SmolVm) → All (λ vm. Modest vm.spec) store → MemoryValid (active store)
  unfolding active
  Modest-MemoryValid [] all = tt
  Modest-MemoryValid (vm ∷ store) (here, all) = elim (Bool-cases (is_active vm)) [
    | inl on ↦ rw (active, on) ((here "").memory_word, Modest-MemoryValid store all)
    | inr off ↦ rw (active, off) (Modest-MemoryValid store all)
  ]

-- The node accepts an object beside the active ones.
module _ (node : SmolVmNode) (before after : List SmolVm) (vm placed : SmolVm) where
  pub accepted-Within :
      placed.spec ≡ vm.spec
      → is_active vm ≡ false
      → ModestOn node vm.spec
      → MemoryValid (active (before ++ after))
      → resource_fit_reason node vm (active (before ++ after)) ≡ ""
      → Within node node.meta.name (before ++ vm ∷ after)
      → Within node node.meta.name (before ++ placed ∷ after)
  accepted-Within same off modest valid fits within =
      let name = node.meta.name in
      let bound = active (before ++ after) in
      let (cpu_fits, memory_fits, storage_fits) =
        (resource_fit_reason-parts node vm bound).0 fits in
      let fewer : (amount : SmolVm → ℕ)
          → load name amount (before ++ after) ≤ load name amount (before ++ vm ∷ after) =
        λ amount. omega (arith, load-middle name amount before after vm) in
      let more : (amount : SmolVm → ℕ)
          → amount placed ≡ amount vm
          → load name amount (before ++ placed ∷ after)
            ≤ load name amount (before ++ after) + amount vm =
        λ amount e. ground (arith, e, load-middle name amount before after placed) in
      record {
        cpus = λ pos. omega (
          arith,
          more cpus_of (ap (λ spec. spec.resources.cpus) same),
          (cpu_exceeded_iff node vm bound
                (omega (arith, modest.cpus, fewer cpus_of, within.cpus pos))
                (omega (arith, modest.cpus))).0
              cpu_fits pos,
        );
        memory = λ pos. omega (
          arith,
          more memory_of (ap (λ spec. spec.resources.memory_mib) same),
          (memory_exceeded_iff node vm bound (modest.memory_word, valid)
                (omega (arith, modest.memory, fewer memory_of, within.memory pos))
                (omega (arith, modest.memory))).0
              memory_fits pos,
        );
        storage = λ pos. omega (
          arith,
          more storage_of (ap (λ spec. spec.storage.storage_gib + spec.storage.overlay_gib) same),
          (storage_exceeded_iff node vm bound
                (omega (arith, modest.storage, fewer storage_of, within.storage pos))
                (omega (arith, modest.storage))).0
              storage_fits pos,
        );
      }
