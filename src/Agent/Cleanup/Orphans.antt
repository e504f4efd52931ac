-- ===== src/Agent/Cleanup/Orphans.antt =====
-- What cleanupOrphans of cmd/runtime-agent/main.go does with one machine of the list.
use smolvm_operator.Prelude.{
  String, true, false, not, ◌≡◌, refl, ap, ◌∙◌, List, [], ◌∷◌, ◌++◌, sym, str_eq, eq_iff, arith,
  Bool-cases, inl, inr, if◌then◌else◌,
}
use smolvm_operator.Smolvm.{MachineInfo}
use smolvm_operator.Http.{◌>>=◌, Web}
use smolvm_operator.Http.Laws.{bind_assoc}
use smolvm_operator.Http.Paths.{has_prefix}
use smolvm_operator.Client
use smolvm_operator.Agent.{Agent}
use smolvm_operator.Agent.Cleanup.{is_owned, delete_orphans}

-- The machines but those of a name.
abbrev pub without : String → List MachineInfo → List MachineInfo
without name [] = []
without name (machine ∷ machines) =
    let rest = without name machines in if str_eq machine.name name then rest else machine ∷ rest

module _ (web : Web) (a : Agent) (owned : List String) where
  -- A machine that is owned may as well not be there.
  pub delete_orphans-owned :
      (name : String) (machines : List MachineInfo)
      → is_owned owned name ≡ true
      → delete_orphans web a owned machines ≡ delete_orphans web a owned (without name machines)
  unfolding delete_orphans
  delete_orphans-owned name [] keeps = refl
  delete_orphans-owned name (machine ∷ machines) keeps =
      elim (Bool-cases (str_eq machine.name name)) [
        | inl same ↦
            let spared : is_owned owned machine.name ≡ true =
              ap (is_owned owned) ((eq_iff machine.name name).0 same) ∙ keeps in
            rw (same, spared) (ground (arith, delete_orphans-owned name machines keeps))
        | inr other ↦ rw other (λ i.
            let rest = delete_orphans-owned name machines keeps i in
            if not (has_prefix machine.name "k8s-")
            then rest
            else if is_owned owned machine.name
            then rest
            else Client.delete_machine web a.smolvm machine.name >>= λ e. rest)
      ]

  -- One that is not is deleted in its turn.
  pub delete_orphans-middle :
      (before after : List MachineInfo) (machine : MachineInfo)
      → has_prefix machine.name "k8s-" ≡ true
      → is_owned owned machine.name ≡ false
      → delete_orphans web a owned (before ++ machine ∷ after) ≡ (
          delete_orphans web a owned before >>= λ done.
          Client.delete_machine web a.smolvm machine.name >>= λ e. delete_orphans web a owned after)
  unfolding delete_orphans
  delete_orphans-middle [] after machine prefixed orphan = rw (prefixed, orphan) refl
  delete_orphans-middle (first ∷ before) after machine prefixed orphan =
      let rest = delete_orphans-middle before after machine prefixed orphan in
      elim (Bool-cases (has_prefix first.name "k8s-")) [
        | inr other ↦ rw other rest
        | inl named ↦ elim (Bool-cases (is_owned owned first.name)) [
          | inl kept ↦ rw (named, kept) rest
          | inr taken ↦
              rw (named, taken)
                ((λ i. Client.delete_machine web a.smolvm first.name >>= λ e. rest i)
                  ∙ sym (bind_assoc (Client.delete_machine web a.smolvm first.name) _ _))
        ]
      ]
