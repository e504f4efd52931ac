-- ===== src/Controller/Conditions/Laws.antt =====
-- What setCondition does to a list of conditions, told by the condition that each type has.
use smolvm_operator.Prelude.{
  ℕ, String, ◌≡◌, ◌≢◌, refl, ap, Bool, true, false, Option, none, some, List, [], ◌∷◌, Int64,
  Bool-cases, inl, inr, arith, str_eq, eq_iff, if◌then◌else◌, All,
}
use smolvm_operator.Api.{
  ConditionStatus, condition_true, condition_false, condition_unknown, unset, status_eq, Condition,
}
use smolvm_operator.Controller.Conditions.{
  update_condition, new_condition, set_condition, has_condition,
}

-- The condition of a type: the first one, as the source's loops find it.
unfoldable pub find_condition : String → List Condition → Option Condition
find_condition type [] = none
find_condition type (c ∷ cs) = if str_eq c.type type then some c else find_condition type cs

-- No two conditions have one type.
abbrev pub UniqueTypes : List Condition → Type 0
UniqueTypes [] = Unit
UniqueTypes (c ∷ cs) = All (λ other. c.type ≢ other.type) cs × UniqueTypes cs

pub status_eq_refl : (s : ConditionStatus) → status_eq s s ≡ true
status_eq_refl condition_true = refl
status_eq_refl condition_false = refl
status_eq_refl condition_unknown = refl
status_eq_refl unset = refl

-- What a condition says, its time aside.
pub record Says (status : ConditionStatus) (reason message : String) (generation : Int64)
    (c : Condition) : Type 0 where
  pub status_is : c.status ≡ status
  pub reason_is : c.reason ≡ reason
  pub message_is : c.message ≡ message
  pub generation_is : c.observed_generation ≡ generation

module _ (now : ℕ) (type : String) (status : ConditionStatus) (reason message : String)
    (generation : Int64) where
  abbrev written : List Condition → List Condition
  written = set_condition now type status reason message generation

  abbrev condition_after : Option Condition → Condition
  condition_after none = new_condition now type status reason message generation
  condition_after (some c) = update_condition now type status reason message generation c

  written_lem :
      (cs : List Condition)
      → find_condition type (written cs) ≡ some (condition_after (find_condition type cs))
  unfolding set_condition find_condition update_condition
  written_lem [] = ground (arith, eq_iff type type)
  written_lem (c ∷ cs) = elim (Bool-cases (str_eq c.type type)) [
    | inl same ↦ rw same (rw same refl)
    | inr other ↦ rw other (rw other (written_lem cs))
  ]

  find_condition-type :
      (cs : List Condition) (c : Condition) → find_condition type cs ≡ some c → c.type ≡ type
  unfolding find_condition
  find_condition-type [] c found = cc
  find_condition-type (d ∷ cs) c found =
      ground (arith, eq_iff d.type type, find_condition-type cs c)

  -- The time of the condition's last change of status, after the write.
  abbrev pub time_after : Option Condition → ℕ
  time_after none = now
  time_after (some c) = if status_eq c.status status then c.last_transition_time else now

  -- After setCondition the condition of its type says what was given, and its time is the old one
  -- exactly when there was such a condition with the same status.
  pub find_condition-set_condition :
      (cs : List Condition)
      → (c : Condition) × (find_condition type (written cs) ≡ some c)
        × Says status reason message generation c
        × (c.type ≡ type)
        × (c.last_transition_time ≡ time_after (find_condition type cs))
  unfolding update_condition new_condition
  find_condition-set_condition cs = (
    condition_after (find_condition type cs),
    written_lem cs,
    ground arith,
    find_condition-type (written cs) _ (written_lem cs),
    ground arith,
  )

  -- The conditions of the other types stay as they are.
  pub find_condition-set_condition_other :
      (wanted : String) (cs : List Condition)
      → wanted ≢ type
      → find_condition wanted (written cs) ≡ find_condition wanted cs
  unfolding set_condition find_condition
  find_condition-set_condition_other wanted [] ne = ground (arith, eq_iff type wanted)
  find_condition-set_condition_other wanted (c ∷ cs) ne = ground (
    arith,
    eq_iff c.type wanted,
    eq_iff c.type type,
    find_condition-set_condition_other wanted cs ne,
  )

  -- A condition that says already what is given is left as it is, and so is the whole list.
  pub set_condition_settled :
      (cs : List Condition) (c : Condition)
      → find_condition type cs ≡ some c
      → Says status reason message generation c
      → written cs ≡ cs
  unfolding set_condition find_condition update_condition
  set_condition_settled [] c found says = cc
  set_condition_settled (d ∷ cs) c found says = elim (Bool-cases (str_eq d.type type)) [
    | inl same ↦ rw same (ground (arith, status_eq_refl status))
    | inr other ↦
        rw other (ap (λ rest. d ∷ rest) (set_condition_settled cs c (rw other at found) says))
  ]

  other_types_kept :
      (t : String) (cs : List Condition)
      → t ≢ type
      → All (λ other. t ≢ other.type) cs
      → All (λ other. t ≢ other.type) (written cs)
  unfolding set_condition update_condition new_condition
  other_types_kept t [] ne all = (ne, tt)
  other_types_kept t (c ∷ cs) ne (here, all) = elim (Bool-cases (str_eq c.type type)) [
    | inl same ↦ rw same (here, all)
    | inr other ↦ rw other (here, other_types_kept t cs ne all)
  ]

  -- The types stay distinct.
  pub set_condition-UniqueTypes : (cs : List Condition) → UniqueTypes cs → UniqueTypes (written cs)
  unfolding set_condition update_condition new_condition
  set_condition-UniqueTypes [] unique = (tt, tt)
  set_condition-UniqueTypes (c ∷ cs) (fresh, unique) = elim (Bool-cases (str_eq c.type type)) [
    | inl same ↦ rw same (fresh, unique)
    | inr other ↦ rw other (
      other_types_kept c.type cs (ground (arith, eq_iff c.type type)) fresh,
      set_condition-UniqueTypes cs unique,
    )
  ]

pub has_condition_absent :
    (type : String) (status : ConditionStatus) (cs : List Condition)
    → All (λ other. type ≢ other.type) cs
    → has_condition cs type status ≡ false
unfolding has_condition
has_condition_absent type status [] absent = refl
has_condition_absent type status (c ∷ cs) (here, absent) =
    ground (arith, eq_iff c.type type, has_condition_absent type status cs absent)

abbrev status_of : Option Condition → ConditionStatus → Bool
status_of none status = false
status_of (some c) status = status_eq c.status status

-- Where the types are distinct, hasCondition asks for the status of the condition of its type.
pub has_condition-find_condition :
    (type : String) (status : ConditionStatus) (cs : List Condition)
    → UniqueTypes cs
    → has_condition cs type status ≡ status_of (find_condition type cs) status
unfolding has_condition find_condition
has_condition-find_condition type status [] unique = refl
has_condition-find_condition type status (c ∷ cs) (fresh, unique) =
    elim (Bool-cases (str_eq c.type type)) [
      | inl same ↦ rw same (
          ground (
            arith,
            has_condition_absent type status cs (rw ((eq_iff c.type type).0 same) at fresh),
          ))
      | inr other ↦ rw other (has_condition-find_condition type status cs unique)
    ]
