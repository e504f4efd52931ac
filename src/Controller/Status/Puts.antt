-- ===== src/Controller/Status/Puts.antt =====
-- One report that is put into the conditions of a status, or none.
use smolvm_operator.Prelude.{ne_of_test}
use smolvm_operator.Prelude.{
  ℕ, String, ◌≡◌, ◌≢◌, ◌⊎◌, inl, inr, refl, ◌∙◌, some, List, Bool-cases, str_eq, eq_iff,
}
use smolvm_operator.Api.{Condition, SmolVm}
use smolvm_operator.Controller.Conditions.Laws.{
  find_condition, Says, find_condition-set_condition, find_condition-set_condition_other,
  set_condition_settled,
}
use smolvm_operator.Controller.Status.{Report, put, put_if_given}

-- The conditions hold a report, for the generation of the object that was read.
abbrev pub Reports : SmolVm → String → Report → List Condition → Type 0
Reports latest type report cs =
    (c : Condition) × (find_condition type cs ≡ some c)
    × Says report.status report.reason report.message latest.meta.generation c

module _ (latest : SmolVm) where
  pub put-Reports :
      (time : ℕ) (type : String) (report : Report) (cs : List Condition)
      → Reports latest type report (put latest time type report cs)
  put-Reports time type report cs =
      let (c, found, says, of_type, when) =
        find_condition-set_condition time type report.status report.reason report.message
          latest.meta.generation cs in
      (c, found, says)

  pub put_other :
      (wanted : String) (time : ℕ) (type : String) (report : Report) (cs : List Condition)
      → wanted ≢ type
      → find_condition wanted (put latest time type report cs) ≡ find_condition wanted cs
  put_other wanted time type report cs ne =
      find_condition-set_condition_other time type report.status report.reason report.message
        latest.meta.generation wanted cs ne

  pub put_if_given_other :
      (wanted : String) (time : ℕ) (type : String) (report : Report) (cs : List Condition)
      → wanted ≢ type
      → find_condition wanted (put_if_given latest time type report cs) ≡ find_condition wanted cs
  put_if_given_other wanted time type report cs ne = elim (Bool-cases (str_eq report.reason "")) [
    | inl absent ↦ rw absent refl
    | inr given ↦ rw given (put_other wanted time type report cs ne)
  ]

  pub put_settled :
      (time : ℕ) (type : String) (report : Report) (cs : List Condition)
      → Reports latest type report cs
      → put latest time type report cs ≡ cs
  put_settled time type report cs (c, found, says) =
      set_condition_settled time type report.status report.reason report.message
        latest.meta.generation cs c found says

  -- A report that is given, or none.
  abbrev pub ReportsIfGiven : String → Report → List Condition → List Condition → Type 0
  ReportsIfGiven type report before after =
      ((report.reason ≡ "") × (find_condition type after ≡ find_condition type before))
      ⊎ ((report.reason ≢ "") × Reports latest type report after)

  pub put_if_given_settled :
      (time : ℕ) (type : String) (report : Report) (before cs : List Condition)
      → ReportsIfGiven type report before cs
      → put_if_given latest time type report cs ≡ cs
  put_if_given_settled time type report before cs (inl (absent, same)) = rw absent refl
  put_if_given_settled time type report before cs (inr (given, reports)) =
      elim (Bool-cases (str_eq report.reason "")) [
        | inl absent ↦ absurd (given ((eq_iff _ _).0 absent))
        | inr there ↦ rw there (put_settled time type report cs reports)
      ]

  pub put_if_given-ReportsIfGiven :
      (time : ℕ) (type : String) (report : Report) (before cs : List Condition)
      → find_condition type cs ≡ find_condition type before
      → ReportsIfGiven type report before (put_if_given latest time type report cs)
  put_if_given-ReportsIfGiven time type report before cs same =
      elim (Bool-cases (str_eq report.reason "")) [
        | inl absent ↦ inl ((eq_iff _ _).0 absent, rw absent same)
        | inr given ↦ inr (ne_of_test _ _ given, rw given (put-Reports time type report cs))
      ]

  pub carried :
      (type : String) (report : Report) (before cs after : List Condition)
      → find_condition type after ≡ find_condition type cs
      → ReportsIfGiven type report before cs
      → ReportsIfGiven type report before after
  carried type report before cs after same (inl (absent, old)) = inl (absent, same ∙ old)
  carried type report before cs after same (inr (given, (c, found, says))) =
      inr (given, (c, same ∙ found, says))
