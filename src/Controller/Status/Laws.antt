-- ===== src/Controller/Status/Laws.antt =====
-- What updateStatus writes into the conditions of a status.
use smolvm_operator.Prelude.{ne_of_test}
use smolvm_operator.Prelude.{String, ◌≡◌, ◌≢◌, refl, ◌∙◌, List}
use smolvm_operator.Api.{
  Condition, SmolVm, condition_ready, condition_runtime_ready, condition_guest_ready,
  condition_reconciled, condition_scheduled, condition_deletion_blocked,
}
use smolvm_operator.Controller.Conditions.Laws.{find_condition}
use smolvm_operator.Controller.Status.{
  StatusInput, scheduled_report, guest_report, Times, put, put_if_given, next_conditions,
}
use smolvm_operator.Controller.Status.Puts.{
  Reports, ReportsIfGiven, put-Reports, put_other, put_if_given_other, put_if_given-ReportsIfGiven,
  carried,
}

-- What every status update leaves in the conditions `after`, given those `before`.
pub record Reported (given : StatusInput) (latest : SmolVm) (before after : List Condition)
    : Type 0 where
  pub scheduled : ReportsIfGiven latest condition_scheduled (scheduled_report given) before after
  pub ready : Reports latest condition_ready given.ready after
  pub runtime_ready : Reports latest condition_runtime_ready given.ready after
  pub guest_ready : Reports latest condition_guest_ready guest_report after
  pub reconciled : Reports latest condition_reconciled given.recon after
  pub deletion_blocked :
      ReportsIfGiven latest condition_deletion_blocked given.deletion_blocked before after
  pub others :
      (type : String)
      → type ≢ condition_scheduled
      → type ≢ condition_ready
      → type ≢ condition_runtime_ready
      → type ≢ condition_guest_ready
      → type ≢ condition_reconciled
      → type ≢ condition_deletion_blocked
      → find_condition type after ≡ find_condition type before

module _ (given : StatusInput) (latest : SmolVm) (t : Times) where
  abbrev c1 : List Condition
  c1 =
      put_if_given latest t.scheduled condition_scheduled (scheduled_report given)
        latest.status.conditions

  abbrev c2 : List Condition
  c2 = put latest t.ready condition_ready given.ready c1

  abbrev c3 : List Condition
  c3 = put latest t.runtime_ready condition_runtime_ready given.ready c2

  abbrev c4 : List Condition
  c4 = put latest t.guest_ready condition_guest_ready guest_report c3

  abbrev c5 : List Condition
  c5 = put latest t.reconciled condition_reconciled given.recon c4

  abbrev c6 : List Condition
  c6 = put_if_given latest t.deletion_blocked condition_deletion_blocked given.deletion_blocked c5

  -- From one list to the next, the conditions of the other types stay.
  kept1 :
      (w : String)
      → w ≢ condition_scheduled
      → find_condition w c1 ≡ find_condition w latest.status.conditions
  kept1 w ne =
      put_if_given_other latest w t.scheduled condition_scheduled (scheduled_report given) _ ne

  kept2 : (w : String) → w ≢ condition_ready → find_condition w c2 ≡ find_condition w c1
  kept2 w ne = put_other latest w t.ready condition_ready given.ready c1 ne

  kept3 : (w : String) → w ≢ condition_runtime_ready → find_condition w c3 ≡ find_condition w c2
  kept3 w ne = put_other latest w t.runtime_ready condition_runtime_ready given.ready c2 ne

  kept4 : (w : String) → w ≢ condition_guest_ready → find_condition w c4 ≡ find_condition w c3
  kept4 w ne = put_other latest w t.guest_ready condition_guest_ready guest_report c3 ne

  kept5 : (w : String) → w ≢ condition_reconciled → find_condition w c5 ≡ find_condition w c4
  kept5 w ne = put_other latest w t.reconciled condition_reconciled given.recon c4 ne

  kept6 : (w : String) → w ≢ condition_deletion_blocked → find_condition w c6 ≡ find_condition w c5
  kept6 w ne =
      put_if_given_other latest w t.deletion_blocked condition_deletion_blocked
        given.deletion_blocked c5 ne

  kept_after_scheduled :
      find_condition condition_scheduled c6 ≡ find_condition condition_scheduled c1
  kept_after_scheduled =
      kept6 _ (ne_of_test _ _ refl)
      ∙ kept5 _ (ne_of_test _ _ refl)
      ∙ kept4 _ (ne_of_test _ _ refl)
      ∙ kept3 _ (ne_of_test _ _ refl)
      ∙ kept2 _ (ne_of_test _ _ refl)

  pub next_conditions-Reported :
      Reported given latest latest.status.conditions (next_conditions given latest t)
  unfolding next_conditions
  next_conditions-Reported = record {
    scheduled =
        carried latest condition_scheduled (scheduled_report given) latest.status.conditions c1 c6
          kept_after_scheduled
          (put_if_given-ReportsIfGiven latest t.scheduled condition_scheduled
            (scheduled_report given) latest.status.conditions latest.status.conditions refl);
    ready =
        let (c, found, says) = put-Reports latest t.ready condition_ready given.ready c1 in
        (
          c,
          kept6 _ (ne_of_test _ _ refl)
              ∙ kept5 _ (ne_of_test _ _ refl)
              ∙ kept4 _ (ne_of_test _ _ refl)
              ∙ kept3 _ (ne_of_test _ _ refl)
              ∙ found,
          says,
        );
    runtime_ready =
        let (c, found, says) =
          put-Reports latest t.runtime_ready condition_runtime_ready given.ready c2 in
        (
          c,
          kept6 _ (ne_of_test _ _ refl)
              ∙ kept5 _ (ne_of_test _ _ refl)
              ∙ kept4 _ (ne_of_test _ _ refl)
              ∙ found,
          says,
        );
    guest_ready =
        let (c, found, says) =
          put-Reports latest t.guest_ready condition_guest_ready guest_report c3 in
        (c, kept6 _ (ne_of_test _ _ refl) ∙ kept5 _ (ne_of_test _ _ refl) ∙ found, says);
    reconciled =
        let (c, found, says) =
          put-Reports latest t.reconciled condition_reconciled given.recon c4 in
        (c, kept6 _ (ne_of_test _ _ refl) ∙ found, says);
    deletion_blocked =
        put_if_given-ReportsIfGiven latest t.deletion_blocked condition_deletion_blocked
          given.deletion_blocked latest.status.conditions c5
          (kept5 _ (ne_of_test _ _ refl)
            ∙ kept4 _ (ne_of_test _ _ refl)
            ∙ kept3 _ (ne_of_test _ _ refl)
            ∙ kept2 _ (ne_of_test _ _ refl)
            ∙ kept1 _ (ne_of_test _ _ refl));
    others = λ w n1 n2 n3 n4 n5 n6.
        kept6 w n6 ∙ kept5 w n5 ∙ kept4 w n4 ∙ kept3 w n3 ∙ kept2 w n2 ∙ kept1 w n1;
  }
