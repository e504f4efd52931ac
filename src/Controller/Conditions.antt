-- ===== src/Controller/Conditions.antt =====
-- setCondition and hasCondition of internal/controller/smolvm_controller.go. metav1.Now() is read by
-- the caller and passed in.
pub mod Laws
use smolvm_operator.Prelude.{
  ℕ, String, Bool, true, false, ◌&&◌, List, [], ◌∷◌, Int64, str_eq, if◌then◌else◌,
}
use smolvm_operator.Api.{ConditionStatus, status_eq, Condition}

module _ (now : ℕ) (type : String) (status : ConditionStatus) (reason message : String)
    (generation : Int64) where
  -- The loop's body at the condition of the right type.
  update_condition : Condition → Condition
  update_condition c = record c {
    last_transition_time = if status_eq c.status status then c.last_transition_time else now;
    status = status;
    reason = reason;
    message = message;
    observed_generation = generation;
  }

  new_condition : Condition
  new_condition = record {
    type = type;
    status = status;
    reason = reason;
    message = message;
    observed_generation = generation;
    last_transition_time = now;
  }

  unfoldable pub set_condition : List Condition → List Condition
  unfolding update_condition new_condition
  set_condition [] = new_condition ∷ []
  set_condition (c ∷ cs) =
      if str_eq c.type type then update_condition c ∷ cs else c ∷ set_condition cs

unfoldable pub has_condition : List Condition → String → ConditionStatus → Bool
has_condition [] type status = false
has_condition (c ∷ cs) type status =
    if str_eq c.type type && status_eq c.status status then true else has_condition cs type status
