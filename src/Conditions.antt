-- ===== src/Conditions.antt =====
-- internal/pkg/conditions/conditions.go, and the versioned conditions of
-- apis/common/v1alpha1/condition_types.go. A time is a number; `now i` is the i-th reading of the
-- clock that a call makes, counted from 0.
pub mod Laws
pub mod Setting
use oneinfra.Base.{ℕ, suc, String, Bool, true, false, List, [], ◌∷◌, ◌++◌, ◌==◌, if◌then◌else◌}

pub record Condition : Type 0 where
  pub condition_type : String
  pub status : String
  pub last_transition_time : ℕ
  pub last_set_time : ℕ
  pub reason : String
  pub message : String

abbrev pub ConditionList : Type 0
ConditionList = List Condition

abbrev pub condition_true : String
condition_true = "True"

abbrev pub condition_false : String
condition_false = "False"

abbrev pub condition_unknown : String
condition_unknown = "Unknown"

unfoldable pub is_condition : ConditionList → String → String → Bool
is_condition [] condition_type status = false
is_condition (condition ∷ list) condition_type status =
    if condition.condition_type == condition_type
    then condition.status == status
    else is_condition list condition_type status

unfoldable pub drop_loop : String → ConditionList → ConditionList → ConditionList
drop_loop condition_type new_list [] = new_list
drop_loop condition_type new_list (condition ∷ list) =
    drop_loop condition_type
      (if condition.condition_type == condition_type then new_list else new_list ++ condition ∷ [])
      list

unfoldable pub drop_condition : ConditionList → String → ConditionList
unfolding drop_loop
drop_condition list condition_type = drop_loop condition_type [] list

-- A condition that SetCondition writes has neither reason nor message.
abbrev pub bare_condition : String → String → ℕ → ℕ → Condition
bare_condition condition_type status transition set = record {
  condition_type = condition_type;
  status = status;
  last_transition_time = transition;
  last_set_time = set;
  reason = "";
  message = "";
}

-- The variables of the loop of SetCondition, with the number of clock readings made.
pub record SetLoop : Type 0 where
  pub is_transitioning : Bool
  pub new_list : ConditionList
  pub readings : ℕ

abbrev pub set_body : (ℕ → ℕ) → String → String → Condition → SetLoop → SetLoop
set_body now condition_type status condition s =
    if condition.condition_type == condition_type
    then (if condition.status == status
        then record {
          is_transitioning = false;
          new_list =
              s.new_list
              ++ bare_condition condition.condition_type condition.status
                  condition.last_transition_time (now s.readings)
                ∷ [];
          readings = suc s.readings;
        }
        else s)
    else record s { new_list = s.new_list ++ condition ∷ [] }

unfoldable pub set_loop : (ℕ → ℕ) → String → String → SetLoop → ConditionList → SetLoop
set_loop now condition_type status s [] = s
set_loop now condition_type status s (condition ∷ list) =
    set_loop now condition_type status (set_body now condition_type status condition s) list

abbrev pub set_end : (ℕ → ℕ) → String → String → SetLoop → ConditionList
set_end now condition_type status s =
    if s.is_transitioning
    then s.new_list ++ bare_condition condition_type status (now s.readings) (now s.readings) ∷ []
    else s.new_list

unfoldable pub set_condition : (ℕ → ℕ) → ConditionList → String → String → ConditionList
unfolding set_loop
set_condition now list condition_type status = set_end now condition_type status (
    set_loop now condition_type status
      (record { is_transitioning = true; new_list = []; readings = 0 }) list)
