-- ===== src/Study/Opened.antt =====
-- The properties of `StudyPlan`: what execution reads of a validated plan.
use browserbench.Prelude.{
  String, not, ◌&&◌, Option, none, some, List, [], ◌∷◌, ◌++◌, str_eq, if◌then◌else◌, any,
}
use browserbench.Json.{
  ◌>>=◌, require, is_str, items_list, ℤ, Value, obj, arr, Fields, plan_error, Py, ok, raise,
  item_of,
}
use browserbench.Study.Identity.{source_from_plan, runtime_from_plan, PlanSource, RuntimeIdentity}
use browserbench.Study.Conditions.{required_text, condition_from_plan, condition_key, Condition}
use browserbench.Study.Bindings.{positive, positive_or_fail, binding_from_plan, TaskBinding}
use browserbench.Study.Matrix.{run_from_mapping, PlannedRun}
use browserbench.Study.Plan.{each, frozen_items}

-- A plan with its properties read: `conditions` is the dict from keys.
pub record Study : Type 0 where
  pub study_id : String
  pub plan_sha256 : String
  pub study_wall_s : ℤ
  pub source : PlanSource
  pub runtime : RuntimeIdentity
  pub tasks : List TaskBinding
  pub conditions : List (String × Condition)
  pub planned : List PlannedRun

unfoldable pub find_condition : String → List (String × Condition) → Option Condition
find_condition k [] = none
find_condition k ((key, c) ∷ cs) = if str_eq k key then some c else find_condition k cs

-- tuple(f(value) for value in self.data[...])
unfoldable pub list_or_fail : Value → Py (List Value)
list_or_fail (arr vs) = ok (items_list vs)
list_or_fail _ = raise plan_error

module _ (sha256 : Value → String) where
  unfoldable pub add_condition : List (String × Condition) → Value → Py (List (String × Condition))
  unfolding frozen_items condition_from_plan is_str item_of condition_key find_condition
  add_condition known (obj fs) = condition_from_plan (frozen_items fs) >>= λ c.
      require
        (is_str (item_of "key" fs) (condition_key sha256 c)
          && not (any (λ k. str_eq k.0 (condition_key sha256 c)) known))
        plan_error
      >>= λ _. ok (known ++ (condition_key sha256 c, c) ∷ [])
  add_condition known _ = raise plan_error

  -- StudyPlan.conditions
  unfoldable pub plan_conditions :
      List (String × Condition) → List Value → Py (List (String × Condition))
  unfolding add_condition
  plan_conditions known [] = ok known
  plan_conditions known (v ∷ vs) = add_condition known v >>= λ more. plan_conditions more vs

  unfoldable pub open_plan : Fields → Py Study
  unfolding list_or_fail each binding_from_plan plan_conditions run_from_mapping source_from_plan
      runtime_from_plan required_text positive item_of
  open_plan fs = required_text (item_of "study_id" fs) >>= λ study_id.
      required_text (item_of "plan_sha256" fs) >>= λ digest.
      positive (item_of "study_wall_s" fs) >>= positive_or_fail >>= λ wall_s.
      source_from_plan (item_of "source" fs) >>= λ source.
      runtime_from_plan (item_of "runtime" fs) >>= λ runtime.
      list_or_fail (item_of "tasks" fs) >>= each binding_from_plan >>= λ tasks.
      list_or_fail (item_of "conditions" fs) >>= plan_conditions [] >>= λ conditions.
      list_or_fail (item_of "runs" fs) >>= each run_from_mapping >>= λ planned. ok (record {
        study_id = study_id;
        plan_sha256 = digest;
        study_wall_s = wall_s;
        source = source;
        runtime = runtime;
        tasks = tasks;
        conditions = conditions;
        planned = planned;
      })

  unfoldable pub find_task : String → List TaskBinding → Option TaskBinding
  find_task id [] = none
  find_task id (t ∷ ts) = if str_eq t.task_id id then some t else find_task id ts

  abbrev condition_or_fail : TaskBinding → Option Condition → Py (TaskBinding × Condition)
  condition_or_fail t none = raise plan_error
  condition_or_fail t (some c) = ok (t, c)

  -- _task_and_condition
  unfoldable pub task_and_condition : Study → PlannedRun → Py (TaskBinding × Condition)
  unfolding find_task find_condition
  task_and_condition s r = elim (find_task r.task_id s.tasks) [
    | none ↦ raise plan_error
    | some t ↦
        if str_eq t.definition_sha256 r.task_sha256
        then condition_or_fail t (find_condition r.condition_key s.conditions)
        else raise plan_error
  ]
