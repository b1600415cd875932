-- ===== src/Study/Bindings.antt =====
-- `TaskBinding`: the identity and the budgets of a task, frozen into a plan.
use browserbench.Prelude.{
  ℕ, String, Bool, false, Option, none, some, [], ◌∷◌, str_eq, ltb, if◌then◌else◌,
}
use browserbench.Json.{
  ◌>>=◌, require, is_str, ℤ, pos, negsuc, int, real, str, Value, scalar, obj, Fields, field, end,
  plan_error, Py, ok, raise, as_float, item_of, same_keys,
}
use browserbench.Study.Texts.{is_sha256}
use browserbench.Study.Identity.{text}

-- `wall_s` is a float.
pub record TaskBinding : Type 0 where
  pub task_id : String
  pub definition_sha256 : String
  pub freeze : String
  pub steps : ℕ
  pub wall_s : ℤ

abbrev pub is_positive_real : ℤ → Bool
is_positive_real (pos n) = ltb 0 n
is_positive_real (negsuc n) = false

-- _positive, with the float of the value: `none` where it is no number or not above 0.
unfoldable pub positive : Value → Py (Option ℤ)
unfolding as_float
positive v = as_float v >>= λ o. elim o [
  | none ↦ ok none
  | some x ↦ ok (if is_positive_real x then some x else none)
]

abbrev pub positive_or_fail : Option ℤ → Py ℤ
positive_or_fail none = raise plan_error
positive_or_fail (some x) = ok x

unfoldable pub positive_steps : Value → Py ℕ
positive_steps (scalar (int (pos n))) = if ltb n 1 then raise plan_error else ok n
positive_steps _ = raise plan_error

unfoldable pub nonempty_text : Value → Py String
nonempty_text (scalar (str s)) = if str_eq s "" then raise plan_error else ok s
nonempty_text _ = raise plan_error

unfoldable pub fields_or_fail : Value → Py Fields
fields_or_fail (obj fs) = ok fs
fields_or_fail _ = raise plan_error

-- TaskBinding.from_definition of a definition that is a JSON object
unfoldable pub binding_from_definition :
    (sha256 : Value → String) → (task_id : String) → Fields → Py TaskBinding
unfolding item_of is_str fields_or_fail nonempty_text positive_steps positive
binding_from_definition sha256 task_id fs =
    require (is_str (item_of "id" fs) task_id) plan_error >>= λ _.
    fields_or_fail (item_of "budget" fs) >>= λ budget.
    nonempty_text (item_of "freeze" fs) >>= λ freeze.
    positive_steps (item_of "steps" budget) >>= λ steps.
    positive (item_of "wall_s" budget) >>= positive_or_fail >>= λ wall_s. ok (record {
      task_id = task_id;
      definition_sha256 = sha256 (obj fs);
      freeze = freeze;
      steps = steps;
      wall_s = wall_s;
    })

unfoldable pub digest_text : Value → Py String
unfolding is_sha256
digest_text (scalar (str s)) = if is_sha256 s then ok s else raise plan_error
digest_text _ = raise plan_error

unfoldable pub binding_of : Fields → Py TaskBinding
unfolding item_of fields_or_fail nonempty_text digest_text positive_steps positive
binding_of fs = nonempty_text (item_of "id" fs) >>= λ task_id.
    digest_text (item_of "definition_sha256" fs) >>= λ digest.
    nonempty_text (item_of "freeze" fs) >>= λ freeze.
    fields_or_fail (item_of "budget" fs) >>= λ budget.
    positive_steps (item_of "steps" budget) >>= λ steps.
    positive (item_of "wall_s" budget) >>= positive_or_fail >>= λ wall_s. ok (record {
      task_id = task_id;
      definition_sha256 = digest;
      freeze = freeze;
      steps = steps;
      wall_s = wall_s;
    })

-- TaskBinding.from_plan
unfoldable pub binding_from_plan : Value → Py TaskBinding
unfolding same_keys binding_of
binding_from_plan (obj fs) =
    if same_keys ("id" ∷ "definition_sha256" ∷ "freeze" ∷ "budget" ∷ []) fs
    then binding_of fs
    else raise plan_error
binding_from_plan _ = raise plan_error

-- TaskBinding.to_dict
unfoldable pub binding_to_dict : TaskBinding → Value
binding_to_dict t = obj (
    field "id" (text t.task_id) (
      field "definition_sha256" (text t.definition_sha256) (
        field "freeze" (text t.freeze) (
          field "budget"
            (obj (
              field "steps" (scalar (int (pos t.steps)))
                (field "wall_s" (scalar (real t.wall_s)) end)))
            end))))
