-- ===== src/Study/Plan.antt =====
-- The plan: its identity, the document with its digests, `build_plan` and `_validated_plan`.
use browserbench.Prelude.{
  ℕ, suc, String, Bool, true, false, not, ◌&&◌, Option, List, [], ◌∷◌, map, str_eq, if◌then◌else◌,
  any, is_empty, sort,
}
use Prim.Native.String.{◌++◌ as join}
use browserbench.Claim.{codes}
use browserbench.Json.{
  ◌>>=◌, require, is_str, items_list, ℤ, pos, negsuc, bool, int, real, str, Value, scalar, obj, arr,
  Fields, field, end, Items, cons, nil, plan_error, Py, ok, raise, item_of, value_eq, same_keys,
}
use browserbench.Server.{decimal}
use browserbench.Study.Texts.{is_name, is_study_id, codes_lt}
use browserbench.Study.Identity.{
  text, source_to_dict, source_from_plan, runtime_to_dict, runtime_from_plan, PlanSource,
  RuntimeIdentity,
}
use browserbench.Study.Conditions.{
  condition_from_mapping, condition_from_plan, condition_items, condition_key, Condition,
}
use browserbench.Study.Bindings.{
  positive, positive_or_fail, positive_steps, nonempty_text, binding_from_definition,
  binding_from_plan, binding_to_dict, TaskBinding,
}
use browserbench.Study.Matrix.{run_to_dict, runs, PlannedRun}

-- The arguments of `_plan_document`.
pub record PlanInputs : Type 0 where
  pub study_id : String
  pub seed : String
  pub repetitions : ℕ
  pub study_wall_s : ℤ
  pub source : PlanSource
  pub runtime : RuntimeIdentity
  pub tasks : List TaskBinding
  pub conditions : List Condition

unfoldable pub items_of : List Value → Items
items_of [] = nil
items_of (v ∷ vs) = cons v (items_of vs)

abbrev pub plan_fields : List String
plan_fields =
    "schema_version" ∷ "plan_hash_algorithm" ∷ "run_id_algorithm" ∷ "study_id"
    ∷ "canonical_receipts_required" ∷ "seed" ∷ "ordering" ∷ "repetitions" ∷ "study_wall_s"
    ∷ "treatment_assignment" ∷ "source" ∷ "runtime" ∷ "tasks" ∷ "conditions"
    ∷ "plan_identity_sha256" ∷ "runs" ∷ "plan_sha256" ∷ []

abbrev pub condition_keys : List String
condition_keys =
    "key" ∷ "baseline" ∷ "provider" ∷ "model" ∷ "max_steps" ∷ "framework" ∷ "framework_version" ∷ []

abbrev ordering : Value
ordering = obj (field "algorithm" (text "sha256-seed-sort-v1") (field "version" (text "1") end))

abbrev treatment_assignment : Value
treatment_assignment = obj (
    field "kind" (text "frozen-task-definition")
      (field "seeded_assignment_mutates_tasks" (scalar (bool false)) end))

unfoldable pub texts_eq : List String → List String → Bool
texts_eq [] [] = true
texts_eq (s ∷ ss) (t ∷ ts) = str_eq s t && texts_eq ss ts
texts_eq _ _ = false

unfoldable pub text_lt : String → String → Bool
unfolding codes_lt
text_lt s t = codes_lt (codes s) (codes t)

-- ids == sorted(ids)
unfoldable pub is_sorted : List String → Bool
unfolding texts_eq text_lt sort
is_sorted ids = texts_eq ids (sort text_lt ids)

-- len(set(ids)) == len(ids)
unfoldable pub is_distinct : List String → Bool
is_distinct [] = true
is_distinct (s ∷ ss) = not (any (str_eq s) ss) && is_distinct ss

-- [f(x) for x in xs], where f may raise
unfoldable pub each {ℓ κ} : {A : Type ℓ} {B : Type κ} → (A → Py B) → List A → Py (List B)
each f [] = ok []
each f (x ∷ xs) = f x >>= λ y. each f xs >>= λ ys. ok (y ∷ ys)

-- {name: item.get(name) for name in (...)}
unfoldable pub frozen_items : Fields → Fields
unfolding item_of
frozen_items fs = field "baseline" (item_of "baseline" fs) (
    field "provider" (item_of "provider" fs) (
      field "model" (item_of "model" fs) (
        field "max_steps" (item_of "max_steps" fs) (
          field "framework" (item_of "framework" fs)
            (field "framework_version" (item_of "framework_version" fs) end)))))

module _ (sha256 : Value → String) where
  unfoldable pub keyed_condition : Condition → Value
  unfolding condition_key condition_items
  keyed_condition c = obj (field "key" (text (condition_key sha256 c)) (condition_items c))

  -- _identity, with the items that follow it in the document
  unfoldable pub identity_items : PlanInputs → Fields → Fields
  unfolding source_to_dict runtime_to_dict binding_to_dict keyed_condition items_of
  identity_items i rest = field "schema_version" (text "btb-repetition-plan-v3") (
      field "plan_hash_algorithm" (text "sha256-canonical-json-v1") (
        field "run_id_algorithm" (text "sha256-plan-source-runtime-task-condition-repetition-v3") (
          field "study_id" (text i.study_id) (
            field "canonical_receipts_required" (scalar (bool true)) (
              field "seed" (text i.seed) (
                field "ordering" ordering (
                  field "repetitions" (scalar (int (pos i.repetitions))) (
                    field "study_wall_s" (scalar (real i.study_wall_s)) (
                      field "treatment_assignment" treatment_assignment (
                        field "source" (source_to_dict i.source) (
                          field "runtime" (runtime_to_dict i.runtime) (
                            field "tasks" (arr (items_of (map binding_to_dict i.tasks))) (
                              field "conditions" (arr (items_of (map keyed_condition i.conditions)))
                                rest)))))))))))))

  unfoldable pub identity_sha256 : PlanInputs → String
  unfolding identity_items
  identity_sha256 i = sha256 (obj (identity_items i end))

  unfoldable pub document_items : PlanInputs → List PlannedRun → Fields → Fields
  unfolding identity_items identity_sha256 run_to_dict items_of
  document_items i rs rest = identity_items i (
      field "plan_identity_sha256" (text (identity_sha256 i))
        (field "runs" (arr (items_of (map run_to_dict rs))) rest))

  unfoldable pub document_of : PlanInputs → List PlannedRun → Fields
  unfolding document_items
  document_of i rs =
      document_items i rs (field "plan_sha256" (text (sha256 (obj (document_items i rs end)))) end)

  unfoldable pub input_runs : PlanInputs → Py (List PlannedRun)
  unfolding runs identity_sha256
  input_runs i = runs sha256 (identity_sha256 i) i.seed i.repetitions i.tasks i.conditions

  -- _plan_document
  unfoldable pub plan_document : PlanInputs → Py Fields
  unfolding input_runs document_of
  plan_document i = input_runs i >>= λ rs. ok (document_of i rs)

  unfoldable pub study_id_text : Value → Py String
  unfolding is_name
  study_id_text (scalar (str s)) = if is_study_id s then ok s else raise plan_error
  study_id_text _ = raise plan_error

  -- A list with an element.
  unfoldable pub nonempty_list : Value → Py (List Value)
  nonempty_list (arr (cons v vs)) = ok (v ∷ items_list vs)
  nonempty_list _ = raise plan_error

  -- One entry of the plan's conditions, whose key must be the one of its content.
  unfoldable pub read_condition : Value → Py Condition
  unfolding same_keys condition_from_plan condition_key is_str item_of frozen_items
  read_condition (obj fs) = require (same_keys condition_keys fs) plan_error >>= λ _.
      condition_from_plan (frozen_items fs) >>= λ c.
      require (is_str (item_of "key" fs) (condition_key sha256 c)) plan_error >>= λ _. ok c
  read_condition _ = raise plan_error

  -- The names and numbers of a plan, its source and its runtime.
  pub record Header : Type 0 where
    pub study_id : String
    pub seed : String
    pub repetitions : ℕ
    pub study_wall_s : ℤ
    pub source : PlanSource
    pub runtime : RuntimeIdentity

  unfoldable pub read_header : Fields → Py Header
  unfolding study_id_text nonempty_text positive_steps positive source_from_plan runtime_from_plan
      item_of
  read_header fs = study_id_text (item_of "study_id" fs) >>= λ study_id.
      nonempty_text (item_of "seed" fs) >>= λ seed.
      positive_steps (item_of "repetitions" fs) >>= λ repetitions.
      positive (item_of "study_wall_s" fs) >>= positive_or_fail >>= λ wall_s.
      source_from_plan (item_of "source" fs) >>= λ source.
      runtime_from_plan (item_of "runtime" fs) >>= λ runtime. ok (record {
        study_id = study_id;
        seed = seed;
        repetitions = repetitions;
        study_wall_s = wall_s;
        source = source;
        runtime = runtime;
      })

  unfoldable pub read_lists : Fields → Py (List Value × List Value)
  unfolding nonempty_list item_of
  read_lists fs = nonempty_list (item_of "tasks" fs) >>= λ raw_tasks.
      nonempty_list (item_of "conditions" fs) >>= λ raw_conditions. ok (raw_tasks, raw_conditions)

  unfoldable pub read_tasks : List Value → Py (List TaskBinding)
  unfolding each binding_from_plan is_sorted
  read_tasks raw = each binding_from_plan raw >>= λ tasks.
      require (is_sorted (map (λ t. t.task_id) tasks)) plan_error >>= λ _. ok tasks

  unfoldable pub read_conditions : List Value → Py (List Condition)
  unfolding each read_condition is_sorted condition_key
  read_conditions raw = each read_condition raw >>= λ conditions.
      require (is_sorted (map (condition_key sha256) conditions)) plan_error >>= λ _. ok conditions

  abbrev inputs_of : Header → List TaskBinding → List Condition → PlanInputs
  inputs_of h tasks conditions = record {
    study_id = h.study_id;
    seed = h.seed;
    repetitions = h.repetitions;
    study_wall_s = h.study_wall_s;
    source = h.source;
    runtime = h.runtime;
    tasks = tasks;
    conditions = conditions;
  }

  -- What `_validated_plan` reads of a plan, before it rebuilds it.
  unfoldable pub read_inputs : Fields → Py PlanInputs
  unfolding read_header read_lists read_tasks read_conditions
  read_inputs fs = read_header fs >>= λ h. read_lists fs >>= λ raw. read_tasks raw.0 >>= λ tasks.
      read_conditions raw.1 >>= λ conditions. ok (inputs_of h tasks conditions)

  -- _validated_plan; the plan that it returns has the content of its argument.
  unfoldable pub validated_plan : Value → Py Fields
  unfolding same_keys read_inputs plan_document value_eq
  validated_plan (obj fs) = require (same_keys plan_fields fs) plan_error >>= λ _.
      read_inputs fs >>= plan_document >>= λ expected.
      require (value_eq (obj fs) (obj expected)) plan_error >>= λ _. ok fs
  validated_plan _ = raise plan_error

  -- `str(seed)` of a string or an integer that is no Boolean.
  unfoldable pub seed_text : Value → Py String
  unfolding decimal
  seed_text (scalar (str s)) = if str_eq s "" then raise plan_error else ok s
  seed_text (scalar (int (pos n))) = ok (decimal n)
  seed_text (scalar (int (negsuc n))) = ok (join "-" (decimal (suc n)))
  seed_text _ = raise plan_error

  -- The arguments of a caller of `build_plan`.
  pub record PlanRequest : Type 0 where
    pub study_id : Value
    pub seed : Value
    pub task_ids : List String
    pub conditions : List Fields
    pub repetitions : Value
    pub study_wall_s : Value

  -- build_plan, over the installed distributions, `load_definition` and what `_source_binding` and
  -- `RuntimeIdentity.current` give.
  unfoldable pub build_plan :
      (installed : String → Option String) (definition : String → Py Fields)
      (source_binding : Py PlanSource) (runtime : Py RuntimeIdentity)
      → PlanRequest
      → Py Fields
  unfolding study_id_text seed_text positive_steps positive is_distinct each binding_from_definition
      condition_from_mapping condition_key sort text_lt plan_document validated_plan
  build_plan installed definition source_binding runtime q =
      study_id_text q.study_id >>= λ study_id. seed_text q.seed >>= λ seed.
      positive_steps q.repetitions >>= λ repetitions.
      positive q.study_wall_s >>= positive_or_fail >>= λ wall_s.
      require (not (is_empty q.task_ids) && not (is_empty q.conditions)) plan_error >>= λ _.
      require (is_distinct q.task_ids) plan_error >>= λ _. source_binding >>= λ source.
      runtime >>= λ current.
      each (λ t. definition t >>= binding_from_definition sha256 t) q.task_ids >>= λ tasks.
      each (condition_from_mapping installed) q.conditions >>= λ conditions.
      require (is_distinct (map (condition_key sha256) conditions)) plan_error >>= λ _.
      plan_document (record {
        study_id = study_id;
        seed = seed;
        repetitions = repetitions;
        study_wall_s = wall_s;
        source = source;
        runtime = current;
        tasks = sort (λ a b. text_lt a.task_id b.task_id) tasks;
        conditions =
            sort (λ a b. text_lt (condition_key sha256 a) (condition_key sha256 b)) conditions;
      })
      >>= λ document. validated_plan (obj document)
