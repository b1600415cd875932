-- ===== src/Study/Rebuilt.antt =====
-- `_validated_plan` accepts the document of valid inputs, and gives it back.
use browserbench.Prelude.{
  ℕ, ◌≤◌, String, ◌≡◌, refl, ap, true, false, Option, none, some, List, [], ◌∷◌, map, arith, str_eq,
  eq_refl, ltb, ==_iff, All, is_empty,
}
use browserbench.Json.{
  ℤ_eq, scalar_eq, is_str, lookup, items_list, Value, obj, arr, end, Py, ok, as_float, has_field,
  item_of, value_eq, items_eq, same_keys, ℤ_eq_refl, IsSelfEqual,
}
use browserbench.Study.Texts.{is_study_id, is_sha256}
use browserbench.Study.Identity.{
  source_to_dict, is_source, runtime_to_dict, source_from_plan-source_to_dict,
  runtime_from_plan-runtime_to_dict, PlanSource, RuntimeIdentity,
}
use browserbench.Study.Conditions.{
  condition_from_plan, text_or_null, number_or_null, condition_items, condition_key, Condition,
}
use browserbench.Study.Bindings.{
  positive, positive_steps, nonempty_text, binding_from_plan, binding_to_dict, TaskBinding,
}
use browserbench.Study.Matrix.{run_to_dict, PlannedRun}
use browserbench.Study.Plan.{
  items_of, plan_fields, is_sorted, each, frozen_items, keyed_condition, identity_items,
  identity_sha256, document_items, document_of, input_runs, plan_document, study_id_text,
  nonempty_list, read_condition, read_header, read_lists, read_tasks, read_conditions, read_inputs,
  validated_plan, PlanInputs,
}
use browserbench.Study.Encoding.{
  condition_from_plan-condition_items, IsPositiveReal, binding_from_plan-binding_to_dict,
  IsCondition, IsBinding,
}

source_to_dict-IsSelfEqual : (s : PlanSource) → IsSelfEqual (source_to_dict s)
unfolding source_to_dict value_eq has_field item_of lookup scalar_eq ℤ_eq
source_to_dict-IsSelfEqual s =
    rw (eq_refl s.release, eq_refl s.git_commit, eq_refl s.source_tree_sha256) refl

runtime_to_dict-IsSelfEqual : (r : RuntimeIdentity) → IsSelfEqual (runtime_to_dict r)
unfolding runtime_to_dict value_eq has_field item_of lookup scalar_eq
runtime_to_dict-IsSelfEqual r = rw (eq_refl r.tree_sha256) refl

binding_to_dict-IsSelfEqual : (t : TaskBinding) → IsSelfEqual (binding_to_dict t)
unfolding binding_to_dict value_eq has_field item_of lookup scalar_eq ℤ_eq
binding_to_dict-IsSelfEqual t =
    rw
      (
        eq_refl t.task_id,
        eq_refl t.definition_sha256,
        eq_refl t.freeze,
        ℤ_eq_refl t.wall_s,
        (==_iff t.steps t.steps).1 refl,
      )
      refl

text_or_null-IsSelfEqual : (o : Option String) → IsSelfEqual (text_or_null o)
unfolding value_eq scalar_eq
text_or_null-IsSelfEqual none = refl
text_or_null-IsSelfEqual (some s) = eq_refl s

number_or_null-IsSelfEqual : (o : Option ℕ) → IsSelfEqual (number_or_null o)
unfolding value_eq scalar_eq ℤ_eq
number_or_null-IsSelfEqual none = refl
number_or_null-IsSelfEqual (some n) = (==_iff n n).1 refl

run_to_dict-IsSelfEqual : (r : PlannedRun) → IsSelfEqual (run_to_dict r)
unfolding run_to_dict value_eq has_field item_of lookup scalar_eq ℤ_eq
run_to_dict-IsSelfEqual r =
    rw
      (
        (==_iff r.ordinal r.ordinal).1 refl,
        (==_iff r.repetition r.repetition).1 refl,
        eq_refl r.run_id,
        eq_refl r.task_id,
        eq_refl r.task_sha256,
        eq_refl r.condition_key,
        eq_refl r.random_order_sha256,
      )
      refl

items_of-map_self {ℓ} :
    {A : Type ℓ} (f : A → Value) (xs : List A)
    → ((x : A) → IsSelfEqual (f x))
    → items_eq (items_of (map f xs)) (items_of (map f xs)) ≡ true
unfolding items_of value_eq
items_of-map_self f [] h = refl
items_of-map_self f (x ∷ xs) h = rw (h x, items_of-map_self f xs h) refl

items_list-items_of : (vs : List Value) → items_list (items_of vs) ≡ vs
unfolding items_of
items_list-items_of [] = refl
items_list-items_of (v ∷ vs) = ap (◌∷◌ v) (items_list-items_of vs)

-- Each element reads back what was written.
each-map {ℓ} :
    {A : Type ℓ} (read : Value → Py A) (write : A → Value) (P : A → Type 0) (xs : List A)
    → ((x : A) → P x → read (write x) ≡ ok x)
    → All P xs
    → each read (map write xs) ≡ ok xs
unfolding each
each-map read write P [] h ps = refl
each-map read write P (x ∷ xs) h ps = rw (h x ps.0, each-map read write P xs h ps.1) refl

abbrev pub IsNonempty {ℓ} : {A : Type ℓ} → List A → Type 0
IsNonempty xs = is_empty xs ≡ false

module _ (sha256 : Value → String) where
  keyed_condition-IsSelfEqual : (c : Condition) → IsSelfEqual (keyed_condition sha256 c)
  unfolding keyed_condition condition_items value_eq has_field item_of lookup scalar_eq
  keyed_condition-IsSelfEqual c =
      rw
        (
          eq_refl (condition_key sha256 c),
          eq_refl c.baseline,
          text_or_null-IsSelfEqual c.provider,
          text_or_null-IsSelfEqual c.model,
          number_or_null-IsSelfEqual c.max_steps,
          eq_refl c.framework,
          eq_refl c.framework_version,
        )
        refl

  -- The inputs of a plan that the checks of `_validated_plan` let pass.
  pub record IsPlanInputs (i : PlanInputs) : Type 0 where
    pub study_id : is_study_id i.study_id ≡ true
    pub seed : str_eq i.seed "" ≡ false
    pub repetitions : 1 ≤ i.repetitions
    pub wall : IsPositiveReal i.study_wall_s
    pub source : is_source i.source ≡ true
    pub runtime : is_sha256 i.runtime.tree_sha256 ≡ true
    pub some_tasks : IsNonempty i.tasks
    pub some_conditions : IsNonempty i.conditions
    pub tasks : All IsBinding i.tasks
    pub conditions : All IsCondition i.conditions
    pub tasks_sorted : is_sorted (map (λ t. t.task_id) i.tasks) ≡ true
    pub conditions_sorted : is_sorted (map (condition_key sha256) i.conditions) ≡ true

  read_condition-keyed_condition :
      (c : Condition) → IsCondition c → read_condition sha256 (keyed_condition sha256 c) ≡ ok c
  unfolding read_condition frozen_items keyed_condition same_keys has_field item_of lookup is_str
      condition_items
  read_condition-keyed_condition c h =
      let read : condition_from_plan (condition_items c) ≡ ok c =
        condition_from_plan-condition_items c h in
      rw (read, eq_refl (condition_key sha256 c)) refl

  nonempty_list-map {ℓ} :
      {A : Type ℓ} (f : A → Value) (xs : List A)
      → IsNonempty xs
      → nonempty_list sha256 (arr (items_of (map f xs))) ≡ ok (map f xs)
  unfolding nonempty_list items_of
  nonempty_list-map f [] h = cc
  nonempty_list-map f (x ∷ xs) h = ap (λ vs. ok (f x ∷ vs)) (items_list-items_of (map f xs))

  module _ (i : PlanInputs) (rs : List PlannedRun) where
    document_of-IsSelfEqual : IsSelfEqual (obj (document_of sha256 i rs))
    unfolding document_of document_items identity_items value_eq has_field item_of lookup scalar_eq
        ℤ_eq
    document_of-IsSelfEqual =
        rw
          (
            eq_refl i.study_id,
            eq_refl i.seed,
            (==_iff i.repetitions i.repetitions).1 refl,
            ℤ_eq_refl i.study_wall_s,
            source_to_dict-IsSelfEqual i.source,
            runtime_to_dict-IsSelfEqual i.runtime,
            items_of-map_self binding_to_dict i.tasks binding_to_dict-IsSelfEqual,
            items_of-map_self (keyed_condition sha256) i.conditions keyed_condition-IsSelfEqual,
            items_of-map_self run_to_dict rs run_to_dict-IsSelfEqual,
            eq_refl (identity_sha256 sha256 i),
            eq_refl (sha256 (obj (document_items sha256 i rs end))),
          )
          refl

    read_inputs-document_of : IsPlanInputs i → read_inputs sha256 (document_of sha256 i rs) ≡ ok i
    unfolding read_inputs read_header read_lists read_tasks read_conditions document_of
        document_items identity_items item_of lookup study_id_text nonempty_text positive_steps
        positive as_float
    read_inputs-document_of h =
        let large : ltb i.repetitions 1 ≡ false = ground (arith, h.repetitions) in
        rw
          (
            h.study_id,
            h.seed,
            large,
            h.wall,
            source_from_plan-source_to_dict i.source h.source,
            runtime_from_plan-runtime_to_dict i.runtime h.runtime,
            nonempty_list-map binding_to_dict i.tasks h.some_tasks,
            nonempty_list-map (keyed_condition sha256) i.conditions h.some_conditions,
            each-map binding_from_plan binding_to_dict IsBinding i.tasks
                binding_from_plan-binding_to_dict h.tasks,
            h.tasks_sorted,
            each-map (read_condition sha256) (keyed_condition sha256) IsCondition i.conditions
                read_condition-keyed_condition h.conditions,
            h.conditions_sorted,
          )
          refl

    -- A plan made of valid inputs is accepted, and nothing of it is lost.
    pub validated_plan-document_of :
        IsPlanInputs i
        → input_runs sha256 i ≡ ok rs
        → validated_plan sha256 (obj (document_of sha256 i rs)) ≡ ok (document_of sha256 i rs)
    unfolding validated_plan plan_document same_keys has_field
    validated_plan-document_of h made =
        let keys : same_keys plan_fields (document_of sha256 i rs) ≡ true =
          unfold document_of in unfold document_items in unfold identity_items in refl in
        rw (keys, read_inputs-document_of h, made, document_of-IsSelfEqual) refl
