-- ===== src/Study/Whole.antt =====
-- `_validated_plan` accepts a plan only if it is `==` to the document of valid inputs.
use mathlib.Core.Path.{subst}
use browserbench.Prelude.{
  ◌≤◌, String, ◌≡◌, refl, sym, ◌∙◌, true, false, List, [], ◌∷◌, map, str_eq, All, is_empty,
}
use browserbench.Json.{
  ◌>>=◌, eq_of_ok, require, >>=-eq-ok, Value, scalar, obj, arr, Fields, cons, plan_error, Py, ok,
  item_of, value_eq, same_keys,
}
use browserbench.Study.Texts.{is_study_id, is_sha256}
use browserbench.Study.Identity.{is_source, source_from_plan, runtime_from_plan}
use browserbench.Study.Conditions.{condition_key, Condition}
use browserbench.Study.Bindings.{
  positive, positive_or_fail, positive_steps, nonempty_text, binding_from_plan, TaskBinding,
}
use browserbench.Study.Matrix.{PlannedRun}
use browserbench.Study.Plan.{
  plan_fields, is_sorted, each, document_of, input_runs, plan_document, study_id_text,
  nonempty_list, read_condition, read_header, read_lists, read_tasks, read_conditions, read_inputs,
  validated_plan, PlanInputs, Header,
}
use browserbench.Study.Encoding.{IsPositiveReal, IsCondition, IsBinding}
use browserbench.Study.Rebuilt.{IsNonempty, IsPlanInputs}
use browserbench.Study.Fields.{
  source_from_plan-is_source, runtime_from_plan-is_sha256, nonempty_text-nonempty,
  positive_steps-pos, positive_or_fail-positive, study_id_text-is_study_id,
}
use browserbench.Study.Accepted.{
  read_condition-IsCondition, binding_from_plan-IsBinding, each-All, require-eq,
}

each-nonempty {ℓ κ} :
    {A : Type ℓ} {B : Type κ} (f : A → Py B) (xs : List A) (ys : List B)
    → each f xs ≡ ok ys
    → is_empty ys ≡ is_empty xs
unfolding each
each-nonempty f [] ys h = subst (λ zs. is_empty zs ≡ true) (eq_of_ok h) refl
each-nonempty f (x ∷ xs) ys h =
    let (y, _, h₁) = >>=-eq-ok (f x) _ h in
    let (zs, _, h₂) = >>=-eq-ok (each f xs) _ h₁ in
    subst (λ zs. is_empty zs ≡ false) (eq_of_ok h₂) refl

module _ (sha256 : Value → String) where
  nonempty_list-nonempty :
      (v : Value) (vs : List Value) → nonempty_list sha256 v ≡ ok vs → is_empty vs ≡ false
  unfolding nonempty_list
  nonempty_list-nonempty (arr (cons v ws)) vs h =
      subst (λ zs. is_empty zs ≡ false) (eq_of_ok h) refl
  nonempty_list-nonempty _ vs h = cc

  -- What the header has checked.
  record IsHeader (h : Header sha256) : Type 0 where
    study_id : is_study_id h.study_id ≡ true
    seed : str_eq h.seed "" ≡ false
    repetitions : 1 ≤ h.repetitions
    wall : IsPositiveReal h.study_wall_s
    source : is_source h.source ≡ true
    runtime : is_sha256 h.runtime.tree_sha256 ≡ true

  read_header-IsHeader :
      (fs : Fields) (hd : Header sha256) → read_header sha256 fs ≡ ok hd → IsHeader hd
  unfolding read_header
  read_header-IsHeader fs hd h =
      let (study_id, e₁, h₁) = >>=-eq-ok (study_id_text sha256 (item_of "study_id" fs)) _ h in
      let (seed, e₂, h₂) = >>=-eq-ok (nonempty_text (item_of "seed" fs)) _ h₁ in
      let (reps, e₃, h₃) = >>=-eq-ok (positive_steps (item_of "repetitions" fs)) _ h₂ in
      let (wall, e₄, h₄) =
        >>=-eq-ok (positive (item_of "study_wall_s" fs) >>= positive_or_fail) _ h₃ in
      let (source, e₅, h₅) = >>=-eq-ok (source_from_plan (item_of "source" fs)) _ h₄ in
      let (runtime, e₆, h₆) = >>=-eq-ok (runtime_from_plan (item_of "runtime" fs)) _ h₅ in
      subst IsHeader (eq_of_ok h₆) (record {
        study_id = study_id_text-is_study_id sha256 (item_of "study_id" fs) study_id e₁;
        seed = nonempty_text-nonempty (item_of "seed" fs) seed e₂;
        repetitions = positive_steps-pos (item_of "repetitions" fs) reps e₃;
        wall = positive_or_fail-positive (item_of "study_wall_s" fs) wall e₄;
        source = source_from_plan-is_source (item_of "source" fs) source e₅;
        runtime = runtime_from_plan-is_sha256 (item_of "runtime" fs) runtime e₆;
      })

  abbrev AreTasks : List TaskBinding → Type 0
  AreTasks ts = All IsBinding ts × (is_sorted (map (λ t. t.task_id) ts) ≡ true)

  read_tasks-AreTasks :
      (raw : List Value) (ts : List TaskBinding)
      → is_empty raw ≡ false
      → read_tasks sha256 raw ≡ ok ts
      → IsNonempty ts × AreTasks ts
  unfolding read_tasks
  read_tasks-AreTasks raw ts n h =
      let (ts', e, h₁) = >>=-eq-ok (each binding_from_plan raw) _ h in
      let (u, s, h₂) = >>=-eq-ok (require (is_sorted (map (λ t. t.task_id) ts')) plan_error) _ h₁ in
      subst (λ x. IsNonempty x × AreTasks x) (eq_of_ok h₂)
        (
          each-nonempty binding_from_plan raw ts' e ∙ n,
          (
            each-All binding_from_plan IsBinding raw ts' binding_from_plan-IsBinding e,
            require-eq (is_sorted (map (λ t. t.task_id) ts')) plan_error u s,
          ),
        )

  abbrev AreConditions : List Condition → Type 0
  AreConditions cs = All IsCondition cs × (is_sorted (map (condition_key sha256) cs) ≡ true)

  read_conditions-AreConditions :
      (raw : List Value) (cs : List Condition)
      → is_empty raw ≡ false
      → read_conditions sha256 raw ≡ ok cs
      → IsNonempty cs × AreConditions cs
  unfolding read_conditions
  read_conditions-AreConditions raw cs n h =
      let (cs', e, h₁) = >>=-eq-ok (each (read_condition sha256) raw) _ h in
      let (u, s, h₂) =
        >>=-eq-ok (require (is_sorted (map (condition_key sha256) cs')) plan_error) _ h₁ in
      subst (λ x. IsNonempty x × AreConditions x) (eq_of_ok h₂)
        (
          each-nonempty (read_condition sha256) raw cs' e ∙ n,
          (
            each-All (read_condition sha256) IsCondition raw cs' (read_condition-IsCondition sha256)
                e,
            require-eq (is_sorted (map (condition_key sha256) cs')) plan_error u s,
          ),
        )

  read_lists-nonempty :
      (fs : Fields) (raw : List Value × List Value)
      → read_lists sha256 fs ≡ ok raw
      → (is_empty raw.0 ≡ false) × (is_empty raw.1 ≡ false)
  unfolding read_lists
  read_lists-nonempty fs raw h =
      let (ts, e₁, h₁) = >>=-eq-ok (nonempty_list sha256 (item_of "tasks" fs)) _ h in
      let (cs, e₂, h₂) = >>=-eq-ok (nonempty_list sha256 (item_of "conditions" fs)) _ h₁ in
      subst (λ x. (is_empty x.0 ≡ false) × (is_empty x.1 ≡ false)) (eq_of_ok h₂)
        (
          nonempty_list-nonempty (item_of "tasks" fs) ts e₁,
          nonempty_list-nonempty (item_of "conditions" fs) cs e₂,
        )

  pub read_inputs-IsPlanInputs :
      (fs : Fields) (i : PlanInputs) → read_inputs sha256 fs ≡ ok i → IsPlanInputs sha256 i
  unfolding read_inputs
  read_inputs-IsPlanInputs fs i h =
      let (hd, e₁, h₁) = >>=-eq-ok (read_header sha256 fs) _ h in
      let (raw, e₂, h₂) = >>=-eq-ok (read_lists sha256 fs) _ h₁ in
      let (ts, e₃, h₃) = >>=-eq-ok (read_tasks sha256 raw.0) _ h₂ in
      let (cs, e₄, h₄) = >>=-eq-ok (read_conditions sha256 raw.1) _ h₃ in
      let head = read_header-IsHeader fs hd e₁ in
      let lists = read_lists-nonempty fs raw e₂ in
      let tasks = read_tasks-AreTasks raw.0 ts lists.0 e₃ in
      let arms = read_conditions-AreConditions raw.1 cs lists.1 e₄ in
      subst (IsPlanInputs sha256) (eq_of_ok h₄) (record {
        study_id = head.study_id;
        seed = head.seed;
        repetitions = head.repetitions;
        wall = head.wall;
        source = head.source;
        runtime = head.runtime;
        some_tasks = tasks.0;
        some_conditions = arms.0;
        tasks = tasks.1.0;
        conditions = arms.1.0;
        tasks_sorted = tasks.1.1;
        conditions_sorted = arms.1.1;
      })

  -- The fields of a plan are those of the document of `inputs`, in any order.
  pub record IsRebuilt (d : Fields) : Type 0 where
    pub inputs : PlanInputs
    pub runs : List PlannedRun
    pub valid : IsPlanInputs sha256 inputs
    pub scheduled : input_runs sha256 inputs ≡ ok runs
    pub same : value_eq (obj d) (obj (document_of sha256 inputs runs)) ≡ true

  -- An accepted plan is equal to what its own inputs rebuild, digests and schedule included.
  pub validated_plan-IsRebuilt :
      (v : Value) (d : Fields) → validated_plan sha256 v ≡ ok d → (v ≡ obj d) × IsRebuilt d
  unfolding validated_plan plan_document
  validated_plan-IsRebuilt (obj fs) d h =
      let (_, _, h₁) = >>=-eq-ok (require (same_keys plan_fields fs) plan_error) _ h in
      let (doc, h₂, h₃) = >>=-eq-ok (read_inputs sha256 fs >>= plan_document sha256) _ h₁ in
      let (i, e, e₂) = >>=-eq-ok (read_inputs sha256 fs) (plan_document sha256) h₂ in
      let (rs, e₃, same) = >>=-eq-ok (input_runs sha256 i) _ e₂ in
      let (u, e₄, h₄) = >>=-eq-ok (require (value_eq (obj fs) (obj doc)) plan_error) _ h₃ in
      let rebuilt : IsRebuilt fs = record {
        inputs = i;
        runs = rs;
        valid = read_inputs-IsPlanInputs fs i e;
        scheduled = e₃;
        same =
            subst (λ x. value_eq (obj fs) (obj x) ≡ true) (sym (eq_of_ok same))
              (require-eq (value_eq (obj fs) (obj doc)) plan_error u e₄);
      } in
      subst (λ x. (obj fs ≡ obj x) × IsRebuilt x) (eq_of_ok h₄) (refl, rebuilt)
  validated_plan-IsRebuilt (scalar a) d h = cc
  validated_plan-IsRebuilt (arr vs) d h = cc
