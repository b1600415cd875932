-- ===== src/Study/Accepted.antt =====
-- What `_validated_plan` has established of a plan that it accepts.
use mathlib.Core.Path.{subst}
use browserbench.Prelude.{
  String, ◌≡◌, refl, inl, inr, Bool, true, false, ◌||◌, List, [], ◌∷◌, Bool-cases, All,
}
use browserbench.Json.{
  ◌>>=◌, eq_of_ok, require, >>=-eq-ok, is_str, str, Value, scalar, obj, arr, Fields, PyError,
  plan_error, Py, ok, raise, item_of, same_keys,
}
use browserbench.Study.Conditions.{
  is_valid_arm, optional_text, optional_steps, required_text, normal_provider, normal_model,
  is_given_empty, checked_arm, normalized_condition_fields, condition_fields, is_frozen_framework,
  frozen_condition, condition_from_plan, condition_key, Condition, Arm,
}
use browserbench.Study.Bindings.{
  positive, positive_or_fail, positive_steps, nonempty_text, fields_or_fail, digest_text,
  binding_of, binding_from_plan, TaskBinding,
}
use browserbench.Study.Plan.{condition_keys, each, frozen_items, read_condition}
use browserbench.Study.Encoding.{HasSteps, IsCondition, IsBinding}
use browserbench.Study.Fields.{
  nonempty_text-nonempty, digest_text-is_sha256, positive_steps-pos, optional_steps-HasSteps,
  positive_or_fail-positive,
}

checked_arm-is_valid_arm : (a b : Arm) → checked_arm a ≡ ok b → is_valid_arm b ≡ true
unfolding checked_arm
checked_arm-is_valid_arm a b h =
    elim (Bool-cases (is_given_empty a.provider || is_given_empty a.model)) [
      | inl e ↦ let bad : ◌≡◌ {A = Py Arm} (raise plan_error) (ok b) = rw e at h in cc
      | inr e ↦ elim (Bool-cases (is_valid_arm a)) [
        | inl v ↦ subst (λ x. is_valid_arm x ≡ true) (eq_of_ok (rw (e, v) at h)) v
        | inr v ↦ let bad : ◌≡◌ {A = Py Arm} (raise plan_error) (ok b) = rw (e, v) at h in cc
      ]
    ]

checked_arm-eq : (a b : Arm) → checked_arm a ≡ ok b → a ≡ b
unfolding checked_arm
checked_arm-eq a b h = elim (Bool-cases (is_given_empty a.provider || is_given_empty a.model)) [
  | inl e ↦ let bad : ◌≡◌ {A = Py Arm} (raise plan_error) (ok b) = rw e at h in cc
  | inr e ↦ elim (Bool-cases (is_valid_arm a)) [
    | inl v ↦ eq_of_ok (rw (e, v) at h)
    | inr v ↦ let bad : ◌≡◌ {A = Py Arm} (raise plan_error) (ok b) = rw (e, v) at h in cc
  ]
]

pub normalized_condition_fields-valid :
    (fs : Fields) (a : Arm)
    → normalized_condition_fields fs ≡ ok a
    → (is_valid_arm a ≡ true) × HasSteps a.max_steps
unfolding normalized_condition_fields
normalized_condition_fields-valid fs a h =
    let (b, _, h₁) = >>=-eq-ok (required_text (item_of "baseline" fs)) _ h in
    let (p, _, h₂) = >>=-eq-ok (optional_text (item_of "provider" fs)) _ h₁ in
    let (m, _, h₃) = >>=-eq-ok (optional_text (item_of "model" fs)) _ h₂ in
    let (n, e, h₄) = >>=-eq-ok (optional_steps (item_of "max_steps" fs)) _ h₃ in
    let made : Arm = record {
      baseline = b;
      provider = normal_provider p;
      model = normal_model m;
      max_steps = n;
    } in
    (
      checked_arm-is_valid_arm made a h₄,
      subst (λ x. HasSteps x.max_steps) (checked_arm-eq made a h₄)
          (optional_steps-HasSteps (item_of "max_steps" fs) n e),
    )

frozen_condition-IsCondition :
    (a : Arm) (f v : Value) (c : Condition)
    → is_valid_arm a ≡ true
    → HasSteps a.max_steps
    → frozen_condition a f v ≡ ok c
    → IsCondition c
unfolding frozen_condition
frozen_condition-IsCondition a (scalar (str f)) (scalar (str v)) c p s h =
    elim (Bool-cases (is_frozen_framework a.baseline f v)) [
      | inl e ↦ subst IsCondition (eq_of_ok (rw e at h)) (record { arm = p; steps = s; frozen = e })
      | inr e ↦ let bad : ◌≡◌ {A = Py Condition} (raise plan_error) (ok c) = rw e at h in cc
    ]
frozen_condition-IsCondition a _ _ c p s h = cc

condition_from_plan-IsCondition :
    (fs : Fields) (c : Condition) → condition_from_plan fs ≡ ok c → IsCondition c
unfolding condition_from_plan
condition_from_plan-IsCondition fs c h =
    let (_, _, h₁) = >>=-eq-ok (require (same_keys condition_fields fs) plan_error) _ h in
    let (a, e, h₂) = >>=-eq-ok (normalized_condition_fields fs) _ h₁ in
    let (p, s) = normalized_condition_fields-valid fs a e in
    frozen_condition-IsCondition a (item_of "framework" fs) (item_of "framework_version" fs) c p s
      h₂

pub read_condition-IsCondition :
    (sha256 : Value → String) (v : Value) (c : Condition)
    → read_condition sha256 v ≡ ok c
    → IsCondition c
unfolding read_condition
read_condition-IsCondition sha256 (obj fs) c h =
    let (_, _, h₁) = >>=-eq-ok (require (same_keys condition_keys fs) plan_error) _ h in
    let (d, e, h₂) = >>=-eq-ok (condition_from_plan (frozen_items fs)) _ h₁ in
    let (_, _, h₃) =
      >>=-eq-ok (require (is_str (item_of "key" fs) (condition_key sha256 d)) plan_error) _ h₂ in
    subst IsCondition (eq_of_ok h₃) (condition_from_plan-IsCondition (frozen_items fs) d e)
read_condition-IsCondition sha256 (scalar a) c h = cc
read_condition-IsCondition sha256 (arr vs) c h = cc

binding_of-IsBinding : (fs : Fields) (t : TaskBinding) → binding_of fs ≡ ok t → IsBinding t
unfolding binding_of
binding_of-IsBinding fs t h =
    let (task, e₁, h₁) = >>=-eq-ok (nonempty_text (item_of "id" fs)) _ h in
    let (digest, e₂, h₂) = >>=-eq-ok (digest_text (item_of "definition_sha256" fs)) _ h₁ in
    let (freeze, e₃, h₃) = >>=-eq-ok (nonempty_text (item_of "freeze" fs)) _ h₂ in
    let (budget, e₄, h₄) = >>=-eq-ok (fields_or_fail (item_of "budget" fs)) _ h₃ in
    let (steps, e₅, h₅) = >>=-eq-ok (positive_steps (item_of "steps" budget)) _ h₄ in
    let (wall, e₆, h₆) = >>=-eq-ok (positive (item_of "wall_s" budget) >>= positive_or_fail) _ h₅ in
    subst IsBinding (eq_of_ok h₆) (record {
      named = nonempty_text-nonempty (item_of "id" fs) task e₁;
      digest = digest_text-is_sha256 (item_of "definition_sha256" fs) digest e₂;
      frozen = nonempty_text-nonempty (item_of "freeze" fs) freeze e₃;
      steps = positive_steps-pos (item_of "steps" budget) steps e₅;
      wall = positive_or_fail-positive (item_of "wall_s" budget) wall e₆;
    })

pub binding_from_plan-IsBinding :
    (v : Value) (t : TaskBinding) → binding_from_plan v ≡ ok t → IsBinding t
unfolding binding_from_plan
binding_from_plan-IsBinding (obj fs) t h =
    elim (Bool-cases (same_keys ("id" ∷ "definition_sha256" ∷ "freeze" ∷ "budget" ∷ []) fs)) [
      | inl e ↦ binding_of-IsBinding fs t (rw e at h)
      | inr e ↦ let bad : ◌≡◌ {A = Py TaskBinding} (raise plan_error) (ok t) = rw e at h in cc
    ]
binding_from_plan-IsBinding (scalar a) t h = cc
binding_from_plan-IsBinding (arr vs) t h = cc

pub each-All {ℓ κ} :
    {A : Type ℓ} {B : Type κ} (f : A → Py B) (P : B → Type 0) (xs : List A) (ys : List B)
    → ((x : A) (y : B) → f x ≡ ok y → P y)
    → each f xs ≡ ok ys
    → All P ys
unfolding each
each-All f P [] ys p h = subst (All P) (eq_of_ok h) tt
each-All f P (x ∷ xs) ys p h =
    let (y, e, h₁) = >>=-eq-ok (f x) _ h in
    let (zs, e', h₂) = >>=-eq-ok (each f xs) _ h₁ in
    subst (All P) (eq_of_ok h₂) (p x y e, each-All f P xs zs p e')

pub require-eq : (b : Bool) (e : PyError) (u : Unit {0}) → require b e ≡ ok u → b ≡ true
require-eq true e u h = refl
require-eq false e u h = cc
