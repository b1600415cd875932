-- ===== src/Study/Encoding.antt =====
-- Round trips: what `from_plan` reads back of what `to_dict` writes, for each part of a plan.
use browserbench.Prelude.{
  ℕ, ◌≤◌, String, ◌≡◌, refl, ap, true, false, Option, none, some, arith, str_eq, eq_iff, ltb,
}
use browserbench.Json.{
  lookup, ℤ, pos, int, real, scalar, ok, as_float, has_field, item_of, same_keys,
}
use browserbench.Claim.{is_space, lower}
use browserbench.Study.Texts.{
  is_run_id, is_sha256, left_strip, right_strip, strip, same_codes, lower_among, lower_provider,
}
use browserbench.Study.Conditions.{
  option_eq, is_valid_arm, optional_text, optional_steps, required_text, normal_provider,
  normal_model, is_given_empty, checked_arm, normalized_condition_fields, is_frozen_framework,
  frozen_condition, condition_from_plan, text_or_null, number_or_null, condition_items, Condition,
  Arm,
}
use browserbench.Study.Bindings.{
  is_positive_real, positive, positive_steps, nonempty_text, fields_or_fail, digest_text,
  binding_of, binding_from_plan, binding_to_dict, TaskBinding,
}
use browserbench.Study.Matrix.{
  run_to_dict, repetition_number, run_id_text, run_from_mapping, PlannedRun,
}

option_eq_sound : (a b : Option String) → option_eq a b ≡ true → a ≡ b
unfolding option_eq
option_eq_sound none none h = refl
option_eq_sound (some s) (some t) h = ap some ((eq_iff s t).0 h)
option_eq_sound none (some t) h = cc
option_eq_sound (some s) none h = cc

-- A text that `strip` and `lower` leave as it is, and that is not empty.
abbrev IsPlain : (Option String → Option String) → Option String → Type 0
IsPlain f o = (f o ≡ o) × (is_given_empty o ≡ false)

IsPlain-of :
    (f : Option String → Option String) (o c : Option String)
    → option_eq o c ≡ true
    → IsPlain f c
    → IsPlain f o
IsPlain-of f o c h p = rw (option_eq_sound o c h) p

deepseek-IsPlain : IsPlain normal_provider (some "deepseek")
unfolding normal_provider lower_provider lower_among same_codes lower strip left_strip right_strip
    is_space is_given_empty
deepseek-IsPlain = (refl, refl)

anthropic-IsPlain : IsPlain normal_provider (some "anthropic")
unfolding normal_provider lower_provider lower_among same_codes lower strip left_strip right_strip
    is_space is_given_empty
anthropic-IsPlain = (refl, refl)

openai-IsPlain : IsPlain normal_provider (some "openai")
unfolding normal_provider lower_provider lower_among same_codes lower strip left_strip right_strip
    is_space is_given_empty
openai-IsPlain = (refl, refl)

none-IsPlain : IsPlain normal_provider none
unfolding normal_provider is_given_empty
none-IsPlain = (refl, refl)

models-IsPlain :
    IsPlain normal_model (some "deterministic-playwright")
    × IsPlain normal_model (some "deepseek-chat")
    × IsPlain normal_model (some "claude-sonnet-4-0")
    × IsPlain normal_model (some "gpt-4.1-mini")
unfolding normal_model strip left_strip right_strip is_space is_given_empty
models-IsPlain = ((refl, refl), (refl, refl), (refl, refl), (refl, refl))

is_valid_arm-IsPlain :
    (b : String) (p m : Option String) (n : Option ℕ)
    → is_valid_arm (record { baseline = b; provider = p; model = m; max_steps = n }) ≡ true
    → IsPlain normal_provider p × IsPlain normal_model m
unfolding is_valid_arm
is_valid_arm-IsPlain b p m n h = ground (
  arith,
  IsPlain-of normal_provider p none,
  IsPlain-of normal_provider p (some "deepseek"),
  IsPlain-of normal_provider p (some "anthropic"),
  IsPlain-of normal_provider p (some "openai"),
  IsPlain-of normal_model m (some "deterministic-playwright"),
  IsPlain-of normal_model m (some "deepseek-chat"),
  IsPlain-of normal_model m (some "claude-sonnet-4-0"),
  IsPlain-of normal_model m (some "gpt-4.1-mini"),
  none-IsPlain,
  deepseek-IsPlain,
  anthropic-IsPlain,
  openai-IsPlain,
  models-IsPlain,
)

abbrev pub arm_of : Condition → Arm
arm_of c = record {
  baseline = c.baseline;
  provider = c.provider;
  model = c.model;
  max_steps = c.max_steps;
}

abbrev pub HasSteps : Option ℕ → Type 0
HasSteps none = Unit
HasSteps (some n) = 1 ≤ n

-- A condition as the two constructors make it.
pub record IsCondition (c : Condition) : Type 0 where
  pub arm : is_valid_arm (arm_of c) ≡ true
  pub steps : HasSteps c.max_steps
  pub frozen : is_frozen_framework c.baseline c.framework c.framework_version ≡ true

optional_text-text_or_null : (o : Option String) → optional_text (text_or_null o) ≡ ok o
unfolding optional_text
optional_text-text_or_null none = refl
optional_text-text_or_null (some s) = refl

optional_steps-number_or_null :
    (o : Option ℕ) → HasSteps o → optional_steps (number_or_null o) ≡ ok o
unfolding optional_steps
optional_steps-number_or_null none h = refl
optional_steps-number_or_null (some n) h = ground arith

pub condition_from_plan-condition_items :
    (c : Condition) → IsCondition c → condition_from_plan (condition_items c) ≡ ok c
unfolding condition_from_plan condition_items same_keys has_field item_of lookup
    normalized_condition_fields required_text checked_arm frozen_condition
condition_from_plan-condition_items c h =
    let (p, m) = is_valid_arm-IsPlain c.baseline c.provider c.model c.max_steps h.arm in
    rw
      (
        optional_text-text_or_null c.provider,
        optional_text-text_or_null c.model,
        optional_steps-number_or_null c.max_steps h.steps,
        p.0,
        p.1,
        m.0,
        m.1,
        h.arm,
        h.frozen,
      )
      refl

abbrev pub IsPositiveReal : ℤ → Type 0
IsPositiveReal x = is_positive_real x ≡ true

-- A binding as the two constructors make it.
pub record IsBinding (t : TaskBinding) : Type 0 where
  pub named : str_eq t.task_id "" ≡ false
  pub digest : is_sha256 t.definition_sha256 ≡ true
  pub frozen : str_eq t.freeze "" ≡ false
  pub steps : 1 ≤ t.steps
  pub wall : IsPositiveReal t.wall_s

positive_steps-int : (n : ℕ) → 1 ≤ n → positive_steps (scalar (int (pos n))) ≡ ok n
unfolding positive_steps
positive_steps-int n h = ground arith

pub positive-real : (x : ℤ) → IsPositiveReal x → positive (scalar (real x)) ≡ ok (some x)
unfolding positive as_float
positive-real x h = rw h

pub binding_from_plan-binding_to_dict :
    (t : TaskBinding) → IsBinding t → binding_from_plan (binding_to_dict t) ≡ ok t
unfolding binding_from_plan binding_to_dict same_keys has_field item_of lookup binding_of
    nonempty_text digest_text fields_or_fail
binding_from_plan-binding_to_dict t h =
    rw (h.named, h.digest, h.frozen, positive_steps-int t.steps h.steps, h.wall) refl

-- A planned run as `_runs` makes it.
pub record IsRun (r : PlannedRun) : Type 0 where
  pub ordinal : 1 ≤ r.ordinal
  pub repetition : 1 ≤ r.repetition
  pub run_id : is_run_id r.run_id ≡ true
  pub task : is_sha256 r.task_sha256 ≡ true
  pub order : is_sha256 r.random_order_sha256 ≡ true

pub run_from_mapping-run_to_dict :
    (r : PlannedRun) → IsRun r → run_from_mapping (run_to_dict r) ≡ ok r
unfolding run_from_mapping run_to_dict same_keys has_field item_of lookup repetition_number
    run_id_text required_text digest_text
run_from_mapping-run_to_dict r h =
    let small : ltb r.repetition 1 ≡ false = ground (arith, h.repetition) in
    rw (positive_steps-int r.ordinal h.ordinal, small, h.run_id, h.task, h.order) refl
