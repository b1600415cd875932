-- ===== src/Study/Conditions.antt =====
-- `Condition`: the configuration of one arm of a study, from a caller's four fields or from a plan.
use browserbench.Prelude.{
  ℕ, String, Bool, true, false, not, ◌&&◌, ◌||◌, Option, none, some, List, [], ◌∷◌, str_eq, ltb,
  if◌then◌else◌,
}
use Prim.Native.String.{◌++◌}
use browserbench.Json.{
  ◌>>=◌, require, pos, null, int, str, Value, scalar, obj, Fields, field, end, plan_error, Py, ok,
  raise, item_of, same_keys,
}
use browserbench.Study.Texts.{strip, is_stripped, lower_provider}
use browserbench.Study.Identity.{text}

pub record Condition : Type 0 where
  pub baseline : String
  pub provider : Option String
  pub model : Option String
  pub max_steps : Option ℕ
  pub framework : String
  pub framework_version : String

-- What `_normalized_condition_fields` returns.
pub record Arm : Type 0 where
  pub baseline : String
  pub provider : Option String
  pub model : Option String
  pub max_steps : Option ℕ

-- browser_use_policy.BROWSER_USE_VERSION
abbrev pub browser_use_version : String
browser_use_version = "0.13.6"

-- baseline in _CONTROL_BASELINES
abbrev pub is_control : String → Bool
is_control b = str_eq b "playwright-exact" || str_eq b "playwright-naive"

unfoldable pub framework_name : String → String
framework_name b = if is_control b then "playwright" else "browser-use"

unfoldable pub option_eq : Option String → Option String → Bool
option_eq none none = true
option_eq (some s) (some t) = str_eq s t
option_eq _ _ = false

abbrev has_steps : Option ℕ → Bool
has_steps none = false
has_steps (some n) = true

unfoldable pub is_valid_arm : Arm → Bool
unfolding option_eq
is_valid_arm a =
    if is_control a.baseline
    then option_eq a.provider none
      && option_eq a.model (some "deterministic-playwright")
      && not (has_steps a.max_steps)
    else if str_eq a.baseline "browser-use"
    then option_eq a.provider (some "deepseek")
      && option_eq a.model (some "deepseek-chat")
      && has_steps a.max_steps
    else if str_eq a.baseline "browser-use-full"
    then (option_eq a.provider (some "anthropic") && option_eq a.model (some "claude-sonnet-4-0")
        || option_eq a.provider (some "openai") && option_eq a.model (some "gpt-4.1-mini"))
      && has_steps a.max_steps
    else false

-- A string or null.
unfoldable pub optional_text : Value → Py (Option String)
optional_text (scalar null) = ok none
optional_text (scalar (str s)) = ok (some s)
optional_text _ = raise plan_error

-- A positive integer or null.
unfoldable pub optional_steps : Value → Py (Option ℕ)
optional_steps (scalar null) = ok none
optional_steps (scalar (int (pos n))) = if ltb n 1 then raise plan_error else ok (some n)
optional_steps _ = raise plan_error

unfoldable pub required_text : Value → Py String
required_text (scalar (str s)) = ok s
required_text _ = raise plan_error

unfoldable pub normal_provider : Option String → Option String
unfolding lower_provider strip
normal_provider none = none
normal_provider (some s) = some (lower_provider (strip s))

unfoldable pub normal_model : Option String → Option String
unfolding strip
normal_model none = none
normal_model (some s) = some (strip s)

unfoldable pub is_given_empty : Option String → Bool
is_given_empty none = false
is_given_empty (some s) = str_eq s ""

unfoldable pub checked_arm : Arm → Py Arm
unfolding is_given_empty is_valid_arm
checked_arm a =
    if is_given_empty a.provider || is_given_empty a.model
    then raise plan_error
    else if is_valid_arm a
    then ok a
    else raise plan_error

-- _normalized_condition_fields
unfoldable pub normalized_condition_fields : Fields → Py Arm
unfolding required_text optional_text optional_steps checked_arm normal_provider normal_model
    item_of
normalized_condition_fields fs = required_text (item_of "baseline" fs) >>= λ b.
    optional_text (item_of "provider" fs) >>= λ p. optional_text (item_of "model" fs) >>= λ m.
    optional_steps (item_of "max_steps" fs) >>= λ n.
    checked_arm
      (record { baseline = b; provider = normal_provider p; model = normal_model m; max_steps = n })

-- _framework_identity, over `importlib.metadata.version`; `none` is a distribution that is missing.
unfoldable pub framework_identity :
    (installed : String → Option String) → String → Py (String × String)
unfolding framework_name
framework_identity installed b =
    let name = framework_name b in
    elim (installed name) [
      | none ↦ raise plan_error
      | some version ↦
          if str_eq name "browser-use" && not (str_eq version browser_use_version)
          then raise plan_error
          else ok (name, version)
    ]

abbrev with_framework : Arm → String × String → Condition
with_framework a (name, version) = record {
  baseline = a.baseline;
  provider = a.provider;
  model = a.model;
  max_steps = a.max_steps;
  framework = name;
  framework_version = version;
}

abbrev input_fields : List String
input_fields = "baseline" ∷ "provider" ∷ "model" ∷ "max_steps" ∷ []

abbrev pub condition_fields : List String
condition_fields =
    "baseline" ∷ "provider" ∷ "model" ∷ "max_steps" ∷ "framework" ∷ "framework_version" ∷ []

-- Condition.from_mapping
unfoldable pub condition_from_mapping : (installed : String → Option String) → Fields → Py Condition
unfolding same_keys normalized_condition_fields framework_identity
condition_from_mapping installed fs = require (same_keys input_fields fs) plan_error >>= λ _.
    normalized_condition_fields fs >>= λ a.
    framework_identity installed a.baseline >>= λ f. ok (with_framework a f)

unfoldable pub is_frozen_framework : (baseline framework version : String) → Bool
unfolding is_stripped framework_name
is_frozen_framework b f v =
    is_stripped v
    && str_eq f (framework_name b)
    && not (str_eq f "browser-use" && not (str_eq v browser_use_version))

unfoldable pub frozen_condition : Arm → (framework version : Value) → Py Condition
unfolding is_frozen_framework
frozen_condition a (scalar (str f)) (scalar (str v)) =
    if is_frozen_framework a.baseline f v then ok (with_framework a (f, v)) else raise plan_error
frozen_condition a _ _ = raise plan_error

-- Condition.from_plan_mapping
unfoldable pub condition_from_plan : Fields → Py Condition
unfolding same_keys normalized_condition_fields frozen_condition item_of
condition_from_plan fs = require (same_keys condition_fields fs) plan_error >>= λ _.
    normalized_condition_fields fs >>= λ a.
    frozen_condition a (item_of "framework" fs) (item_of "framework_version" fs)

abbrev pub text_or_null : Option String → Value
text_or_null none = scalar null
text_or_null (some s) = text s

abbrev pub number_or_null : Option ℕ → Value
number_or_null none = scalar null
number_or_null (some n) = scalar (int (pos n))

-- Condition.to_dict, before the braces
unfoldable pub condition_items : Condition → Fields
condition_items c = field "baseline" (text c.baseline) (
    field "provider" (text_or_null c.provider) (
      field "model" (text_or_null c.model) (
        field "max_steps" (number_or_null c.max_steps) (
          field "framework" (text c.framework)
            (field "framework_version" (text c.framework_version) end)))))

-- Condition.input_dict
unfoldable pub input_dict : Condition → Value
input_dict c = obj (
    field "baseline" (text c.baseline) (
      field "provider" (text_or_null c.provider) (
        field "model" (text_or_null c.model) (field "max_steps" (number_or_null c.max_steps) end))))

-- Condition.key, over `canonical_json_sha256`
unfoldable pub condition_key : (sha256 : Value → String) → Condition → String
unfolding condition_items
condition_key sha256 c = "condition-v1-" ++ sha256 (obj (condition_items c))
