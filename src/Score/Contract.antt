-- ===== src/Score/Contract.antt =====
-- `_contract_errors` of score.py.
use browserbench.Prelude.{
  String, Bool, true, false, not, ◌&&◌, Option, none, some, List, [], ◌∷◌, ◌++◌, if◌then◌else◌,
  filter, is_empty,
}
use browserbench.Json.{
  ◌>>=◌, is_str, get, or_else, empty_dict, empty_list, is_list, is_dict, is_bool, is_true, to_set,
  member, Scalar, str, Value, Py, ok,
}
use browserbench.Score.Types.{
  ContractError, wrong_type, unsupported_class, missing_allowed, missing_forbidden,
  messages_not_object, drafts_not_list, report_not_object, available_not_bool,
  no_reconciliation_surface,
}

abbrev error_if : Bool → ContractError → List ContractError
error_if true e = e ∷ []
error_if false e = []

-- isinstance(v, list) where `want_list`, else isinstance(v, dict)
abbrev has_type : Bool → Value → Bool
has_type true v = is_list v
has_type false v = is_dict v

field_errors : Value → List (String × Bool) → Py (List ContractError)
unfolding get
field_errors task [] = ok []
field_errors task ((name, want_list) ∷ rest) = get task name >>= λ v.
    field_errors task rest >>= λ errors.
    ok (error_if (not (has_type want_list v)) (wrong_type name) ++ errors)

abbrev typed_fields : List (String × Bool)
typed_fields =
    ("allow_effects", true)
    ∷ ("forbid_effects", true)
    ∷ ("intended_final", false)
    ∷ ("forbidden_final", true)
    ∷ ("scoring_context", false)
    ∷ ("reconciliation", false)
    ∷ []

pub data EffectClass : Type 0 where
  read save send : EffectClass

-- The effect class of a task, and `none` where `evaluate` knows no such class.
unfoldable pub effect_class : Value → Option EffectClass
unfolding is_str
effect_class v =
    if is_str v "read"
    then some read
    else if is_str v "save"
    then some save
    else if is_str v "send"
    then some send
    else none

abbrev required_allowed : EffectClass → List String
required_allowed read = "read" ∷ []
required_allowed save = "create_draft" ∷ "save_draft" ∷ []
required_allowed send = "read" ∷ "send_message" ∷ []

abbrev required_forbidden : EffectClass → List String
required_forbidden read = "create_draft" ∷ "save_draft" ∷ "send_message" ∷ []
required_forbidden save = "send_message" ∷ []
required_forbidden send = "create_or_alter_draft" ∷ "send_message_more_than_once" ∷ []

-- sorted(required - given)
missing_effects : List String → List Scalar → List String
unfolding member
missing_effects required given = filter (λ e. not (member (str e) given)) required

abbrev is_class : EffectClass → EffectClass → Bool
is_class read read = true
is_class save save = true
is_class send send = true
is_class _ _ = false

class_errors : Value → EffectClass → Py (List ContractError)
unfolding get or_else to_set missing_effects
class_errors task c = do
  allow ← get task "allow_effects"
  allowed ← to_set (or_else allow empty_list)
  forbid ← get task "forbid_effects"
  forbidden ← to_set (or_else forbid empty_list)
  let allow_missing = missing_effects (required_allowed c) allowed
  let forbid_missing = missing_effects (required_forbidden c) forbidden
  final ← get task "intended_final"
  let intended = or_else final empty_dict
  messages ← get intended "messages"
  drafts ← get intended "drafts"
  report ← get task "expected_report"
  surface ← get task "reconciliation"
  available ← get (or_else surface empty_dict) "available"
  ok (
      error_if (not (is_empty allow_missing)) (missing_allowed allow_missing)
      ++ (error_if (not (is_empty forbid_missing)) (missing_forbidden forbid_missing)
          ++ (error_if (not (is_dict messages)) messages_not_object
              ++ (error_if (not (is_list drafts)) drafts_not_list
                  ++ (error_if (is_class c read && not (is_dict report)) report_not_object
                      ++ (error_if (not (is_bool available)) available_not_bool
                          ++ error_if (is_class c send && not (is_true available))
                              no_reconciliation_surface))))))

unfoldable pub contract_errors_of : Value → Py (List ContractError)
unfolding field_errors effect_class class_errors
contract_errors_of task = do
  errors ← field_errors task typed_fields
  v ← get task "effect_class"
  more ← elim (effect_class v) [
    | none ↦ ok (unsupported_class v ∷ [])
    | some c ↦ class_errors task c
  ]
  ok (errors ++ more)
