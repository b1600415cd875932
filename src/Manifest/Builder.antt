-- ===== src/Manifest/Builder.antt =====
-- `ReceiptBuilder`: its state and the operations that gather evidence. An operation gives what it
-- returns or raises, and the builder that it leaves.
use browserbench.Prelude.{
  ℕ, String, Bool, true, false, not, ◌&&◌, ◌||◌, Option, none, some, List, [], ◌∷◌, ◌++◌, str_eq,
  ltb, if◌then◌else◌, any, sort,
}
use browserbench.Json.{
  ◌>>=◌, require, is_str, is_null, pos, null, bool, int, real, Value, scalar, obj, Fields, field,
  end, value_error, key_error, runtime_error, Py, ok, raise, item_of, value_eq,
}
use browserbench.Study.{is_name, is_run_id, text, SourceProvenance, text_or_null, text_lt}

-- BaselineProvenance
pub record Baseline : Type 0 where
  pub name : String
  pub framework_name : String
  pub framework_version : Option String
  pub provider : Option String
  pub model : Option String
  pub parameters : Value
  pub modality_policy : Value
  pub capability_policy : Value

-- The fields of the builder. A snapshot, a claim, a report, an evaluation and a trace are a dict, or
-- null until they are captured.
pub record ReceiptBuilder : Type 0 where
  pub run_id : String
  pub freeze : String
  pub baseline : Baseline
  pub configured_steps : Value
  pub configured_wall_s : Value
  pub canonical_requested : Bool
  pub task_definition : Value
  pub prompt_text : Option String
  pub release : String
  pub parser_version : String
  pub evaluator_version : String
  pub validator_version : String
  pub source : SourceProvenance
  pub started_at : String
  pub before_snapshot : Value
  pub after_snapshot : Value
  pub agent_claim : Value
  pub injection_report : Value
  pub evaluation : Value
  pub outcome : Option String
  pub trace : Value
  pub framework_filesystem : Value
  pub evidence_failures : List Value
  pub finalized : Bool
  pub sensitive_values : List String
  pub effective_baseline_bound : Bool

-- An exception as the receipt tells of it.
pub record Failure : Type 0 where
  pub type : String
  pub message : String
  pub is_timeout : Bool

-- The concatenation of two texts.
unfoldable pub joined : String → String → String
joined String.[] t = t
joined (String.◌∷◌ c s) t = String.◌∷◌ c (joined s t)

-- BaselineProvenance.to_dict, with other parameters
unfoldable pub baseline_with : Value → Baseline → Value
baseline_with parameters b = obj (
    field "name" (text b.name) (
      field "framework"
        (obj (
          field "name" (text b.framework_name)
            (field "installed_version" (text_or_null b.framework_version) end)))
        (field "provider" (text_or_null b.provider) (
          field "model" (text_or_null b.model) (
            field "parameters" parameters (
              field "modality_policy" b.modality_policy
                (field "capability_policy" b.capability_policy end)))))))

unfoldable pub baseline_to_dict : Baseline → Value
unfolding baseline_with
baseline_to_dict b = baseline_with b.parameters b

-- parameters.pop(k, None): what is left
unfoldable pub popped : String → Fields → Fields
popped k end = end
popped k (field j v fs) = if str_eq j k then popped k fs else field j v (popped k fs)

-- A source with a commit and no changes: what require_canonical_source asks for.
abbrev pub is_clean : SourceProvenance → Bool
is_clean s = (elim s.git_commit [ none ↦ false | some c ↦ true ]) && not s.git_dirty

-- ReceiptBuilder.canonical
unfoldable pub is_canonical : ReceiptBuilder → Bool
is_canonical b = b.canonical_requested && is_clean b.source

-- ensure_canonical_source
unfoldable pub ensure_canonical_source : ReceiptBuilder → Py (Unit {0})
ensure_canonical_source b = require (not b.canonical_requested || is_clean b.source) runtime_error

-- A positive integer, or null.
unfoldable pub is_configured_steps : Value → Bool
is_configured_steps (scalar null) = true
is_configured_steps (scalar (int (pos n))) = ltb 0 n
is_configured_steps _ = false

-- A positive number, or null.
unfoldable pub is_configured_wall : Value → Bool
is_configured_wall (scalar null) = true
is_configured_wall (scalar (int (pos n))) = ltb 0 n
is_configured_wall (scalar (real (pos n))) = ltb 0 n
is_configured_wall _ = false

-- __post_init__, of a builder that has its source
unfoldable pub post_init : ReceiptBuilder → Py (Unit {0})
unfolding is_name is_configured_steps is_configured_wall
post_init b =
    require
      (is_run_id b.run_id
        && not (str_eq b.freeze "")
        && is_configured_steps b.configured_steps
        && is_configured_wall b.configured_wall_s)
      value_error

-- set_prompt
unfoldable pub set_prompt : String → ReceiptBuilder → Py (Unit {0}) × ReceiptBuilder
set_prompt s b = elim b.prompt_text [
  | none ↦ (ok tt, record b { prompt_text = some s })
  | some _ ↦ (raise runtime_error, b)
]

unfoldable pub has_status : String → Value → Bool
unfolding item_of is_str
has_status status (obj policy) = is_str (item_of "status" policy) status
has_status status _ = false

-- The parameters of an observed baseline may differ from the desired only in the effective policy.
unfoldable pub differs_in_policy : (desired observed : Value) → Baseline → Baseline → Bool
unfolding popped value_eq baseline_with item_of has_status
differs_in_policy (obj now) (obj later) current observed =
    value_eq (item_of "effective_policy" now) (obj (field "status" (text "unobserved") end))
    && has_status "observed" (item_of "effective_policy" later)
    && value_eq (baseline_with (obj (popped "effective_policy" now)) current)
        (baseline_with (obj (popped "effective_policy" later)) observed)
differs_in_policy _ _ current observed = false

unfoldable pub is_observation : Baseline → Baseline → Bool
unfolding differs_in_policy
is_observation current observed =
    differs_in_policy current.parameters observed.parameters current observed

-- `bound` says that an observation is bound, and `valid` that this is one.
unfoldable pub bind_if :
    (bound valid : Bool) → Baseline → ReceiptBuilder → Py (Unit {0}) × ReceiptBuilder
bind_if true valid observed b = (raise runtime_error, b)
bind_if false false observed b = (raise value_error, b)
bind_if false true observed b =
    (ok tt, record b { baseline = observed; effective_baseline_bound = true })

-- bind_effective_baseline
unfoldable pub bind_effective_baseline : Baseline → ReceiptBuilder → Py (Unit {0}) × ReceiptBuilder
unfolding is_observation bind_if
bind_effective_baseline observed b =
    bind_if b.effective_baseline_bound (is_observation b.baseline observed) observed b

-- set.add
unfoldable pub add : String → List String → List String
add s known = if any (str_eq s) known then known else s ∷ known

-- register_sensitive_value
unfoldable pub register_sensitive_value : String → ReceiptBuilder → Py (Unit {0}) × ReceiptBuilder
unfolding add
register_sensitive_value s b =
    if str_eq s ""
    then (raise value_error, b)
    else (ok tt, record b { sensitive_values = add s b.sensitive_values })

-- redaction_values
unfoldable pub redaction_values : ReceiptBuilder → List String
unfolding sort text_lt
redaction_values b = sort text_lt b.sensitive_values

unfoldable pub is_learned : ReceiptBuilder → Bool
is_learned b = str_eq b.baseline.name "browser-use" || str_eq b.baseline.name "browser-use-full"

-- The metadata of an inventory whose file has this digest and size.
unfoldable pub inventory_value : (run_id : String) → Fields → String × ℕ → Value
unfolding item_of joined
inventory_value run_id inventory (sha, size) = obj (
    field "path" (text (joined "artifacts/" (joined run_id ".browser-use-sandbox-inventory.json")))
      (field "sha256" (text sha) (
        field "size_bytes" (scalar (int (pos size))) (
          field "entry_count" (item_of "entry_count" inventory) (
            field "file_count" (item_of "file_count" inventory) (
              field "total_bytes" (item_of "total_bytes" inventory)
                (field "inventory_sha256" (item_of "inventory_sha256" inventory) end)))))))

-- What the publication of the inventory, if there is one, makes of it.
unfoldable pub published_value : (run_id : String) → Option Fields → Py (String × ℕ) → Py Value
unfolding inventory_value
published_value run_id none artifact = ok (scalar null)
published_value run_id (some inventory) artifact =
    artifact >>= λ written. ok (inventory_value run_id inventory written)

-- The lifecycle's value, with the metadata of its inventory if that was published.
unfoldable pub filesystem_value : (state : String) → (inventory cleanup_error : Value) → Value
filesystem_value state inventory cleanup_error = obj (
    field "state" (text state) (
      field "cleanup_verified" (scalar (bool (str_eq state "cleaned")))
        (field "inventory" inventory (field "cleanup_error" cleanup_error end))))

abbrev pub is_state : String → Bool
is_state s = str_eq s "not_created" || str_eq s "cleaned" || str_eq s "cleanup_failed"

module _ (redact : (sensitive : List String) → String → String) where
  unfoldable pub failure_items : ReceiptBuilder → Failure → Fields → Fields
  unfolding redaction_values
  failure_items b f rest =
      field "type" (text f.type)
        (field "message" (text (redact (redaction_values b) f.message)) rest)

  -- record_evidence_failure
  unfoldable pub record_evidence_failure :
      Failure → (stage : String) → ReceiptBuilder → ReceiptBuilder
  unfolding failure_items
  record_evidence_failure f stage b = record b {
    evidence_failures =
        b.evidence_failures ++ obj (failure_items b f (field "stage" (text stage) end)) ∷ [];
  }

  unfoldable pub cleanup_value : ReceiptBuilder → Option Failure → Value
  unfolding failure_items
  cleanup_value b none = scalar null
  cleanup_value b (some f) = obj (failure_items b f end)

  unfoldable pub bind_published :
      (state : String) → Py Value → Option Failure → ReceiptBuilder → Py (Unit {0}) × ReceiptBuilder
  unfolding filesystem_value cleanup_value
  bind_published state (raise x) e b = (
    raise x,
    record b { framework_filesystem = filesystem_value state (scalar null) (scalar null) },
  )
  bind_published state (ok v) e b =
      (ok tt, record b { framework_filesystem = filesystem_value state v (cleanup_value b e) })

  abbrev is_some : Option Fields → Bool
  is_some none = false
  is_some (some fs) = true

  -- bind_framework_filesystem. `artifact` is the digest and the size of the file that write_artifact
  -- writes, or its exception.
  unfoldable pub bind_framework_filesystem :
      (state : String) (inventory : Option Fields) (artifact : Py (String × ℕ))
      → Option Failure
      → ReceiptBuilder
      → Py (Unit {0}) × ReceiptBuilder
  unfolding published_value bind_published
  bind_framework_filesystem state inventory artifact e b =
      if not (is_null b.framework_filesystem)
      then (raise runtime_error, b)
      else if not (is_state state) || (str_eq state "not_created" && is_some inventory)
      then (raise value_error, b)
      else bind_published state (published_value b.run_id inventory artifact) e b

  -- _ensure_learned_filesystem_state
  unfoldable pub ensure_learned_filesystem_state : ReceiptBuilder → ReceiptBuilder
  unfolding is_learned bind_framework_filesystem
  ensure_learned_filesystem_state b =
      if is_learned b && is_null b.framework_filesystem
      then (bind_framework_filesystem "not_created" none (raise key_error) none b).1
      else b
