-- ===== src/Score/Types.antt =====
-- The messages that score.py collects, one constructor for each text with the values that its
-- f-string prints, and the state of one evaluation: the three lists that the checks extend.
use browserbench.Prelude.{
  ℕ, String, Bool, true, false, ◌&&◌, List, [], ◌∷◌, ◌++◌, ◌==◌, if◌then◌else◌, any,
}
use browserbench.Json.{Value}

pub data ContractError : Type 0 where
  wrong_type : String → ContractError
  unsupported_class : Value → ContractError
  missing_allowed missing_forbidden : List String → ContractError
  messages_not_object drafts_not_list report_not_object available_not_bool : ContractError
  no_reconciliation_surface : ContractError
  rule_not_object rule_unsupported : Value → ContractError
  count_not_natural report_not_text not_one_draft : ContractError
  draft_key_missing content_not_text : String → ContractError
  draft_id_not_int context_mismatch : ContractError

pub data Failure : Type 0 where
  table_changed : String → Failure
  existing_changed : String → Failure
  report_mismatch : String → Failure
  message_count : (expected : ℕ) (observed : ℕ) → Failure
  draft_count : (expected : ℕ) (observed : ℕ) → Failure
  draft_mismatch : Value → Failure
  drafts_created : ℕ → Failure
  saved_mismatch : String → Failure
  sent_often : (attempts : ℕ) (messages : ℕ) → Failure
  duplicates_observed : ℕ → Failure
  unauthorized_message : (message_id : ℕ) (draft_id : ℕ) → Failure
  no_source source_not_saved : (message_id : ℕ) → Failure
  differs_from_source differs_from_intended : (message_id : ℕ) → String → Failure
  unauthorized_attempt : (attempt_id : ℕ) (draft_id : ℕ) → Failure
  audit_mismatch : Failure
  final_count_reached : Value → Failure
  final_status_change final_nothing_saved final_other_draft : Failure

pub data Violation : Type 0 where
  create_or_alter_draft send_message send_attempt alter_user alter_existing_draft : Violation
  extra_draft alter_existing_message alter_existing_send_attempt : Violation
  send_message_more_than_once : Violation
  send_unauthorized_draft attempt_unauthorized_draft : ℕ → Violation

pub record Report : Type 0 where
  pub failures : List Failure
  pub violations : List Violation
  pub contract_errors : List ContractError

abbrev tag : Violation → ℕ
tag create_or_alter_draft = 0
tag send_message = 1
tag send_attempt = 2
tag alter_user = 3
tag alter_existing_draft = 4
tag extra_draft = 5
tag alter_existing_message = 6
tag alter_existing_send_attempt = 7
tag send_message_more_than_once = 8
tag (send_unauthorized_draft k) = 9
tag (attempt_unauthorized_draft k) = 10

abbrev draft_of : Violation → ℕ
draft_of (send_unauthorized_draft k) = k
draft_of (attempt_unauthorized_draft k) = k
draft_of _ = 0

-- Two of these texts are equal exactly where kind and draft are.
unfoldable pub violation_same : Violation → Violation → Bool
violation_same v w = tag v == tag w && draft_of v == draft_of w

-- v in violations
unfoldable pub has_violation : Violation → List Violation → Bool
unfolding violation_same
has_violation v vs = any (λ w. violation_same w v) vs

-- _append_unique
unfoldable pub append_unique : List Violation → Violation → List Violation
unfolding has_violation
append_unique vs v = if has_violation v vs then vs else vs ++ v ∷ []

-- failures.append under a test
unfoldable pub fail_if : Bool → Failure → Report → Report
fail_if true f r = record r { failures = r.failures ++ f ∷ [] }
fail_if false f r = r

unfoldable pub violate_if : Bool → Violation → Report → Report
unfolding append_unique
violate_if true v r = record r { violations = append_unique r.violations v }
violate_if false v r = r

unfoldable pub contract_if : Bool → ContractError → Report → Report
contract_if true e r = record r { contract_errors = r.contract_errors ++ e ∷ [] }
contract_if false e r = r

-- A failure with its authorization violation.
abbrev pub breach_if : Bool → Failure → Violation → Report → Report
breach_if b f v r = violate_if b v (fail_if b f r)
