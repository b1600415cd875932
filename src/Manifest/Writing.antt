-- ===== src/Manifest/Writing.antt =====
-- The receipt of a builder, `write_success`, `write_failure` and the file that they write once.
use browserbench.Prelude.{
  String, Bool, true, false, not, ◌&&◌, ◌||◌, Option, none, some, List, [], ◌∷◌, ◌++◌, str_eq,
  if◌then◌else◌, any, all,
}
use browserbench.Json.{
  ◌>>=◌, require, is_str, is_null, is_dict, is_true, ℤ, null, bool, real, Value, scalar, obj, arr,
  Fields, field, end, value_error, runtime_error, file_exists_error, Py, ok, raise, item_of,
}
use browserbench.Study.{is_name, is_run_id, text, SourceProvenance, text_or_null, items_of}
use browserbench.Manifest.Builder.{
  baseline_to_dict, is_canonical, ensure_canonical_source, has_status, is_learned, failure_items,
  ensure_learned_filesystem_state, ReceiptBuilder, Failure,
}

-- A builder and the receipt files of its directory, by run id.
pub record Desk : Type 0 where
  pub builder : ReceiptBuilder
  pub files : List (String × Fields)

-- classify_failure
unfoldable pub classify_failure : Failure → (stage : String) → String
classify_failure f stage =
    if f.is_timeout
    then "timeout"
    else if str_eq stage "evaluation"
    then "evaluation_error"
    else if any (str_eq stage) (
        "baseline" ∷ "injection_quiescence" ∷ "after_snapshot" ∷ "playwright_trace"
        ∷ "playwright_trace_publish" ∷ "playwright_context_close" ∷ "playwright_browser_close" ∷ [])
    then "baseline_error"
    else "setup_error"

unfoldable pub provenance_to_dict : SourceProvenance → Value
provenance_to_dict s = obj (
    field "git_commit" (text_or_null s.git_commit) (
      field "git_dirty" (scalar (bool s.git_dirty))
        (field "source_tree_sha256" (text s.source_tree_sha256) end)))

-- What is written of one file: a name that is taken is refused.
unfoldable pub write_file :
    String → Fields → List (String × Fields) → Option (List (String × Fields))
write_file id receipt files =
    if any (λ f. str_eq f.0 id) files then none else some (files ++ (id, receipt) ∷ [])

-- What the clock and the disk answer during a write; `disk` is an exception before the link,
-- `unlinked` one when the temporary name is removed after it.
pub record Moment : Type 0 where
  pub ended_at : String
  pub duration_s : ℤ
  pub disk : Py (Unit {0})
  pub unlinked : Py (Unit {0})

-- The guards of `_write_once` and `write_receipt`, then the link of the file.
unfoldable pub settle :
    (finalized safe_name : Bool) (disk unlinked : Py (Unit {0}))
    (linked : Option (List (String × Fields)))
    → Desk
    → Py (Unit {0}) × Desk
settle true safe_name disk unlinked linked d = (raise runtime_error, d)
settle false false disk unlinked linked d = (raise value_error, d)
settle false true (raise e) unlinked linked d = (raise e, d)
settle false true (ok _) unlinked none d = (raise file_exists_error, d)
settle false true (ok _) (raise e) (some files) d = (raise e, record d { files = files })
settle false true (ok _) (ok _) (some files) d =
    (ok tt, record { builder = record d.builder { finalized = true }; files = files })

-- What follows a check, if it passes.
unfoldable pub provided : Py (Unit {0}) → Desk → Py (Unit {0}) × Desk → Py (Unit {0}) × Desk
provided (raise e) d next = (raise e, d)
provided (ok _) d next = next

-- parameters.get("effective_policy") tells of an observation
unfoldable pub policy_observed : Value → Bool
unfolding has_status item_of
policy_observed (obj parameters) = has_status "observed" (item_of "effective_policy" parameters)
policy_observed _ = false

-- A cleaned, verified filesystem with an inventory.
unfoldable pub filesystem_cleaned : Value → Bool
unfolding item_of is_str
filesystem_cleaned (obj fs) =
    is_str (item_of "state" fs) "cleaned"
    && is_true (item_of "cleanup_verified" fs)
    && is_dict (item_of "inventory" fs)
filesystem_cleaned _ = false

abbrev pub is_given : Option String → Bool
is_given none = false
is_given (some s) = true

-- What `write_success` requires of a learned baseline.
unfoldable pub is_learned_ready : ReceiptBuilder → Bool
unfolding is_learned policy_observed filesystem_cleaned
is_learned_ready b =
    not (is_learned b)
    || (policy_observed b.baseline.parameters && filesystem_cleaned b.framework_filesystem)

-- The evidence that it requires.
abbrev pub evidence_of : ReceiptBuilder → List Value
evidence_of b =
    b.task_definition
    ∷ b.before_snapshot
    ∷ b.after_snapshot
    ∷ b.agent_claim
    ∷ b.injection_report
    ∷ b.trace
    ∷ b.evaluation
    ∷ text_or_null b.outcome
    ∷ []

unfoldable pub has_evidence : ReceiptBuilder → Bool
unfolding is_learned_ready
has_evidence b =
    is_learned_ready b && is_given b.prompt_text && all (λ v. not (is_null v)) (evidence_of b)

unfoldable pub task_value : (sha256 : Value → String) → Value → Value
task_value sha256 (scalar null) = scalar null
task_value sha256 definition =
    obj (field "definition" definition (field "sha256" (text (sha256 definition)) end))

unfoldable pub prompt_value : (text_sha256 : String → String) → Option String → Value
prompt_value text_sha256 none = obj (field "text" (scalar null) (field "sha256" (scalar null) end))
prompt_value text_sha256 (some s) =
    obj (field "text" (text s) (field "sha256" (text (text_sha256 s)) end))

module _ (sha256 : Value → String) (text_sha256 : String → String)
    (redact : (sensitive : List String) → String → String) where
  -- _receipt
  unfoldable pub receipt_of :
      ReceiptBuilder → (status : String) → (failure : Value) → Moment → Fields
  unfolding task_value prompt_value provenance_to_dict baseline_to_dict is_canonical items_of
  receipt_of b status failure t = field "schema_version" (text "2.0") (
      field "run_id" (text b.run_id) (
        field "release" (text b.release) (
          field "freeze" (text b.freeze) (
            field "status" (text status) (
              field "canonical" (scalar (bool (is_canonical b))) (
                field "started_at" (text b.started_at) (
                  field "ended_at" (text t.ended_at) (
                    field "duration_s" (scalar (real t.duration_s)) (
                      field "source" (provenance_to_dict b.source) (
                        field "task" (task_value sha256 b.task_definition) (
                          field "prompt" (prompt_value text_sha256 b.prompt_text) (
                            field "baseline" (baseline_to_dict b.baseline) (
                              field "execution"
                                (obj (
                                  field "configured_steps" b.configured_steps (
                                    field "configured_wall_s" b.configured_wall_s (
                                      field "requested_canonical"
                                        (scalar (bool b.canonical_requested))
                                        (field "failure" failure (
                                          field "evidence_failures"
                                            (arr (items_of b.evidence_failures)) end))))))
                                (field "agent_claim" b.agent_claim (
                                  field "trace" b.trace (
                                    field "framework_filesystem" b.framework_filesystem (
                                      field "injection_report" b.injection_report (
                                        field "before_snapshot" b.before_snapshot (
                                          field "after_snapshot" b.after_snapshot (
                                            field "evaluation" b.evaluation (
                                              field "outcome" (text_or_null b.outcome) (
                                                field "versions"
                                                  (obj (
                                                    field "parser" (text b.parser_version) (
                                                      field "evaluator" (text b.evaluator_version) (
                                                        field "validator" (text b.validator_version)
                                                          end))))
                                                  end))))))))))))))))))))))

  -- _write_once over write_receipt
  unfoldable pub write_once : Fields → Moment → Desk → Py (Unit {0}) × Desk
  unfolding is_name write_file settle
  write_once receipt t d =
      settle d.builder.finalized (is_run_id d.builder.run_id) t.disk t.unlinked
        (write_file d.builder.run_id receipt d.files) d

  -- write_success
  unfoldable pub write_success : Moment → Desk → Py (Unit {0}) × Desk
  unfolding ensure_canonical_source has_evidence receipt_of write_once provided
  write_success t d =
      provided
        (ensure_canonical_source d.builder >>= λ _. require (has_evidence d.builder) value_error) d
        (write_once (receipt_of d.builder "success" (scalar null) t) t d)

  -- The builder as `write_failure` leaves it before it writes.
  unfoldable pub without_verdict : ReceiptBuilder → ReceiptBuilder
  unfolding ensure_learned_filesystem_state
  without_verdict b = record (ensure_learned_filesystem_state redact b) {
    evaluation = scalar null;
    outcome = none;
  }

  abbrev status_or : Option String → String → String
  status_or none s = s
  status_or (some t) s = if str_eq t "" then s else t

  -- The receipt that `write_failure` writes of such a builder.
  unfoldable pub failure_receipt :
      Failure → (stage : String) → (status : Option String) → Moment → ReceiptBuilder → Fields
  unfolding failure_items classify_failure receipt_of
  failure_receipt f stage status t b =
      receipt_of b (status_or status (classify_failure f stage))
        (obj (failure_items redact b f (field "stage" (text stage) end))) t

  -- write_failure
  unfoldable pub write_failure :
      Failure → (stage : String) → (status : Option String) → Moment → Desk → Py (Unit {0}) × Desk
  unfolding without_verdict failure_receipt write_once provided
  write_failure f stage status t d =
      let b = without_verdict d.builder in
      provided (require (not (str_eq stage "")) value_error) d
        (write_once (failure_receipt f stage status t b) t (record d { builder = b }))
