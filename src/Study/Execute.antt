-- ===== src/Study/Execute.antt =====
-- `execute_plan` before its loop: the checks of source and runtime, the receipts that a directory
-- already holds, and the budget that these leave.
use browserbench.Prelude.{
  ℕ, ◌+◌, String, Bool, false, Option, none, some, List, [], ◌∷◌, str_eq, if◌then◌else◌, any,
}
use browserbench.Json.{
  ◌>>=◌, require, is_str, pos, negsuc, Value, Fields, plan_error, receipt_error, execution_error,
  Py, ok, raise, as_float, item_of, value_eq,
}
use browserbench.Study.Identity.{source_to_dict, PlanSource, RuntimeIdentity}
use browserbench.Study.Matrix.{PlannedRun}
use browserbench.Study.Opened.{Study}
use browserbench.Study.Receipts.{fields_at, validated_receipts, ReceiptDirectory}
use browserbench.Study.Execution.{
  magnitude, is_existing, pending, execute_runs, Round, Progress, Finish, report, raised,
}

-- _receipt_duration
unfoldable pub receipt_duration : Fields → Py ℕ
unfolding as_float item_of
receipt_duration receipt = as_float (item_of "duration_s" receipt) >>= λ o. elim o [
  | none ↦ raise receipt_error
  | some (pos n) ↦ ok n
  | some (negsuc n) ↦ raise receipt_error
]

unfoldable pub find_receipt : String → List (String × Fields) → Option Fields
find_receipt id [] = none
find_receipt id ((k, fs) ∷ es) = if str_eq id k then some fs else find_receipt id es

-- sum(_receipt_duration(existing[run.run_id]) for run in runs if run.run_id in existing)
unfoldable pub consumed : List (String × Fields) → List PlannedRun → Py ℕ
unfolding receipt_duration find_receipt
consumed es [] = ok 0
consumed es (r ∷ rs) = elim (find_receipt r.run_id es) [
  | none ↦ consumed es rs
  | some receipt ↦ receipt_duration receipt >>= λ n. consumed es rs >>= λ m. ok (n + m)
]

-- receipt["execution"]["failure"]["stage"] == "worker_process_group_teardown"
unfoldable pub is_teardown : Fields → Bool
unfolding fields_at is_str item_of
is_teardown receipt =
    is_str (item_of "stage" (fields_at "failure" (fields_at "execution" receipt)))
      "worker_process_group_teardown"

-- tuple(run.run_id for run in runs if run.run_id in existing)
unfoldable pub present : List (String × Fields) → List PlannedRun → List String
unfolding is_existing
present es [] = []
present es (r ∷ rs) =
    let rest = present es rs in if is_existing r.run_id es then r.run_id ∷ rest else rest

-- _execution_source, where a PlanError of `_source_binding` becomes a StudyExecutionError
unfoldable pub execution_source : Py PlanSource → Study → Py (Unit {0})
unfolding value_eq source_to_dict
execution_source (raise plan_error) s = raise execution_error
execution_source (raise e) s = raise e
execution_source (ok observed) s =
    require (value_eq (source_to_dict observed) (source_to_dict s.source)) execution_error

-- _execution_runtime
unfoldable pub execution_runtime : Py RuntimeIdentity → Study → Py (Unit {0})
execution_runtime observed s =
    observed >>= λ r. require (str_eq r.tree_sha256 s.runtime.tree_sha256) execution_error

-- What the machine answers before the loop; `started` is the clock at the deadline's setting.
pub record Start : Type 0 where
  pub source : Py PlanSource
  pub runtime : Py RuntimeIdentity
  pub directory : ReceiptDirectory
  pub started : ℕ

abbrev pub beginning : List (String × Fields) → Start → Progress
beginning existing x = record {
  attempted = [];
  completed = [];
  skipped = [];
  existing = existing;
  directory = x.directory;
}

module _ (sha256 : Value → String) (valid : Fields → Bool) (split : String → Option String)
    (installed : String → Option String) (definition : String → Py Fields) where
  -- The checks, and the receipts that stand.
  unfoldable pub prepare : Study → Start → Py (List (String × Fields))
  unfolding execution_source execution_runtime validated_receipts
  prepare s x = execution_source x.source s >>= λ _. execution_runtime x.runtime s >>= λ _.
      validated_receipts sha256 valid split s false (some x.directory)

  unfoldable pub resume :
      Study → Start → (String → Round) → List (String × Fields) → Finish × ReceiptDirectory
  unfolding is_teardown present pending consumed execute_runs
  resume s x rounds existing =
      if any (λ e. is_teardown e.1) existing
      then (
        report (record {
          attempted = [];
          completed = [];
          skipped = present existing s.planned;
          unstarted = pending existing s.planned;
          stopped_reason = some "worker_process_group_teardown_failed";
        }),
        x.directory,
      )
      else elim (consumed existing s.planned) [
        | raise e ↦ (raised e, x.directory)
        | ok spent ↦
            execute_runs sha256 valid split installed definition s
              (record { limit = x.started + magnitude s.study_wall_s; consumed = spent }) rounds
              s.planned (beginning existing x)
      ]

  -- execute_plan
  unfoldable pub execute_plan : Study → Start → (String → Round) → Finish × ReceiptDirectory
  unfolding prepare resume
  execute_plan s x rounds = elim (prepare s x) [
    | raise e ↦ (raised e, x.directory)
    | ok existing ↦ resume s x rounds existing
  ]
