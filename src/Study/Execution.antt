-- ===== src/Study/Execution.antt =====
-- `execute_plan`: the loop over the planned runs, with what the machine answers in each round.
use browserbench.Prelude.{
  ℕ, ◌+◌, String, Bool, false, not, ◌&&◌, ◌||◌, Option, none, some, List, [], ◌∷◌, ◌++◌, map,
  str_eq, ltb, if◌then◌else◌, any,
}
use browserbench.Json.{
  ◌>>=◌, require, ℤ, pos, negsuc, Value, Fields, PyError, receipt_error, execution_error, Py, ok,
  raise, value_eq,
}
use browserbench.Study.Conditions.{framework_identity, Condition}
use browserbench.Study.Bindings.{binding_from_definition, binding_to_dict, TaskBinding}
use browserbench.Study.Matrix.{PlannedRun}
use browserbench.Study.Opened.{task_and_condition, Study}
use browserbench.Study.Receipts.{
  same_names, validated_receipts, ReceiptDirectory, EntryKind, regular, receipt_name,
}

-- How the worker of a round ended: a process, or an executor that was passed in and may have raised.
pub data Worker : Type 0 where
  process : (timed_out teardown_error : Bool) → Worker
  injected : Worker

-- What the round of one run meets outside. Times are in the unit of the floats, so that the sums of
-- readings, budgets and durations here are exact.
pub record Round : Type 0 where
  -- what others do to the receipt directory before the check, and while the worker runs
  pub meanwhile : ReceiptDirectory → ReceiptDirectory
  pub during : ReceiptDirectory → ReceiptDirectory
  -- the clock at the two checks of the budget, after the worker and after the staging
  pub first_check : ℕ
  pub second_check : ℕ
  pub worker_ended : ℕ
  pub staging_ended : ℕ
  -- the builder of the receipt, and the staging root
  pub builder : Py (Unit {0})
  pub worker : Worker
  pub stage : ReceiptDirectory
  -- whether `_prepare_publication` and `_commit_publication` go through, or raise
  pub prepares : Bool
  pub commits : Bool
  pub inventory_error : Bool
  pub cleanup_error : Bool
  -- the receipt that the parent writes of a failure, and whether it can
  pub failure_receipt : (stage status : String) → Fields
  pub failure_written : Bool

pub record ExecutionReport : Type 0 where
  pub attempted : List String
  pub completed : List String
  pub skipped : List String
  pub unstarted : List String
  pub stopped_reason : Option String

pub data Finish : Type 0 where
  report : ExecutionReport → Finish
  raised : PyError → Finish

-- The local variables of the loop, and the directory.
pub record Progress : Type 0 where
  pub attempted : List String
  pub completed : List String
  pub skipped : List String
  pub existing : List (String × Fields)
  pub directory : ReceiptDirectory

-- The clock at which the study ends without any receipt, and the durations of the receipts.
pub record Budget : Type 0 where
  pub limit : ℕ
  pub consumed : ℕ

-- deadline - clock() < needed
abbrev pub falls_short : Budget → (now needed : ℕ) → Bool
falls_short b now needed = ltb b.limit (now + b.consumed + needed)

abbrev pub magnitude : ℤ → ℕ
magnitude (pos n) = n
magnitude (negsuc n) = 0

-- run_id in existing
unfoldable pub is_existing : String → List (String × Fields) → Bool
is_existing id es = any (λ e. str_eq id e.0) es

-- tuple(run.run_id for run in runs if run.run_id not in existing)
unfoldable pub pending : List (String × Fields) → List PlannedRun → List String
unfolding is_existing
pending es [] = []
pending es (r ∷ rs) =
    let rest = pending es rs in if is_existing r.run_id es then rest else r.run_id ∷ rest

abbrev pub has_receipt : String → ReceiptDirectory → Bool
has_receipt id d = any (λ e. elim e.name [ receipt_name n ↦ str_eq n id | _ ↦ false ]) d.entries

-- The directory with one receipt more; `os.link` refuses a name that is taken.
unfoldable pub publish :
    String → Fields → List (String × EntryKind) → ReceiptDirectory → Option ReceiptDirectory
publish id receipt artifacts d =
    if has_receipt id d
    then none
    else some (record {
      entries =
          d.entries
          ++ record { name = receipt_name id; kind = regular; content = some receipt } ∷ [];
      artifact_entries = d.artifact_entries ++ artifacts;
    })

-- How a round ends after its worker: the parent writes a failure and stops, or goes on, or it
-- publishes what the worker staged.
pub data Verdict : Type 0 where
  stop_after : (stage status reason : String) → Verdict
  failed_at : (stage : String) → Verdict
  staged : Fields → Verdict

unfoldable pub timed_out : Worker → Bool
timed_out (process t e) = t && not e
timed_out injected = false

unfoldable pub teardown_failed : Worker → Bool
teardown_failed (process t e) = e
teardown_failed injected = false

pub data Step : Type 0 where
  go_on : Progress → Step
  halt : Finish → ReceiptDirectory → Step

abbrev pub deadline_reason : String
deadline_reason = "study_wall_deadline_exhausted"

unfoldable pub is_late : Budget → Round → Bool
unfolding timed_out teardown_failed
is_late b x =
    let late = timed_out x.worker || falls_short b x.worker_ended 0 in
    if late || teardown_failed x.worker then late else falls_short b x.staging_ended 0

-- _write_parent_failure: the directory with the failure's receipt, or none where it cannot.
unfoldable pub parent_failure :
    PlannedRun → Round → (stage status : String) → ReceiptDirectory → Option ReceiptDirectory
unfolding publish
parent_failure r x stage status d =
    let written = publish r.run_id (x.failure_receipt stage status) [] d in
    if x.failure_written then written else none

-- `return ExecutionReport(...)`
unfoldable pub stopping : Progress → List String → String → Finish
stopping p unstarted reason = report (record {
  attempted = p.attempted;
  completed = p.completed;
  skipped = p.skipped;
  unstarted = unstarted;
  stopped_reason = some reason;
})

abbrev pub attempt : PlannedRun → Progress → Progress
attempt r p = record p { attempted = p.attempted ++ r.run_id ∷ [] }

abbrev pub complete : PlannedRun → ReceiptDirectory → Progress → Progress
complete r d p = record p { completed = p.completed ++ r.run_id ∷ []; directory = d }

-- A failure whose receipt is written, after which the loop goes on; `existing` stays.
unfoldable pub go_on_after : PlannedRun → Round → String → Progress → Step
unfolding parent_failure
go_on_after r x stage p = elim (parent_failure r x stage "setup_error" p.directory) [
  | none ↦ halt (raised execution_error) p.directory
  | some d ↦ go_on (complete r d p)
]

unfoldable pub conclude : PlannedRun → List PlannedRun → Round → Progress → Verdict → Step
unfolding parent_failure stopping pending go_on_after publish
conclude r later x p (stop_after stage status reason) =
    elim (parent_failure r x stage status p.directory) [
      | none ↦ halt (raised execution_error) p.directory
      | some d ↦ halt (stopping (complete r d p) (pending p.existing later) reason) d
    ]
conclude r later x p (failed_at stage) = go_on_after r x stage p
conclude r later x p (staged receipt) =
    let failed = go_on_after r x "parent_receipt_publication" p in
    elim (publish r.run_id receipt x.stage.artifact_entries p.directory) [
      | none ↦ failed
      | some d ↦
          if x.commits
          then go_on (record (complete r d p) { existing = p.existing ++ (r.run_id, receipt) ∷ [] })
          else failed
    ]

module _ (sha256 : Value → String) (valid : Fields → Bool) (split : String → Option String)
    (installed : String → Option String) (definition : String → Py Fields) where
  -- _current_task
  unfoldable pub current_task : TaskBinding → Py (Unit {0})
  unfolding binding_from_definition value_eq binding_to_dict
  current_task t = definition t.task_id >>= binding_from_definition sha256 t.task_id >>= λ now.
      require (value_eq (binding_to_dict now) (binding_to_dict t)) execution_error

  -- _require_current_framework
  unfoldable pub require_current_framework : Condition → Py (Unit {0})
  unfolding framework_identity
  require_current_framework c = framework_identity installed c.baseline >>= λ f.
      require (str_eq f.0 c.framework && str_eq f.1 c.framework_version) execution_error

  -- _stage_receipt
  unfoldable pub stage_receipt : Study → PlannedRun → ReceiptDirectory → Py Fields
  unfolding validated_receipts
  stage_receipt s r stage = validated_receipts sha256 valid split s false (some stage) >>= λ found.
      elim found [
        | [] ↦ raise receipt_error
        | first ∷ [] ↦ if str_eq first.0 r.run_id then ok first.1 else raise receipt_error
        | _ ↦ raise receipt_error
      ]

  -- What is staged once the worker has ended in time: nothing if any part of it raises.
  unfoldable pub staged_receipt : Study → PlannedRun → Round → Option Fields
  unfolding stage_receipt
  staged_receipt s r x = elim (stage_receipt s r x.stage) [
    | ok receipt ↦ if x.prepares then some receipt else none
    | raise e ↦ none
  ]

  unfoldable pub verdict : Study → Budget → PlannedRun → Round → Verdict
  unfolding is_late teardown_failed staged_receipt
  verdict s b r x =
      if x.cleanup_error
      then stop_after "parent_work_root_cleanup" "setup_error" "parent_work_root_cleanup_failed"
      else if x.inventory_error
      then stop_after "parent_work_root_inventory" "setup_error" "parent_work_root_inventory_failed"
      else if is_late b x
      then stop_after "outer_study_deadline" "timeout" deadline_reason
      else if teardown_failed x.worker
      then stop_after "worker_process_group_teardown" "setup_error"
          "worker_process_group_teardown_failed"
      else elim (staged_receipt s r x) [
        | none ↦ failed_at "repetition_executor_unhandled"
        | some receipt ↦ staged receipt
      ]

  -- From the worker's start to the end of the round.
  unfoldable pub work : Study → Budget → PlannedRun → List PlannedRun → Round → Progress → Step
  unfolding verdict conclude
  work s b r later x p =
      let q = record (attempt r p) { directory = x.during p.directory } in
      if has_receipt r.run_id q.directory
      then halt (raised execution_error) q.directory
      else conclude r later x q (verdict s b r x)

  -- The checks between the two readings of the clock.
  unfoldable pub check_round : Study → TaskBinding × Condition → Round → Progress → Py (Unit {0})
  unfolding validated_receipts same_names current_task require_current_framework
  check_round s bound x p =
      validated_receipts sha256 valid split s false (some p.directory) >>= λ found.
      require (same_names (map (λ f. f.0) found) (map (λ e. e.0) p.existing)) receipt_error >>= λ _.
      current_task bound.0 >>= λ _. require_current_framework bound.1 >>= λ _. x.builder

  -- One round of a run that has no receipt.
  unfoldable pub start_run :
      Study
      → Budget
      → PlannedRun
      → List PlannedRun
      → Round
      → TaskBinding × Condition
      → Progress
      → Step
  unfolding check_round stopping pending work
  start_run s b r later x bound p =
      let q = record p { directory = x.meanwhile p.directory } in
      let out = halt (stopping p (pending p.existing (r ∷ later)) deadline_reason) in
      if falls_short b x.first_check (magnitude bound.0.wall_s)
      then out p.directory
      else elim (check_round s bound x q) [
        | raise e ↦ halt (raised e) q.directory
        | ok _ ↦
            if falls_short b x.second_check (magnitude bound.0.wall_s)
            then out q.directory
            else work s b r later x q
      ]

  unfoldable pub run_step : Study → Budget → PlannedRun → List PlannedRun → Round → Progress → Step
  unfolding is_existing task_and_condition start_run
  run_step s b r later x p =
      if is_existing r.run_id p.existing
      then go_on (record p { skipped = p.skipped ++ r.run_id ∷ [] })
      else elim (task_and_condition sha256 s r) [
        | raise e ↦ halt (raised e) p.directory
        | ok bound ↦ start_run s b r later x bound p
      ]

  -- The loop, and the report after it.
  unfoldable pub execute_runs :
      Study → Budget → (String → Round) → List PlannedRun → Progress → Finish × ReceiptDirectory
  unfolding run_step
  execute_runs s b rounds [] p = (
    report (record {
      attempted = p.attempted;
      completed = p.completed;
      skipped = p.skipped;
      unstarted = [];
      stopped_reason = none;
    }),
    p.directory,
  )
  execute_runs s b rounds (r ∷ rs) p = elim (run_step s b r rs (rounds r.run_id) p) [
    | go_on q ↦ execute_runs s b rounds rs q
    | halt f d ↦ (f, d)
  ]
