-- ===== src/Tests/Executions.antt =====
-- The study of the samples, executed from an empty receipt directory, and publications.
use mathlib.Core.Logic.{◌⊎◌}
use browserbench.Prelude.{
  ℕ, String, ◌≡◌, refl, ◌⊎◌, Bool, true, false, Option, none, some, [], ◌∷◌, AllPairs,
}
use browserbench.Json.{
  ℤ_eq, scalar_eq, is_str, lookup, pos, int, real, str, scalar, obj, Fields, field, end, Py, ok,
  as_float, has_field, item_of, value_eq,
}
use browserbench.Study.{
  source_to_dict, framework_name, framework_identity, positive, positive_steps, nonempty_text,
  fields_or_fail, binding_from_definition, binding_to_dict, DifferentIds, find_condition, find_task,
  task_and_condition, Study, same_names, receipt_entries, read_receipts, check_artifacts,
  validated_receipts, Entry, ReceiptDirectory, regular, receipt_name, is_existing, pending, publish,
  timed_out, teardown_failed, is_late, parent_failure, stopping, conclude, current_task,
  require_current_framework, stage_receipt, staged_receipt, verdict, work, check_round, start_run,
  run_step, execute_runs, Round, ExecutionReport, Progress, Budget, injected, report, find_receipt,
  consumed, execution_source, execution_runtime, prepare, resume, execute_plan, Start,
  execute_plan-Accounts, Accounts,
}
use browserbench.Publication.{
  contains, remove, perform, artifact_calls, receipt_calls, loop_calls, unlink_each, reversed,
  rollback, run_calls, commit_publication, Folders, Publication,
}
use browserbench.Tests.Studies.{
  digest_a, digest, source, control_arm, reading, key, id_a, id_b, planned,
}

abbrev study : Study
study = record {
  study_id = "pilot";
  plan_sha256 = digest_a;
  study_wall_s = pos 100;
  source = source;
  runtime = record { tree_sha256 = digest_a };
  tasks = reading ∷ [];
  conditions = (key, control_arm) ∷ [];
  planned = planned;
}

abbrev definition_items : Fields
definition_items = field "id" (scalar (str "msg_read_01")) (
    field "freeze" (scalar (str "0.1.0")) (
      field "budget"
        (obj (field "steps" (scalar (int (pos 15))) (field "wall_s" (scalar (real (pos 90))) end)))
        end))

abbrev definitions : String → Py Fields
definitions s = ok definition_items

abbrev installed : String → Option String
installed s = some "1.40.0"

abbrev everything_valid : Fields → Bool
everything_valid fs = true

abbrev no_artifact : String → Option String
no_artifact s = none

abbrev empty_directory : ReceiptDirectory
empty_directory = record { entries = []; artifact_entries = [] }

abbrev failure_of : String → (stage status : String) → Fields
failure_of id stage status =
    field "run_id" (scalar (str id)) (field "status" (scalar (str status)) end)

-- A round whose worker leaves no receipt; `late` is the clock after it.
abbrev round_with : (id : String) (late : ℕ) → Round
round_with id late = record {
  meanwhile = λ d. d;
  during = λ d. d;
  first_check = 0;
  second_check = 1;
  worker_ended = late;
  staging_ended = late;
  builder = ok tt;
  worker = injected;
  stage = empty_directory;
  prepares = true;
  commits = true;
  inventory_error = false;
  cleanup_error = false;
  failure_receipt = failure_of id;
  failure_written = true;
}

abbrev filed : String → String → String → Entry
filed id stage status = record {
  name = receipt_name id;
  kind = regular;
  content = some (failure_of id stage status);
}

abbrev beginning_of_study : Start
beginning_of_study = record {
  source = ok source;
  runtime = ok (record { tree_sha256 = digest_a });
  directory = empty_directory;
  started = 0;
}

abbrev timed_out_report : ExecutionReport
timed_out_report = record {
  attempted = id_a ∷ [];
  completed = id_a ∷ [];
  skipped = [];
  unstarted = id_b ∷ [];
  stopped_reason = some "study_wall_deadline_exhausted";
}

abbrev timed_out_directory : ReceiptDirectory
timed_out_directory = record {
  entries = filed id_a "outer_study_deadline" "timeout" ∷ [];
  artifact_entries = [];
}

prepared :
    prepare digest everything_valid no_artifact installed definitions study beginning_of_study
    ≡ ok []
unfolding prepare execution_source execution_runtime value_eq has_field item_of lookup scalar_eq
    ℤ_eq source_to_dict validated_receipts receipt_entries read_receipts check_artifacts
prepared = refl

executed :
    execute_plan digest everything_valid no_artifact installed definitions study beginning_of_study
      (λ id. round_with id 101)
    ≡ (report timed_out_report, timed_out_directory)
unfolding execute_plan prepare execution_source execution_runtime value_eq has_field item_of lookup
    scalar_eq ℤ_eq source_to_dict validated_receipts receipt_entries read_receipts check_artifacts
    resume consumed find_receipt is_existing execute_runs run_step task_and_condition find_task
    find_condition start_run check_round current_task binding_from_definition is_str fields_or_fail
    nonempty_text positive_steps positive as_float binding_to_dict require_current_framework
    framework_identity framework_name work verdict staged_receipt stage_receipt is_late timed_out
    teardown_failed conclude parent_failure publish stopping pending same_names
executed = refl

distinct : AllPairs DifferentIds planned
distinct = ((refl, tt), (tt, tt))

execute_plan-Accounts_example : Accounts (pending [] planned) timed_out_report
execute_plan-Accounts_example =
    execute_plan-Accounts digest everything_valid no_artifact installed definitions study
      beginning_of_study (λ id. round_with id 101) [] timed_out_report timed_out_directory distinct
      prepared executed

abbrev before_failure : Progress
before_failure = record {
  attempted = id_a ∷ [];
  completed = [];
  skipped = [];
  existing = [];
  directory = empty_directory;
}

abbrev after_failure : Progress
after_failure = record {
  attempted = id_a ∷ [];
  completed = id_a ∷ [];
  skipped = [];
  existing = [];
  directory = record {
    entries = filed id_a "repetition_executor_unhandled" "setup_error" ∷ [];
    artifact_entries = [];
  };
}

abbrev budget : Budget
budget = record { limit = 100; consumed = 0 }

abbrev one_artifact : Publication
one_artifact = record {
  artifacts = (".btb-repeat-1.tmp", "trace.json") ∷ [];
  receipt_temp = ".btb-repeat-2.tmp";
  receipt_target = "run.json";
}

abbrev old_folders : Folders
old_folders = record { root = "other.json" ∷ []; artifacts = "old.json" ∷ [] }

abbrev prepared_folders : Folders
prepared_folders = record {
  root = "other.json" ∷ [];
  artifacts = "old.json" ∷ ".btb-repeat-1.tmp" ∷ [];
}

-- The call after the link of the artifact raises: the artifact stays.
orphan :
    commit_publication one_artifact (some 5) prepared_folders
    ≡ (false, record { root = "other.json" ∷ []; artifacts = "old.json" ∷ "trace.json" ∷ [] })
unfolding commit_publication run_calls perform artifact_calls receipt_calls loop_calls rollback
    unlink_each reversed remove contains
orphan = refl

-- No call raises: all is published.
complete_run : commit_publication one_artifact none prepared_folders ≡ (
  true,
  record { root = "other.json" ∷ "run.json" ∷ []; artifacts = "old.json" ∷ "trace.json" ∷ [] },
)
unfolding commit_publication run_calls perform artifact_calls receipt_calls loop_calls rollback
    unlink_each reversed remove contains
complete_run = refl
