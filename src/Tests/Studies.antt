-- ===== src/Tests/Studies.antt =====
-- A study of one task under one condition, repeated twice: its plan, its runs and an execution.
use browserbench.Prelude.{
  ℕ, String, ◌≡◌, refl, Bool, false, ◌||◌, none, some, List, [], ◌∷◌, arith, ◌==◌, if◌then◌else◌,
  insert_sorted, sort,
}
use browserbench.Json.{lookup, pos, int, Value, scalar, obj, Fields, field, end, ok}
use browserbench.Claim.{is_space}
use browserbench.Study.{
  is_name, is_sha256, is_git_commit, left_strip, right_strip, strip, is_stripped, codes_lt,
  is_source, PlanSource, framework_name, option_eq, is_valid_arm, is_frozen_framework,
  condition_items, condition_key, Condition, TaskBinding, numbers, cells_of, task_cells, cells,
  run_lt, enumerate, is_planned, cell_identity, run_id_of, order_of, planned_run, plan_cells, runs,
  PlannedRun, texts_eq, text_lt, is_sorted, identity_items, identity_sha256, document_of,
  input_runs, validated_plan, PlanInputs, validated_plan-document_of, IsPlanInputs,
  validated_plan-IsRebuilt, IsRebuilt, runs-IsSchedule, IsSchedule,
}

abbrev pub digest_a : String
digest_a = "aaaaaaaaaaaaaaaaaaaaaaaaaaaaaaaaaaaaaaaaaaaaaaaaaaaaaaaaaaaaaaaa"

abbrev pub digest_b : String
digest_b = "bbbbbbbbbbbbbbbbbbbbbbbbbbbbbbbbbbbbbbbbbbbbbbbbbbbbbbbbbbbbbbbb"

abbrev has_second : Fields → Bool
has_second end = false
has_second (field k (scalar (int (pos n))) fs) = n == 2 || has_second fs
has_second (field k v fs) = has_second fs

-- A digest that tells the second repetition from the rest.
abbrev pub digest : Value → String
digest (obj fs) = if has_second fs then digest_b else digest_a
digest _ = digest_a

abbrev pub source : PlanSource
source = record {
  release = "0.1.0";
  git_commit = "aaaaaaaaaaaaaaaaaaaaaaaaaaaaaaaaaaaaaaaa";
  source_tree_sha256 = digest_a;
}

abbrev pub control_arm : Condition
control_arm = record {
  baseline = "playwright-exact";
  provider = none;
  model = some "deterministic-playwright";
  max_steps = none;
  framework = "playwright";
  framework_version = "1.40.0";
}

abbrev wall : ℕ
wall = 90

abbrev pub reading : TaskBinding
reading = record {
  task_id = "msg_read_01";
  definition_sha256 = digest_a;
  freeze = "0.1.0";
  steps = 15;
  wall_s = pos wall;
}

abbrev inputs : PlanInputs
inputs = record {
  study_id = "pilot";
  seed = "7";
  repetitions = 2;
  study_wall_s = pos 1000;
  source = source;
  runtime = record { tree_sha256 = digest_a };
  tasks = reading ∷ [];
  conditions = control_arm ∷ [];
}

abbrev pub key : String
key = "condition-v1-aaaaaaaaaaaaaaaaaaaaaaaaaaaaaaaaaaaaaaaaaaaaaaaaaaaaaaaaaaaaaaaa"

abbrev pub run_named : ℕ → String → PlannedRun
run_named n id = record {
  ordinal = n;
  run_id = id;
  task_id = "msg_read_01";
  task_sha256 = digest_a;
  condition_key = key;
  repetition = n;
  random_order_sha256 = digest_a;
}

abbrev pub id_a : String
id_a = "btb-r1-aaaaaaaaaaaaaaaaaaaaaaaaaaaaaaaaaaaaaaaaaaaaaaaaaaaaaaaaaaaaaaaa"

abbrev pub id_b : String
id_b = "btb-r1-bbbbbbbbbbbbbbbbbbbbbbbbbbbbbbbbbbbbbbbbbbbbbbbbbbbbbbbbbbbbbbbb"

abbrev pub planned : List PlannedRun
planned = run_named 1 id_a ∷ run_named 2 id_b ∷ []

inputs-IsPlanInputs : IsPlanInputs digest inputs
unfolding is_name is_source is_stripped is_git_commit is_sha256 strip left_strip right_strip
    is_space is_valid_arm option_eq is_frozen_framework framework_name is_sorted texts_eq sort
    insert_sorted text_lt codes_lt condition_key condition_items
inputs-IsPlanInputs = record {
  study_id = refl;
  seed = refl;
  repetitions = omega arith;
  wall = refl;
  source = refl;
  runtime = refl;
  some_tasks = refl;
  some_conditions = refl;
  tasks =
      (record { named = refl; digest = refl; frozen = refl; steps = omega arith; wall = refl }, tt);
  conditions = (record { arm = refl; steps = tt; frozen = refl }, tt);
  tasks_sorted = refl;
  conditions_sorted = refl;
}

scheduled :
    runs digest (identity_sha256 digest inputs) "7" 2 (reading ∷ []) (control_arm ∷ []) ≡ ok planned
unfolding runs plan_cells cells task_cells cells_of numbers planned_run run_id_of order_of
    condition_key cell_identity is_planned is_name sort insert_sorted run_lt codes_lt enumerate
    lookup identity_sha256 identity_items condition_items
scheduled = refl

input_scheduled : input_runs digest inputs ≡ ok planned
unfolding input_runs
input_scheduled = scheduled

validated_plan-document_of_example :
    validated_plan digest (obj (document_of digest inputs planned))
    ≡ ok (document_of digest inputs planned)
validated_plan-document_of_example =
    validated_plan-document_of digest inputs planned inputs-IsPlanInputs input_scheduled

validated_plan-IsRebuilt_example :
    (obj (document_of digest inputs planned) ≡ obj (document_of digest inputs planned))
    × IsRebuilt digest (document_of digest inputs planned)
validated_plan-IsRebuilt_example =
    validated_plan-IsRebuilt digest (obj (document_of digest inputs planned))
      (document_of digest inputs planned) validated_plan-document_of_example

runs-IsSchedule_example :
    IsSchedule digest
      (identity_sha256 digest inputs)
      "7"
      2
      (reading ∷ [])
      (control_arm ∷ [])
      planned
runs-IsSchedule_example =
    runs-IsSchedule digest (identity_sha256 digest inputs) "7" 2 (reading ∷ []) (control_arm ∷ [])
      planned scheduled
