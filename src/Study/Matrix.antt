-- ===== src/Study/Matrix.antt =====
-- `PlannedRun` and `_runs`: every task under every condition, repeated, in the order of a hash.
use browserbench.Prelude.{
  ℕ, zero, suc, String, Bool, true, not, ◌&&◌, List, [], ◌∷◌, str_eq, ltb, if◌then◌else◌, any, sort,
}
use Prim.Native.String.{◌++◌}
use mathlib.Core.List.{◌++◌ as append}
use browserbench.Json.{
  ◌>>=◌, require, pos, bool, int, str, Value, scalar, obj, field, end, plan_error, Py, ok, raise,
  item_of, same_keys,
}
use browserbench.Study.Texts.{is_name, is_run_id, codes_lt}
use browserbench.Claim.{codes}
use browserbench.Study.Identity.{text}
use browserbench.Study.Conditions.{required_text, condition_items, condition_key, Condition}
use browserbench.Study.Bindings.{positive_steps, digest_text, binding_to_dict, TaskBinding}

pub record PlannedRun : Type 0 where
  pub ordinal : ℕ
  pub run_id : String
  pub task_id : String
  pub task_sha256 : String
  pub condition_key : String
  pub repetition : ℕ
  pub random_order_sha256 : String

-- What one run repeats.
pub record Cell : Type 0 where
  pub task : TaskBinding
  pub condition : Condition
  pub repetition : ℕ

abbrev natural : ℕ → Value
natural n = scalar (int (pos n))

abbrev run_fields : List String
run_fields =
    "ordinal" ∷ "run_id" ∷ "task_id" ∷ "task_sha256" ∷ "condition_key" ∷ "repetition"
    ∷ "random_order_sha256" ∷ []

unfoldable pub run_to_dict : PlannedRun → Value
run_to_dict r = obj (
    field "ordinal" (natural r.ordinal) (
      field "run_id" (text r.run_id) (
        field "task_id" (text r.task_id) (
          field "task_sha256" (text r.task_sha256) (
            field "condition_key" (text r.condition_key) (
              field "repetition" (natural r.repetition)
                (field "random_order_sha256" (text r.random_order_sha256) end)))))))

-- `isinstance(value, int) and value >= 1`, which True passes as 1.
unfoldable pub repetition_number : Value → Py ℕ
repetition_number (scalar (int (pos n))) = if ltb n 1 then raise plan_error else ok n
repetition_number (scalar (bool true)) = ok 1
repetition_number _ = raise plan_error

unfoldable pub run_id_text : Value → Py String
unfolding is_name
run_id_text (scalar (str s)) = if is_run_id s then ok s else raise plan_error
run_id_text _ = raise plan_error

-- PlannedRun.from_mapping. A digest is matched by its `str`, so an integer of 64 digits would pass
-- there; in a plan it equals no digest, and here it is refused.
unfoldable pub run_from_mapping : Value → Py PlannedRun
unfolding same_keys item_of positive_steps repetition_number run_id_text required_text digest_text
run_from_mapping (obj fs) = require (same_keys run_fields fs) plan_error >>= λ _.
    positive_steps (item_of "ordinal" fs) >>= λ ordinal.
    repetition_number (item_of "repetition" fs) >>= λ repetition.
    run_id_text (item_of "run_id" fs) >>= λ run_id.
    required_text (item_of "task_id" fs) >>= λ task_id.
    required_text (item_of "condition_key" fs) >>= λ key.
    digest_text (item_of "task_sha256" fs) >>= λ task_sha256.
    digest_text (item_of "random_order_sha256" fs) >>= λ order. ok (record {
      ordinal = ordinal;
      run_id = run_id;
      task_id = task_id;
      task_sha256 = task_sha256;
      condition_key = key;
      repetition = repetition;
      random_order_sha256 = order;
    })
run_from_mapping _ = raise plan_error

-- range(first, first + count)
unfoldable pub numbers : (first count : ℕ) → List ℕ
numbers first zero = []
numbers first (suc n) = first ∷ numbers (suc first) n

unfoldable pub cells_of : TaskBinding → Condition → List ℕ → List Cell
cells_of t c [] = []
cells_of t c (n ∷ ns) = record { task = t; condition = c; repetition = n } ∷ cells_of t c ns

unfoldable pub task_cells : ℕ → TaskBinding → List Condition → List Cell
unfolding cells_of numbers
task_cells repetitions t [] = []
task_cells repetitions t (c ∷ cs) =
    append (cells_of t c (numbers 1 repetitions)) (task_cells repetitions t cs)

-- The rounds of the three loops, in their order.
unfoldable pub cells : ℕ → List TaskBinding → List Condition → List Cell
unfolding task_cells
cells repetitions [] cs = []
cells repetitions (t ∷ ts) cs = append (task_cells repetitions t cs) (cells repetitions ts cs)

-- The key of the sort: the order digest, then the run id.
unfoldable pub run_lt : PlannedRun → PlannedRun → Bool
unfolding codes_lt
run_lt a b =
    if str_eq a.random_order_sha256 b.random_order_sha256
    then codes_lt (codes a.run_id) (codes b.run_id)
    else codes_lt (codes a.random_order_sha256) (codes b.random_order_sha256)

-- for ordinal, item in enumerate(planned, start=1): item["ordinal"] = ordinal
unfoldable pub enumerate : ℕ → List PlannedRun → List PlannedRun
enumerate n [] = []
enumerate n (r ∷ rs) = record r { ordinal = n } ∷ enumerate (suc n) rs

-- run_id in run_ids
unfoldable pub is_planned : String → List PlannedRun → Bool
is_planned s rs = any (λ r. str_eq s r.run_id) rs

module _ (sha256 : Value → String) where
  -- What `run_id` hashes.
  unfoldable pub cell_identity : (identity : String) → Cell → Value
  unfolding binding_to_dict condition_items
  cell_identity identity c = obj (
      field "algorithm" (text "sha256-plan-source-runtime-task-condition-repetition-v3") (
        field "plan_identity_sha256" (text identity) (
          field "task" (binding_to_dict c.task) (
            field "condition" (obj (condition_items c.condition))
              (field "repetition" (natural c.repetition) end)))))

  unfoldable pub run_id_of : (identity : String) → Cell → String
  unfolding cell_identity
  run_id_of identity c = "btb-r1-" ++ sha256 (cell_identity identity c)

  unfoldable pub order_of : (seed run_id : String) → String
  order_of seed run_id = sha256 (
      obj (
        field "algorithm" (text "sha256-seed-sort-v1") (
          field "version" (text "1")
            (field "seed" (text seed) (field "run_id" (text run_id) end)))))

  unfoldable pub planned_run : (identity seed : String) → Cell → PlannedRun
  unfolding run_id_of order_of condition_key
  planned_run identity seed c = record {
    ordinal = 0;
    run_id = run_id_of identity c;
    task_id = c.task.task_id;
    task_sha256 = c.task.definition_sha256;
    condition_key = condition_key sha256 c.condition;
    repetition = c.repetition;
    random_order_sha256 = order_of seed (run_id_of identity c);
  }

  -- The body of the loops: the set of ids is that of the runs planned so far.
  unfoldable pub plan_cells :
      (identity seed : String) → List PlannedRun → List Cell → Py (List PlannedRun)
  unfolding planned_run is_planned is_name
  plan_cells identity seed planned [] = ok planned
  plan_cells identity seed planned (c ∷ cs) =
      let r = planned_run identity seed c in
      require (is_run_id r.run_id && not (is_planned r.run_id planned)) plan_error >>= λ _.
      plan_cells identity seed (append planned (r ∷ [])) cs

  -- _runs
  unfoldable pub runs :
      (identity seed : String) → ℕ → List TaskBinding → List Condition → Py (List PlannedRun)
  unfolding plan_cells cells run_lt sort enumerate
  runs identity seed repetitions tasks conditions =
      plan_cells identity seed [] (cells repetitions tasks conditions) >>= λ planned.
      ok (enumerate 1 (sort run_lt planned))
