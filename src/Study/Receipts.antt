-- ===== src/Study/Receipts.antt =====
-- `validated_receipts`: the layout of a receipt directory, and the receipts that bind to a plan.
use browserbench.Prelude.{
  String, Bool, true, false, not, ◌&&◌, ◌||◌, Option, none, some, List, [], ◌∷◌, ◌++◌, map, str_eq,
  if◌then◌else◌, any, all, is_empty,
}
use browserbench.Json.{
  ◌>>=◌, require, is_str, is_dict, is_true, null, real, str, Value, scalar, obj, Fields, field, end,
  receipt_error, Py, ok, raise, item_of, value_eq,
}
use browserbench.Study.Identity.{receipt_source}
use browserbench.Study.Conditions.{condition_items}
use browserbench.Study.Bindings.{TaskBinding}
use browserbench.Study.Matrix.{PlannedRun}
use browserbench.Study.Opened.{task_and_condition, Study}

-- What `lstat` says of an entry.
pub data EntryKind : Type 0 where
  regular folder other_kind : EntryKind

-- A name as the loop takes it apart: "artifacts", a run id before ".json", or another.
pub data EntryName : Type 0 where
  artifacts_name : EntryName
  receipt_name : String → EntryName
  foreign_name : EntryName

-- An entry, with the JSON object that its bytes hold if they hold one of bounded size.
pub record Entry : Type 0 where
  pub name : EntryName
  pub kind : EntryKind
  pub content : Option Fields

-- A receipt directory, and the entries of its artifact directory.
pub record ReceiptDirectory : Type 0 where
  pub entries : List Entry
  pub artifact_entries : List (String × EntryKind)

abbrev pub is_regular : EntryKind → Bool
is_regular regular = true
is_regular _ = false

abbrev pub is_folder : EntryKind → Bool
is_folder folder = true
is_folder _ = false

-- receipt["a"]["b"], through dicts only
unfoldable pub fields_at : String → Fields → Fields
unfolding item_of
fields_at k fs = elim (item_of k fs) [ obj gs ↦ gs | _ ↦ end ]

abbrev text_in : Value → List String → Bool
text_in (scalar (str s)) ids = any (str_eq s) ids
text_in _ ids = false

-- What `_artifact_names` takes of one piece of metadata: the name in a path artifacts/<name>.
-- `split` is `Path(...)`, which gives that name, or nothing for another shape.
unfoldable pub artifact_name : (split : String → Option String) → Value → Py (List String)
unfolding item_of
artifact_name split (scalar null) = ok []
artifact_name split (obj fs) = elim (item_of "path" fs) [
  | scalar (str p) ↦ elim (split p) [ none ↦ raise receipt_error | some n ↦ ok (n ∷ []) ]
  | _ ↦ raise receipt_error
]
artifact_name split _ = raise receipt_error

-- _artifact_names
unfoldable pub artifact_names : (split : String → Option String) → Fields → Py (List String)
unfolding artifact_name fields_at item_of
artifact_names split receipt = artifact_name split (item_of "trace" receipt) >>= λ traces.
    artifact_name split (item_of "inventory" (fields_at "framework_filesystem" receipt))
    >>= λ inventories. ok (traces ++ inventories)

-- set(a) == set(b)
unfoldable pub same_names : List String → List String → Bool
same_names ss ts = all (λ s. any (str_eq s) ts) ss && all (λ t. any (str_eq t) ss) ts

unfoldable pub find_planned : String → List PlannedRun → Option PlannedRun
find_planned id [] = none
find_planned id (r ∷ rs) = if str_eq r.run_id id then some r else find_planned id rs

abbrev pub content_or_fail : Option Fields → Py Fields
content_or_fail none = raise receipt_error
content_or_fail (some fs) = ok fs

-- One entry before the rest of the loop: it has its place, or it is refused.
unfoldable pub place :
    List PlannedRun
    → EntryName
    → EntryKind
    → Option Fields
    → Py (List (PlannedRun × Option Fields))
    → Py (List (PlannedRun × Option Fields))
unfolding find_planned
place rs artifacts_name kind content rest = require (is_folder kind) receipt_error >>= λ _. rest
place rs (receipt_name id) kind content rest = elim (find_planned id rs) [
  | none ↦ raise receipt_error
  | some r ↦
      require (is_regular kind) receipt_error >>= λ _. rest >>= λ more. ok ((r, content) ∷ more)
]
place rs foreign_name kind content rest = raise receipt_error

-- The receipt entries of the directory, with the run that each is named after.
unfoldable pub receipt_entries :
    List PlannedRun → List Entry → Py (List (PlannedRun × Option Fields))
unfolding place
receipt_entries rs [] = ok []
receipt_entries rs (e ∷ es) = place rs e.name e.kind e.content (receipt_entries rs es)

module _ (sha256 : Value → String) (valid : Fields → Bool) (split : String → Option String) where
  -- What the receipt says of its condition.
  unfoldable pub observed_condition : Fields → Value
  unfolding fields_at item_of
  observed_condition receipt =
      let baseline = fields_at "baseline" receipt in
      obj (
        field "baseline" (item_of "name" baseline) (
          field "provider" (item_of "provider" baseline) (
            field "model" (item_of "model" baseline) (
              field "max_steps" (item_of "configured_steps" (fields_at "execution" receipt)) (
                field "framework" (item_of "name" (fields_at "framework" baseline)) (
                  field "framework_version"
                    (item_of "installed_version" (fields_at "framework" baseline)) end))))))

  unfoldable pub is_bound_to_run : Study → PlannedRun → TaskBinding → Fields → Bool
  unfolding fields_at item_of is_str
  is_bound_to_run s r t receipt =
      let task = fields_at "task" receipt in
      let definition = fields_at "definition" task in
      is_str (item_of "run_id" receipt) r.run_id
      && is_dict (item_of "execution" receipt)
      && is_true (item_of "requested_canonical" (fields_at "execution" receipt))
      && is_dict (item_of "task" receipt)
      && is_dict (item_of "definition" task)
      && is_str (item_of "sha256" task) t.definition_sha256
      && is_str (item_of "id" definition) t.task_id
      && str_eq (sha256 (obj definition)) t.definition_sha256
      && is_str (item_of "freeze" receipt) t.freeze
      && is_str (item_of "freeze" definition) t.freeze
      && is_dict (item_of "baseline" receipt)

  -- _validate_receipt_binding of a receipt that has been read; `valid` is the independent validator.
  unfoldable pub validate_receipt_binding : Study → PlannedRun → Fields → Py Fields
  unfolding is_bound_to_run observed_condition task_and_condition value_eq receipt_source
      condition_items is_str fields_at item_of
  validate_receipt_binding s r receipt = require (valid receipt) receipt_error >>= λ _.
      require (is_true (item_of "canonical" receipt)) receipt_error >>= λ _.
      require
        (is_str (item_of "release" receipt) s.source.release
          && value_eq (item_of "source" receipt) (receipt_source s.source))
        receipt_error
      >>= λ _. task_and_condition sha256 s r >>= λ bound.
          require (is_bound_to_run s r bound.0 receipt) receipt_error >>= λ _.
          require
            (value_eq (observed_condition receipt) (obj (condition_items bound.1))
              && value_eq (item_of "configured_wall_s" (fields_at "execution" receipt))
                  (scalar (real bound.0.wall_s)))
            receipt_error
          >>= λ _. ok receipt

  -- The receipts by run id, and the artifacts that they need.
  unfoldable pub read_receipts :
      Study → List (PlannedRun × Option Fields) → Py (List (String × Fields) × List String)
  unfolding validate_receipt_binding artifact_names is_str item_of
  read_receipts s [] = ok ([], [])
  read_receipts s ((r, content) ∷ more) = content_or_fail content >>= λ raw.
      require (is_str (item_of "run_id" raw) r.run_id) receipt_error >>= λ _.
      validate_receipt_binding s r raw >>= λ receipt. artifact_names split receipt >>= λ names.
      read_receipts s more >>= λ rest. ok ((r.run_id, receipt) ∷ rest.0, names ++ rest.1)

  abbrev has_artifacts : List Entry → Bool
  has_artifacts es = any (λ e. elim e.name [ artifacts_name ↦ true | _ ↦ false ]) es

  unfoldable pub check_artifacts : ReceiptDirectory → List String → Py (Unit {0})
  unfolding same_names
  check_artifacts d required =
      if has_artifacts d.entries
      then require
          (same_names (map (λ a. a.0) d.artifact_entries) required
            && all (λ a. is_regular a.1) d.artifact_entries)
          receipt_error
      else require (is_empty required) receipt_error

  -- validated_receipts; `none` is a directory that does not exist.
  unfoldable pub validated_receipts :
      Study → (require_complete : Bool) → Option ReceiptDirectory → Py (List (String × Fields))
  unfolding receipt_entries read_receipts check_artifacts same_names
  validated_receipts s complete none = if complete then raise receipt_error else ok []
  validated_receipts s complete (some d) = receipt_entries s.planned d.entries >>= λ found.
      require
        (not complete || same_names (map (λ f. f.0.run_id) found) (map (λ r. r.run_id) s.planned))
        receipt_error
      >>= λ _. read_receipts s found >>= λ read. check_artifacts d read.1 >>= λ _. ok read.0
