-- ===== src/Score/Content.antt =====
-- The parts of the intended final state that several checks of score.py read.
use browserbench.Prelude.{
  ℕ, suc, Bool, true, false, not, ◌||◌, Option, none, some, List, [], ◌∷◌, ◌==◌, if◌then◌else◌,
  length,
}
use browserbench.Json.{
  ◌>>=◌, scalar_eq, cell_eq, lookup, or_null, get, or_else, empty_dict, empty_list, items_list,
  chars_list, iterate, pos, Scalar, int, str, Value, scalar, obj, arr, Fields, field, end,
  attribute_error, type_error, Py, ok, raise,
}
use browserbench.Db.{Draft}
use browserbench.Score.Types.{
  fail_if, contract_if, Report, count_not_natural, message_count, draft_count, draft_mismatch,
}
use browserbench.Score.Tables.{Snapshot, number, draft_cell, by_id}

-- task.get("intended_final") or {}
unfoldable pub intended_final : Value → Py Value
unfolding get or_else
intended_final task = get task "intended_final" >>= λ v. ok (or_else v empty_dict)

-- intended.get("messages") or {}
unfoldable pub intended_messages : Value → Py Value
unfolding intended_final get or_else
intended_messages task =
    intended_final task >>= λ i. get i "messages" >>= λ v. ok (or_else v empty_dict)

-- intended.get("drafts") or []
unfoldable pub intended_drafts : Value → Py Value
unfolding intended_final get or_else
intended_drafts task =
    intended_final task >>= λ i. get i "drafts" >>= λ v. ok (or_else v empty_list)

-- A count that is an integer, no Boolean, and not negative.
abbrev pub natural : Value → Option ℕ
natural (scalar (int (pos n))) = some n
natural _ = none

-- _intended_message_count and the comparison that follows each call of it.
abbrev pub compare_count : Option ℕ → Snapshot → Report → Report
compare_count none after r = contract_if true count_not_natural r
compare_count (some n) after r =
    fail_if (not (length after.messages == n)) (message_count n (length after.messages)) r

unfoldable pub check_message_count : Value → Snapshot → Report → Py Report
unfolding intended_messages get
check_message_count task after r =
    intended_messages task >>= λ m. get m "count" >>= λ v. ok (compare_count (natural v) after r)

abbrev count_fields : Fields → ℕ
count_fields end = 0
count_fields (field k v fs) = suc (count_fields fs)

-- len(v)
unfoldable pub len : Value → Py ℕ
len (arr vs) = ok (length (items_list vs))
len (obj fs) = ok (count_fields fs)
len (scalar (str s)) = ok (length (chars_list s))
len _ = raise type_error

-- The row that a dict lookup by this value finds.
unfoldable pub draft_by_key : Scalar → List Draft → Option Draft
unfolding by_id
draft_by_key k [] = none
draft_by_key k (d ∷ ds) = elim (draft_by_key k ds) [
  | some r ↦ some r
  | none ↦ if scalar_eq (number d.id) k then some d else none
]

-- any(actual.get(key) != value for key, value in expected.items())
unfoldable pub differs : Draft → Fields → Bool
unfolding draft_cell cell_eq
differs d end = false
differs d (field k v fs) = not (cell_eq (draft_cell d k) v) || differs d fs

abbrev pub mismatched : Option Draft → Fields → Bool
unfolding differs
mismatched none fs = true
mismatched (some d) fs = differs d fs

unfoldable pub check_draft : List Draft → Value → Report → Py Report
unfolding lookup draft_by_key mismatched
check_draft drafts (obj fs) r = elim (or_null (lookup "id" fs)) [
  | scalar k ↦ ok (fail_if (mismatched (draft_by_key k drafts) fs) (draft_mismatch (obj fs)) r)
  | _ ↦ raise type_error
]
check_draft drafts v r = raise attribute_error

unfoldable pub check_each_draft : List Draft → List Value → Report → Py Report
unfolding check_draft
check_each_draft drafts [] r = ok r
check_each_draft drafts (v ∷ vs) r = check_draft drafts v r >>= check_each_draft drafts vs

-- The comparison of the final drafts with the intended ones, by number and then one by one.
unfoldable pub check_drafts : Value → Snapshot → Report → Py Report
unfolding intended_drafts len iterate check_each_draft
check_drafts task after r = do
  expected ← intended_drafts task
  n ← len expected
  if not (length after.drafts == n)
      then ok (fail_if true (draft_count n (length after.drafts)) r)
      else (iterate expected >>= λ vs. check_each_draft after.drafts vs r)
