-- ===== src/Tests/Summaries.antt =====
-- A pair of summaries over an older one.
use browserbench.Prelude.{String, ◌≡◌, refl, false, Option, none, some, List, [], ◌∷◌}
use browserbench.Json.{
  is_str, pos, null, bool, int, Value, scalar, obj, arr, Fields, field, end, nil, PyError,
  runtime_error, receipt_error, ok, raise, item_of,
}
use browserbench.Study.{is_sha256, text}
use browserbench.Tests.Studies.{digest_a}
use browserbench.Manifest.{popped}
use browserbench.Summary.{
  digest_cell, csv_summary_hash, csv_rest, csv_summary_hash_file, markdown_summary_hash,
  summary_hash, move_to_backup, replace_file, drop_backup, restore_backup, end_of, roll_back_rest,
  roll_back, handled, accepted_pair_sha256, perform_call, try_calls, publishable, write_summaries,
  regular_file, Call, unlink_markdown, standing, silent, write_summaries-returns, values_of,
  empty_tally, count_values, is_delivered, count_outcome, count_evaluation, count_receipt,
  count_receipts, count_receipts-IsBalanced, IsBalanced,
}

-- A digest of everything.
abbrev flat : Value → String
flat v = digest_a

abbrev rows : String → Option (List (Option String))
rows s = some (some digest_a ∷ some digest_a ∷ [])

abbrev lines : String → List String
lines s = digest_a ∷ []

abbrev bound_summary : Fields
bound_summary = field "summary_sha256" (text digest_a) end

abbrev last_fails : Call → Option PyError
last_fails unlink_markdown = some runtime_error
last_fails _ = none

write_summaries-returns_example :
    write_summaries rows lines flat silent false bound_summary "c" "m"
      (standing (some (regular_file "old")))
      (standing none)
    ≡ (ok tt, standing (some (regular_file "c")), standing (some (regular_file "m")))
unfolding publishable summary_hash csv_summary_hash digest_cell markdown_summary_hash is_sha256
    item_of popped is_str
write_summaries-returns_example =
    write_summaries-returns rows lines flat false bound_summary "c" "m" digest_a (some "old") none
      refl

-- The removal of the second backup fails: the first file is lost.
lost_pair :
    write_summaries rows lines flat last_fails false bound_summary "c" "m"
      (standing (some (regular_file "old")))
      (standing (some (regular_file "other")))
    ≡ (
      raise receipt_error,
      standing none,
      record { file = some (regular_file "m"); backup = some (regular_file "other") },
    )
unfolding write_summaries publishable summary_hash csv_summary_hash csv_summary_hash_file csv_rest
    digest_cell markdown_summary_hash is_sha256 item_of popped is_str try_calls end_of perform_call
    move_to_backup replace_file drop_backup accepted_pair_sha256 handled roll_back roll_back_rest
    restore_backup
lost_pair = refl

-- One run that passes, with no treatment, and one that fails before its evaluation.
abbrev passing : Fields
passing = field "status" (text "success") (
    field "outcome" (text "success") (
      field "evaluation"
        (obj (
          field "functional_status" (text "pass") (
            field "effect_state" (text "exactly_one") (
              field "belief" (text "sent") (
                field "treatment_delivered" (scalar (bool false)) (
                  field "authorization_violations" (arr nil)
                    (field "duplicate_attempt_count" (scalar (int (pos 0))) end)))))))
        end))

abbrev failing : Fields
failing =
    field "status" (text "timeout")
      (field "outcome" (scalar null) (field "evaluation" (scalar null) end))

abbrev shown : Value → String
shown v = "None"

count_receipts-IsBalanced_example :
    IsBalanced 2 (count_receipts shown (passing ∷ failing ∷ []) empty_tally)
count_receipts-IsBalanced_example = count_receipts-IsBalanced shown (passing ∷ failing ∷ [])

strict_counted : (count_receipts shown (passing ∷ failing ∷ []) empty_tally).strict_count ≡ 1
unfolding count_receipts count_receipt item_of is_str values_of count_values count_outcome
    count_evaluation is_delivered
strict_counted = refl
