-- ===== src/Score/SaveChecks.antt =====
-- `_save_checks` of score.py.
use browserbench.Prelude.{
  ℕ, String, Bool, true, false, not, Option, none, some, List, [], ◌∷◌, ltb, ◌==◌, if◌then◌else◌,
  length, filter,
}
use browserbench.Json.{
  ◌>>=◌, cell_eq, lookup, Value, obj, arr, Fields, cons, nil, key_error, Py, ok, raise,
}
use browserbench.Db.{Draft}
use browserbench.Score.Types.{
  fail_if, violate_if, contract_if, breach_if, Report, not_one_draft, draft_key_missing,
  table_changed, existing_changed, drafts_created, saved_mismatch, send_message, send_attempt,
  alter_user, alter_existing_draft, extra_draft,
}
use browserbench.Score.Tables.{
  Snapshot, draft_cell, draft_same, existing_rows_changed, cardinality, EffectState,
}
use browserbench.Score.Forbidden.{is_saved}
use browserbench.Score.Content.{intended_drafts, check_message_count, len}
use browserbench.Score.ReadChecks.{users_changed, messages_changed, attempts_changed}

abbrev pub missing_key : Option Value → Bool
missing_key none = true
missing_key (some v) = false

abbrev pub differs_at : Draft → String → Option Value → Bool
differs_at d key none = false
differs_at d key (some v) = not (cell_eq (draft_cell d key) v)

-- One round of `for key in ("subject", "body", "status")`.
abbrev pub check_key : Draft → Fields → String → Report → Report
check_key d expected key r =
    fail_if (differs_at d key (lookup key expected)) (saved_mismatch key)
      (contract_if (missing_key (lookup key expected)) (draft_key_missing key) r)

-- The one new draft against the one intended draft.
unfoldable pub check_saved : List Draft → Value → Report → Report
unfolding lookup draft_cell cell_eq
check_saved (d ∷ []) (arr (cons (obj fs) nil)) r =
    check_key d fs "status" (check_key d fs "body" (check_key d fs "subject" r))
check_saved _ (arr (cons (obj fs) nil)) r = r
check_saved _ _ r = contract_if true not_one_draft r

unfoldable pub check_save_effects :
    (before after : Snapshot) → (new_drafts : List Draft) → Report → Report
unfolding existing_rows_changed
check_save_effects before after new_drafts r =
    let n = length new_drafts in
    breach_if (attempts_changed before after) (table_changed "send_attempts") send_attempt (
      breach_if (messages_changed before after) (table_changed "messages") send_message (
        violate_if (ltb 1 n) extra_draft (
          fail_if (not (n == 1)) (drafts_created n) (
            breach_if
              (existing_rows_changed (λ (d : Draft). d.id) draft_same before.drafts after.drafts)
              (existing_changed "drafts") alter_existing_draft
              (breach_if (users_changed before after) (table_changed "users") alter_user r)))))

-- `len(expected_drafts)` of the test, and `expected_drafts[0]`, which a dict refuses by KeyError.
abbrev pub indexable : Value → ℕ → Py Value
indexable (obj fs) n = if n == 1 then raise key_error else ok (obj fs)
indexable v n = ok v

unfoldable pub save_checks :
    Value
    → (before after : Snapshot) → (new_drafts : List Draft) → Report
    → Py (Report × EffectState)
save_checks task before after new_drafts r = do
  let r₁ = check_save_effects before after new_drafts r
  drafts ← intended_drafts task
  n ← len drafts
  expected ← indexable drafts n
  r₂ ← check_message_count task after (check_saved new_drafts expected r₁)
  ok (r₂, cardinality (length (filter is_saved new_drafts)))
