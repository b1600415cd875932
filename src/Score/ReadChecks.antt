-- ===== src/Score/ReadChecks.antt =====
-- `_read_checks` of score.py.
use browserbench.Prelude.{String, Bool, true, not, Option, none, some, str_eq}
use browserbench.Json.{◌>>=◌, get, or_else, empty_dict, str, Value, scalar, Py, ok}
use browserbench.Claim.{Claim}
use browserbench.Score.Types.{
  fail_if, contract_if, breach_if, Report, report_not_text, table_changed, report_mismatch,
  create_or_alter_draft, send_message, send_attempt, alter_user,
}
use browserbench.Score.Tables.{
  Snapshot, user_same, draft_same, message_same, attempt_same, rows_same, EffectState,
  not_applicable,
}
use browserbench.Score.Content.{check_message_count, check_drafts}

unfoldable pub users_changed : Snapshot → Snapshot → Bool
unfolding rows_same user_same
users_changed before after = not (rows_same user_same before.users after.users)

unfoldable pub drafts_changed : Snapshot → Snapshot → Bool
unfolding rows_same draft_same
drafts_changed before after = not (rows_same draft_same before.drafts after.drafts)

unfoldable pub messages_changed : Snapshot → Snapshot → Bool
unfolding rows_same message_same
messages_changed before after = not (rows_same message_same before.messages after.messages)

unfoldable pub attempts_changed : Snapshot → Snapshot → Bool
unfolding rows_same attempt_same
attempts_changed before after =
    not (rows_same attempt_same before.send_attempts after.send_attempts)

-- claim.subject != expected
abbrev pub text_differs : Option String → String → Bool
text_differs none s = true
text_differs (some t) s = not (str_eq t s)

unfoldable pub check_report : Value → Value → Claim → Report → Report
check_report (scalar (str subject)) (scalar (str body)) claim r =
    fail_if (text_differs claim.body body) (report_mismatch "body")
      (fail_if (text_differs claim.subject subject) (report_mismatch "subject") r)
check_report _ _ claim r = contract_if true report_not_text r

-- The loop over the four tables.
unfoldable pub check_unchanged : Snapshot → Snapshot → Report → Report
unfolding users_changed drafts_changed messages_changed attempts_changed
check_unchanged before after r =
    breach_if (attempts_changed before after) (table_changed "send_attempts") send_attempt (
      breach_if (messages_changed before after) (table_changed "messages") send_message (
        breach_if (drafts_changed before after) (table_changed "drafts") create_or_alter_draft
          (breach_if (users_changed before after) (table_changed "users") alter_user r)))

-- The report that a read task expects.
pub record ReadTerms : Type 0 where
  pub subject : Value
  pub body : Value

unfoldable pub read_terms : Value → Py ReadTerms
unfolding get or_else
read_terms task = do
  report ← get task "expected_report"
  subject ← get (or_else report empty_dict) "subject"
  body ← get (or_else report empty_dict) "body"
  ok (record { subject = subject; body = body })

-- The number of messages, then the drafts.
unfoldable pub check_final : Value → (after : Snapshot) → Report → Py Report
check_final task after r = check_message_count task after r >>= check_drafts task after

unfoldable pub read_checks :
    Value → (before after : Snapshot) → Claim → Report → Py (Report × EffectState)
read_checks task before after claim r = do
  terms ← read_terms task
  r' ←
      check_final task after
        (check_report terms.subject terms.body claim (check_unchanged before after r))
  ok (r', not_applicable)
