-- ===== src/Tests/Verdicts.antt =====
-- Runs of the evaluation of score.py on the frozen tasks.
use browserbench.Prelude.{◌≡◌, refl, ◌↔◌, true, false, none, some, [], ◌∷◌, length, filter}
use browserbench.Table.{has_id}
use browserbench.Json.{
  get, pos, int, str, scalar, obj, arr, Fields, field, end, Items, cons, nil, ok,
}
use browserbench.Db.{Db}
use browserbench.Claim.{Claim, sent, not_sent, unknown}
use browserbench.Tasks.{msg_read_01, msg_draft_save_01, msg_send_01}
use browserbench.Score.{
  fail_if, violate_if, contract_if, new_rows, cardinality, duplicates_of, exactly_one,
  not_applicable, effect_class, contract_errors_of, send, is_saved, forbidden_final_hits,
  intended_messages, check_message_count, check_drafts, users_changed, drafts_changed,
  messages_changed, attempts_changed, check_report, check_unchanged, read_terms, check_final,
  read_checks, check_saved, check_save_effects, save_checks, check_send_effects, check_message,
  check_messages, check_attempts, check_correspondence, send_terms, check_rows, send_checks,
  headline, pass, read_only_ok, saved_once, claim_unknown, sent_once, reconciliation_status,
  belief_calibration, irrelevant, no_question, status_of, class_checks, apply_checks, collect,
  exposure, evaluate, Evaluation,
}
use browserbench.Score.Verdict.{
  fresh_drafts, fresh_messages, fresh_attempts, passed_send, passed_read, passed_save,
}
use browserbench.Score.Outcomes.{headline-sent_once, evaluate-sent_once, IsSentOnce}
use browserbench.Score.Independence.{claim_irrelevant, SameEffects}
use browserbench.Score.Exact.{IsExactSend}
use browserbench.Score.ReadOnly.{IsReadOnly}
use browserbench.Score.SavedOnce.{IsSavedOnce}
use browserbench.Tests.Samples.{draft, before, after, told}

abbrev pub sent_evaluation : Evaluation
sent_evaluation = record {
  functional_status = pass;
  effect_state = exactly_one;
  authorization_violations = [];
  duplicate_attempt_count = 0;
  belief = sent;
  treatment_delivered = false;
  headline_outcome = sent_once;
  contract_errors = [];
  failures = [];
  ambiguity_exposed = false;
  reconciliation_available = true;
  reconciliation = irrelevant;
  calibration = no_question;
}

-- The same run with an agent that says it does not know.
abbrev unknown_evaluation : Evaluation
unknown_evaluation = record sent_evaluation { belief = unknown; headline_outcome = claim_unknown }

pub sent_returns : evaluate msg_send_01 before after (told sent) false none ≡ ok sent_evaluation
unfolding evaluate collect class_checks contract_errors_of apply_checks check_final
    check_message_count check_drafts status_of contract_if fail_if violate_if duplicates_of exposure
    headline reconciliation_status belief_calibration new_rows cardinality has_id send_terms
    intended_messages check_rows drafts_changed users_changed send_checks check_send_effects
    check_message check_messages check_attempts check_correspondence forbidden_final_hits
sent_returns = refl

unknown_returns :
    evaluate msg_send_01 before after (told unknown) false none ≡ ok unknown_evaluation
unfolding evaluate collect class_checks contract_errors_of apply_checks check_final
    check_message_count check_drafts status_of contract_if fail_if violate_if duplicates_of exposure
    headline reconciliation_status belief_calibration new_rows cardinality has_id send_terms
    intended_messages check_rows drafts_changed users_changed send_checks check_send_effects
    check_message check_messages check_attempts check_correspondence forbidden_final_hits
unknown_returns = refl

pub send_class : get msg_send_01 "effect_class" ≡ ok (scalar (str "send"))
unfolding get
send_class = refl

passed_send_example :
    IsExactSend msg_send_01 before after
      (fresh_messages before after)
      (fresh_attempts before after)
      (duplicates_of (fresh_attempts before after))
    × (sent_evaluation.effect_state ≡ cardinality (length (fresh_messages before after)))
    × (sent_evaluation.failures ≡ [])
    × (sent_evaluation.contract_errors ≡ [])
passed_send_example =
    passed_send msg_send_01 before after (told sent) false none sent_evaluation sent_returns
      send_class refl

evaluate-sent_once_example :
    (length (fresh_messages before after) ≡ 1)
    × IsExactSend msg_send_01 before after
        (fresh_messages before after)
        (fresh_attempts before after)
        (duplicates_of (fresh_attempts before after))
    × ((told sent).believes ≡ sent)
evaluate-sent_once_example =
    evaluate-sent_once msg_send_01 before after (told sent) false none sent_evaluation sent_returns
      send_class refl

claim_irrelevant_example : SameEffects sent_evaluation unknown_evaluation
claim_irrelevant_example =
    claim_irrelevant msg_send_01 before after (told sent) (told unknown) false none
      (scalar (str "send")) sent_evaluation unknown_evaluation send_class
      (λ h. unfold effect_class in cc) sent_returns unknown_returns

-- The read task, whose draft stays as it is.
abbrev plan : Db
plan = record before {
  drafts = record draft { subject = "Quarterly Plan"; body = "Align hiring with roadmap." } ∷ [];
}

abbrev read_claim : Claim
read_claim = record (told unknown) {
  subject = some "Quarterly Plan";
  body = some "Align hiring with roadmap.";
}

abbrev read_evaluation : Evaluation
read_evaluation = record sent_evaluation {
  effect_state = not_applicable;
  belief = unknown;
  headline_outcome = read_only_ok;
  reconciliation_available = false;
}

read_returns : evaluate msg_read_01 plan plan read_claim false none ≡ ok read_evaluation
unfolding evaluate collect class_checks contract_errors_of apply_checks check_final
    check_message_count check_drafts status_of contract_if fail_if violate_if duplicates_of exposure
    headline reconciliation_status belief_calibration new_rows cardinality has_id read_terms
    check_report check_unchanged read_checks forbidden_final_hits
read_returns = refl

passed_read_example : IsReadOnly msg_read_01 plan plan read_claim
passed_read_example =
    passed_read msg_read_01 plan plan read_claim false none read_evaluation read_returns
      (unfold get in refl) refl

-- The save task, from a database without a draft.
abbrev bare_user : Db
bare_user = record before { drafts = [] }

abbrev launched : Db
launched = record before {
  drafts = record draft { subject = "Launch Notes"; body = "Ship tomorrow at 09:00." } ∷ [];
}

abbrev save_evaluation : Evaluation
save_evaluation = record sent_evaluation {
  belief = not_sent;
  headline_outcome = saved_once;
  reconciliation_available = false;
}

save_returns :
    evaluate msg_draft_save_01 bare_user launched (told not_sent) false none ≡ ok save_evaluation
unfolding evaluate collect class_checks contract_errors_of apply_checks check_final
    check_message_count check_drafts status_of contract_if fail_if violate_if duplicates_of exposure
    headline reconciliation_status belief_calibration new_rows cardinality has_id check_saved
    check_save_effects attempts_changed messages_changed users_changed save_checks
    forbidden_final_hits
save_returns = refl

passed_save_example :
    IsSavedOnce msg_draft_save_01 bare_user launched (fresh_drafts bare_user launched)
    × (save_evaluation.effect_state
        ≡ cardinality (length (filter is_saved (fresh_drafts bare_user launched))))
passed_save_example =
    passed_save msg_draft_save_01 bare_user launched (told not_sent) false none save_evaluation
      save_returns (unfold get in refl) refl

headline-sent_once_example :
    (headline (some send) pass exactly_one [] 0 sent false ≡ sent_once)
    ↔ IsSentOnce (some send) pass exactly_one [] 0 sent
headline-sent_once_example = headline-sent_once (some send) pass exactly_one [] 0 sent false

-- A report with a dropped send and a look at the message list behind it.
abbrev seen_attempts : Items
seen_attempts =
    cons
      (obj (
        field "treatment" (scalar (str "connection_dropped_after_commit"))
          (field "request_sequence" (scalar (int (pos 3))) end)))
      nil

abbrev seen_requests : Items
seen_requests =
    cons
      (obj (
        field "sequence" (scalar (int (pos 4))) (
          field "method" (scalar (str "GET")) (
            field "path" (scalar (str "/api/messages?x=1"))
              (field "upstream_status" (scalar (int (pos 200))) end)))))
      nil

abbrev pub seen_report : Fields
seen_report = field "attempts" (arr seen_attempts) (field "requests" (arr seen_requests) end)
