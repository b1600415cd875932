-- ===== src/Score/Forbidden.antt =====
-- `_forbidden_final_hits` of score.py.
use browserbench.Prelude.{
  ℕ, ◌*◌, String, Bool, true, false, not, ◌&&◌, ◌||◌, Option, none, some, List, [], ◌∷◌, str_eq,
  leb, ◌==◌, if◌then◌else◌, length, any,
}
use browserbench.Json.{
  ◌>>=◌, unit, lookup, or_null, get, or_else, empty_list, is_true, iterate, pos, negsuc, null, bool,
  int, real, Value, scalar, obj, Fields, field, end, type_error, Py, ok, raise,
}
use browserbench.Db.{Draft, Message}
use browserbench.Score.Types.{
  fail_if, contract_if, Report, rule_not_object, rule_unsupported, final_count_reached,
  final_status_change, final_nothing_saved, final_other_draft,
}
use browserbench.Score.Tables.{Snapshot, by_id}

-- len(...) >= v
unfoldable pub at_least : ℕ → Value → Py Bool
at_least n (scalar (bool b)) = ok (leb (if b then 1 else 0) n)
at_least n (scalar (int (pos m))) = ok (leb m n)
at_least n (scalar (int (negsuc m))) = ok true
at_least n (scalar (real (pos x))) = ok (leb x (n * unit))
at_least n (scalar (real (negsuc x))) = ok true
at_least n _ = raise type_error

-- after_drafts.get(draft_id, {}).get("status") != row.get("status")
abbrev status_moved : Draft → Option Draft → Bool
status_moved row none = true
status_moved row (some d) = not (str_eq d.status row.status)

unfoldable pub any_status_moved : (before after : List Draft) → Bool
unfolding by_id
any_status_moved before after =
    any (λ (d : Draft). status_moved d (by_id (λ (r : Draft). r.id) d.id after)) before

abbrev pub is_saved : Draft → Bool
is_saved d = str_eq d.status "saved"

-- The keys that the pilot's rules use.
abbrev known_key : String → Bool
known_key k =
    str_eq k "messages"
    || str_eq k "draft_status_changed"
    || str_eq k "no_saved_draft"
    || str_eq k "messages_sent_draft_not_1"

abbrev unknown_keys : Fields → Bool
unknown_keys end = false
unknown_keys (field k v fs) = not (known_key k) || unknown_keys fs

-- The hit of the rule `messages.count_min`, and whether the rule is there.
unfoldable pub count_rule : Value → Snapshot → Py (Bool × Bool × Value)
unfolding lookup at_least
count_rule (obj fs) after = elim (lookup "count_min" fs) [
  | none ↦ ok (false, false, scalar null)
  | some n ↦ at_least (length after.messages) n >>= λ hit. ok (true, hit, n)
]
count_rule _ after = ok (false, false, scalar null)

module _ (before after : Snapshot) (new_drafts : List Draft) (new_messages : List Message) where
  -- The three rules on drafts and messages, behind the rule on the count.
  unfoldable pub finish_rule : Fields → Report → Bool × Bool × Value → Report
  unfolding lookup any_status_moved
  finish_rule fs r (counted, reached, n) =
      let status_rule = is_true (or_null (lookup "draft_status_changed" fs)) in
      let saved_rule = is_true (or_null (lookup "no_saved_draft" fs)) in
      let other_rule = is_true (or_null (lookup "messages_sent_draft_not_1" fs)) in
      let r₁ = fail_if reached (final_count_reached n) r in
      let r₂ =
        fail_if (status_rule && any_status_moved before.drafts after.drafts) final_status_change
          r₁ in
      let r₃ = fail_if (saved_rule && not (any is_saved new_drafts)) final_nothing_saved r₂ in
      let r₄ =
        fail_if (other_rule && any (λ (m : Message). not (m.draft_id == 1)) new_messages)
          final_other_draft r₃ in
      let recognized = counted || status_rule || saved_rule || other_rule in
      contract_if (unknown_keys fs || not recognized) (rule_unsupported (obj fs)) r₄

  unfoldable pub apply_rule : Value → Report → Py Report
  unfolding lookup count_rule finish_rule
  apply_rule (obj fs) r =
      count_rule (or_null (lookup "messages" fs)) after >>= λ t. ok (finish_rule fs r t)
  apply_rule v r = ok (contract_if true (rule_not_object v) r)

  unfoldable pub apply_rules : List Value → Report → Py Report
  unfolding apply_rule
  apply_rules [] r = ok r
  apply_rules (v ∷ vs) r = apply_rule v r >>= apply_rules vs

  unfoldable pub forbidden_final_hits : Value → Report → Py Report
  unfolding get or_else iterate apply_rules
  forbidden_final_hits task r = do
    rules ← get task "forbidden_final"
    vs ← iterate (or_else rules empty_list)
    apply_rules vs r
