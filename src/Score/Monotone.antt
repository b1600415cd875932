-- ===== src/Score/Monotone.antt =====
-- The checks of score.py only add: a clean report at their end was clean before them.
use browserbench.Prelude.{
  ℕ, ◌≡◌, refl, ap, ◌∙◌, inl, inr, Bool, true, not, Option, none, some, List, [], ◌∷◌, arith, ◌==◌,
  if◌then◌else◌, Bool-cases, true-ne-false, length,
}
use browserbench.Json.{
  ◌>>=◌, eq_of_ok, >>=-eq-ok, lookup, or_null, get, or_else, empty_list, iterate, pos, int, Value,
  scalar, obj, Fields, type_error, Py, ok, raise,
}
use browserbench.Db.{Draft, Message}
use browserbench.Score.Types.{
  fail_if, Report, rule_not_object, count_not_natural, message_count, draft_count, draft_mismatch,
}
use browserbench.Score.Tables.{Snapshot}
use browserbench.Score.Forbidden.{
  count_rule, finish_rule, apply_rule, apply_rules, forbidden_final_hits,
}
use browserbench.Score.Content.{
  intended_messages, intended_drafts, natural, compare_count, check_message_count, len,
  draft_by_key, mismatched, check_draft, check_each_draft, check_drafts,
}
use browserbench.Score.ReadChecks.{check_final}
use browserbench.Score.Clean.{fail_if-IsClean, contract_if-IsClean, IsClean}

natural-int : (v : Value) (n : ℕ) → natural v ≡ some n → v ≡ scalar (int (pos n))
natural-int (scalar (int (pos m))) n h = ground arith
natural-int v n h = ground arith

-- The intended final state asks for the number of messages that there are.
pub record CountHolds (task : Value) (after : Snapshot) : Type 0 where
  pub messages : Value
  pub intended : intended_messages task ≡ ok messages
  pub count : get messages "count" ≡ ok (scalar (int (pos (length after.messages))))

compare_count-IsClean :
    (v : Value) (after : Snapshot) (r : Report)
    → IsClean (compare_count (natural v) after r)
    → (v ≡ scalar (int (pos (length after.messages)))) × IsClean r
compare_count-IsClean v after r h = go (natural v) refl h
  where
    go :
        (o : Option ℕ)
        → natural v ≡ o
        → IsClean (compare_count o after r)
        → (v ≡ scalar (int (pos (length after.messages)))) × IsClean r
    go none e c = absurd (true-ne-false (contract_if-IsClean true count_not_natural r c).0)
    go (some n) e c =
        let (same, c') =
          fail_if-IsClean (not (length after.messages == n))
            (message_count n (length after.messages)) r c in
        let k : length after.messages ≡ n = ground (arith, same) in (rw k (natural-int v n e), c')

pub check_message_count-IsClean :
    (task : Value) (after : Snapshot) (r r' : Report)
    → check_message_count task after r ≡ ok r'
    → IsClean r'
    → CountHolds task after × IsClean r
unfolding check_message_count
check_message_count-IsClean task after r r' h c =
    let (m, em, h₁) =
      >>=-eq-ok (intended_messages task)
        (λ m. get m "count" >>= λ v. ok (compare_count (natural v) after r)) h in
    let (v, ev, h₂) = >>=-eq-ok (get m "count") (λ v. ok (compare_count (natural v) after r)) h₁ in
    let (count, c') = compare_count-IsClean v after r (rw (eq_of_ok h₂) c) in
    (record { messages = m; intended = em; count = ev ∙ ap ok count }, c')

pub check_draft-IsClean :
    (drafts : List Draft) (v : Value) (r r' : Report)
    → check_draft drafts v r ≡ ok r'
    → IsClean r'
    → IsClean r
unfolding check_draft
check_draft-IsClean drafts (obj fs) r r' h c = go (or_null (lookup "id" fs)) refl h
  where
    go :
        (k : Value)
        → or_null (lookup "id" fs) ≡ k
        → (elim k [
          | scalar k ↦
              ok (fail_if (mismatched (draft_by_key k drafts) fs) (draft_mismatch (obj fs)) r)
          | _ ↦ raise type_error
        ])
          ≡ ok r'
        → IsClean r
    go (scalar k) e x =
        (fail_if-IsClean (mismatched (draft_by_key k drafts) fs) (draft_mismatch (obj fs)) r
          (rw (eq_of_ok x) c)).1
    go _ e x = cc
check_draft-IsClean drafts (scalar s) r r' h c = cc
check_draft-IsClean drafts v r r' h c = cc

pub check_each_draft-IsClean :
    (drafts : List Draft) (vs : List Value) (r r' : Report)
    → check_each_draft drafts vs r ≡ ok r'
    → IsClean r'
    → IsClean r
unfolding check_each_draft
check_each_draft-IsClean drafts [] r r' h c = rw (eq_of_ok h) c
check_each_draft-IsClean drafts (v ∷ vs) r r' h c =
    let (r₁, e, rest) = >>=-eq-ok (check_draft drafts v r) (check_each_draft drafts vs) h in
    check_draft-IsClean drafts v r r₁ e (check_each_draft-IsClean drafts vs r₁ r' rest c)

abbrev compare_drafts : Value → Snapshot → Report → ℕ → Py Report
compare_drafts expected after r n =
    if not (length after.drafts == n)
    then ok (fail_if true (draft_count n (length after.drafts)) r)
    else (iterate expected >>= λ vs. check_each_draft after.drafts vs r)

compare_drafts-IsClean :
    (expected : Value) (after : Snapshot) (r r' : Report) (n : ℕ)
    → compare_drafts expected after r n ≡ ok r'
    → IsClean r'
    → (length after.drafts ≡ n) × IsClean r
compare_drafts-IsClean expected after r r' n h c = elim (Bool-cases (length after.drafts == n)) [
  | inl same ↦
      let (vs, e, rest) =
        >>=-eq-ok (iterate expected) (λ vs. check_each_draft after.drafts vs r) (rw same at h) in
      (ground (arith, same), check_each_draft-IsClean after.drafts vs r r' rest c)
  | inr other ↦
      let bad =
        fail_if-IsClean true (draft_count n (length after.drafts)) r
          (rw (eq_of_ok (rw other at h)) c) in
      absurd (true-ne-false bad.0)
]

pub check_drafts-IsClean :
    (task : Value) (after : Snapshot) (r r' : Report)
    → check_drafts task after r ≡ ok r'
    → IsClean r'
    → IsClean r
unfolding check_drafts
check_drafts-IsClean task after r r' h c =
    let (expected, e, h₁) =
      >>=-eq-ok (intended_drafts task) (λ x. len x >>= λ n. compare_drafts x after r n) h in
    let (n, en, h₂) = >>=-eq-ok (len expected) (compare_drafts expected after r) h₁ in
    (compare_drafts-IsClean expected after r r' n h₂ c).1

pub check_final-IsClean :
    (task : Value) (after : Snapshot) (r r' : Report)
    → check_final task after r ≡ ok r'
    → IsClean r'
    → CountHolds task after × IsClean r
unfolding check_final
check_final-IsClean task after r r' h c =
    let (r₁, e, h₁) = >>=-eq-ok (check_message_count task after r) (check_drafts task after) h in
    check_message_count-IsClean task after r r₁ e (check_drafts-IsClean task after r₁ r' h₁ c)

module _ (before after : Snapshot) (new_drafts : List Draft) (new_messages : List Message) where
  finish_rule-IsClean :
      (fs : Fields) (r : Report) (t : Bool × Bool × Value)
      → IsClean (finish_rule before after new_drafts new_messages fs r t)
      → IsClean r
  unfolding finish_rule
  finish_rule-IsClean fs r (counted, reached, n) c =
      (fail_if-IsClean _ _ r
        (fail_if-IsClean _ _ _
          (fail_if-IsClean _ _ _ (fail_if-IsClean _ _ _ (contract_if-IsClean _ _ _ c).1).1).1).1).1

  apply_rule-IsClean :
      (v : Value) (r r' : Report)
      → apply_rule before after new_drafts new_messages v r ≡ ok r'
      → IsClean r'
      → IsClean r
  unfolding apply_rule
  apply_rule-IsClean (obj fs) r r' h c =
      let (t, e, h₁) =
        >>=-eq-ok (count_rule (or_null (lookup "messages" fs)) after)
          (λ t. ok (finish_rule before after new_drafts new_messages fs r t)) h in
      finish_rule-IsClean fs r t (rw (eq_of_ok h₁) c)
  apply_rule-IsClean v r r' h c =
      absurd (true-ne-false (contract_if-IsClean true (rule_not_object v) r (rw (eq_of_ok h) c)).0)

  apply_rules-IsClean :
      (vs : List Value) (r r' : Report)
      → apply_rules before after new_drafts new_messages vs r ≡ ok r'
      → IsClean r'
      → IsClean r
  unfolding apply_rules
  apply_rules-IsClean [] r r' h c = rw (eq_of_ok h) c
  apply_rules-IsClean (v ∷ vs) r r' h c =
      let (r₁, e, rest) =
        >>=-eq-ok (apply_rule before after new_drafts new_messages v r)
          (apply_rules before after new_drafts new_messages vs) h in
      apply_rule-IsClean v r r₁ e (apply_rules-IsClean vs r₁ r' rest c)

  pub forbidden_final_hits-IsClean :
      (task : Value) (r r' : Report)
      → forbidden_final_hits before after new_drafts new_messages task r ≡ ok r'
      → IsClean r'
      → IsClean r
  unfolding forbidden_final_hits
  forbidden_final_hits-IsClean task r r' h c =
      let (rules, e, h₁) =
        >>=-eq-ok (get task "forbidden_final")
          (λ x. iterate (or_else x empty_list) >>= λ vs.
            apply_rules before after new_drafts new_messages vs r)
          h in
      let (vs, ev, h₂) =
        >>=-eq-ok (iterate (or_else rules empty_list))
          (λ vs. apply_rules before after new_drafts new_messages vs r) h₁ in
      apply_rules-IsClean vs r r' h₂ c
