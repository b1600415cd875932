-- ===== src/Score/SavedOnce.antt =====
-- The save checks of score.py, read backwards: a save task that passes them made one new draft, with
-- the intended content, and changed nothing else.
use browserbench.Prelude.{
  ℕ, String, ◌≡◌, refl, sym, ap, ◌∙◌, true, Option, none, some, List, [], ◌∷◌, arith, true-ne-false,
  length, filter, All,
}
use browserbench.Json.{
  ◌>>=◌, eq_of_ok, >>=-eq-ok, cell_eq, lookup, Value, obj, arr, Fields, cons, nil, ok,
}
use browserbench.Db.{Draft}
use browserbench.Score.Types.{fail_if, contract_if, Report, draft_key_missing, saved_mismatch}
use browserbench.Score.Tables.{
  Snapshot, draft_cell, user_same, draft_same, message_same, attempt_same, by_id, cardinality,
  EffectState,
}
use browserbench.Score.Forbidden.{is_saved}
use browserbench.Score.Content.{intended_drafts, check_message_count, len}
use browserbench.Score.ReadChecks.{users_changed, messages_changed, attempts_changed}
use browserbench.Score.SaveChecks.{
  missing_key, differs_at, check_key, check_saved, check_save_effects, indexable, save_checks,
}
use browserbench.Score.Clean.{
  not-false, fail_if-IsClean, contract_if-IsClean, violate_if-IsClean, breach_if-IsClean, IsClean,
}
use browserbench.Score.Rows.{
  user_same_sound, draft_same_sound, message_same_sound, attempt_same_sound, rows_same_sound,
  existing_rows_changed_sound,
}
use browserbench.Score.Monotone.{check_message_count-IsClean, CountHolds}

abbrev pub KeptDraft : Snapshot → Snapshot → Draft → Type 0
KeptDraft before after d =
    by_id (λ (x : Draft). x.id) d.id after.drafts ≡ by_id (λ (x : Draft). x.id) d.id before.drafts

-- The intended draft states this key, and the row has its value.
pub record Agrees (d : Draft) (fs : Fields) (key : String) : Type 0 where
  pub value : Value
  pub stated : lookup key fs ≡ some value
  pub equal : cell_eq (draft_cell d key) value ≡ true

pub record IsSavedOnce (task : Value) (before after : Snapshot) (new_drafts : List Draft)
    : Type 0 where
  pub same_users : before.users ≡ after.users
  pub same_messages : before.messages ≡ after.messages
  pub same_attempts : before.send_attempts ≡ after.send_attempts
  pub kept_drafts : All (KeptDraft before after) before.drafts
  pub draft : Draft
  pub only : new_drafts ≡ draft ∷ []
  pub intended : Fields
  pub stated : intended_drafts task ≡ ok (arr (cons (obj intended) nil))
  pub subject : Agrees draft intended "subject"
  pub body : Agrees draft intended "body"
  pub status : Agrees draft intended "status"
  pub counted : CountHolds task after

record HasSaveEffects (before after : Snapshot) (new_drafts : List Draft) : Type 0 where
  same_users : before.users ≡ after.users
  same_messages : before.messages ≡ after.messages
  same_attempts : before.send_attempts ≡ after.send_attempts
  kept_drafts : All (KeptDraft before after) before.drafts
  one : length new_drafts ≡ 1

check_save_effects-IsClean :
    (before after : Snapshot) (ds : List Draft) (r : Report)
    → IsClean (check_save_effects before after ds r)
    → HasSaveEffects before after ds × IsClean r
unfolding check_save_effects users_changed messages_changed attempts_changed
check_save_effects-IsClean before after ds r c =
    let (attempts, c₅) = breach_if-IsClean _ _ _ _ c in
    let (messages, c₄) = breach_if-IsClean _ _ _ _ c₅ in
    let c₃ = violate_if-IsClean _ _ _ c₄ in
    let (count, c₂) = fail_if-IsClean _ _ _ c₃ in
    let (drafts, c₁) = breach_if-IsClean _ _ _ _ c₂ in
    let (users, c₀) = breach_if-IsClean _ _ _ _ c₁ in
    (
      record {
        same_users = rows_same_sound user_same user_same_sound _ _ (not-false _ users);
        same_messages = rows_same_sound message_same message_same_sound _ _ (not-false _ messages);
        same_attempts = rows_same_sound attempt_same attempt_same_sound _ _ (not-false _ attempts);
        kept_drafts =
            existing_rows_changed_sound draft_same draft_same_sound (λ (d : Draft). d.id)
              before.drafts after.drafts drafts;
        one = ground (arith, count);
      },
      c₀,
    )

check_key-IsClean :
    (d : Draft) (fs : Fields) (key : String) (r : Report)
    → IsClean (check_key d fs key r)
    → Agrees d fs key × IsClean r
check_key-IsClean d fs key r c = go (lookup key fs) refl c
  where
    go :
        (o : Option Value)
        → lookup key fs ≡ o
        → IsClean (
            fail_if
              (differs_at d key o)
              (saved_mismatch key)
              (contract_if (missing_key o) (draft_key_missing key) r))
        → Agrees d fs key × IsClean r
    go none e c = absurd (true-ne-false (contract_if-IsClean _ _ _ (fail_if-IsClean _ _ _ c).1).0)
    go (some v) e c =
        let (same, c') = fail_if-IsClean _ _ _ c in
        (
          record { value = v; stated = e; equal = not-false _ same },
          (contract_if-IsClean _ _ _ c').1,
        )

-- The one new draft agrees with the one intended draft.
record Saved (ds : List Draft) (expected : Value) : Type 0 where
  draft : Draft
  only : ds ≡ draft ∷ []
  fields : Fields
  stated : expected ≡ arr (cons (obj fields) nil)
  subject : Agrees draft fields "subject"
  body : Agrees draft fields "body"
  status : Agrees draft fields "status"

check_saved-below :
    (ds : List Draft) (expected : Value) (r : Report)
    → IsClean (check_saved ds expected r)
    → IsClean r
unfolding check_saved
check_saved-below (d ∷ []) (arr (cons (obj fs) nil)) r c =
    (check_key-IsClean d fs "subject" _
      (check_key-IsClean d fs "body" _ (check_key-IsClean d fs "status" _ c).1).1).1
check_saved-below [] (arr (cons (obj fs) nil)) r c = c
check_saved-below (d ∷ e ∷ ds) (arr (cons (obj fs) nil)) r c = c
check_saved-below _ _ r c = absurd (true-ne-false (contract_if-IsClean _ _ _ c).0)

check_saved-IsClean :
    (ds : List Draft) (expected : Value) (r : Report)
    → length ds ≡ 1
    → IsClean (check_saved ds expected r)
    → Saved ds expected × IsClean r
unfolding check_saved
check_saved-IsClean [] expected r one c = absurd (omega arith)
check_saved-IsClean (d ∷ e ∷ ds) expected r one c = absurd (omega arith)
check_saved-IsClean (d ∷ []) (arr (cons (obj fs) nil)) r one c =
    let (status, c₂) = check_key-IsClean d fs "status" _ c in
    let (body, c₁) = check_key-IsClean d fs "body" _ c₂ in
    let (subject, c₀) = check_key-IsClean d fs "subject" _ c₁ in
    (
      record {
        draft = d;
        only = refl;
        fields = fs;
        stated = refl;
        subject = subject;
        body = body;
        status = status;
      },
      c₀,
    )
check_saved-IsClean (d ∷ []) _ r one c = absurd (true-ne-false (contract_if-IsClean _ _ _ c).0)

indexable-eq : (v w : Value) (n : ℕ) → indexable v n ≡ ok w → v ≡ w
indexable-eq v w n h = ground arith

module _ (task : Value) (before after : Snapshot) (ds : List Draft) where
  -- A save whose checks end in a clean report made exactly the intended draft.
  pub save_checks-IsSavedOnce :
      (r r' : Report) (e : EffectState)
      → save_checks task before after ds r ≡ ok (r', e)
      → IsClean r'
      → IsSavedOnce task before after ds
        × (e ≡ cardinality (length (filter is_saved ds)))
        × IsClean r
  unfolding save_checks
  save_checks-IsSavedOnce r r' e h c =
      let r₁ = check_save_effects before after ds r in
      let saved = cardinality (length (filter is_saved ds)) in
      let (drafts, e₁, h₁) =
        >>=-eq-ok (intended_drafts task)
          (λ drafts. len drafts >>= λ n. indexable drafts n >>= λ x.
            check_message_count task after (check_saved ds x r₁) >>= λ y. ok (y, saved))
          h in
      let (n, e₂, h₂) =
        >>=-eq-ok (len drafts)
          (λ n. indexable drafts n >>= λ x.
            check_message_count task after (check_saved ds x r₁) >>= λ y. ok (y, saved))
          h₁ in
      let (expected, e₃, h₃) =
        >>=-eq-ok (indexable drafts n)
          (λ x. check_message_count task after (check_saved ds x r₁) >>= λ y. ok (y, saved)) h₂ in
      let r₂ = check_saved ds expected r₁ in
      let (r₃, e₄, h₄) = >>=-eq-ok (check_message_count task after r₂) (λ y. ok (y, saved)) h₃ in
      let (counted, c₂) =
        check_message_count-IsClean task after r₂ r₃ e₄ (rw (ap (λ p. p.0) (eq_of_ok h₄)) c) in
      let (effects, c₀) =
        check_save_effects-IsClean before after ds r (check_saved-below ds expected r₁ c₂) in
      let (made, c₁) = check_saved-IsClean ds expected r₁ effects.one c₂ in
      (
        record {
          same_users = effects.same_users;
          same_messages = effects.same_messages;
          same_attempts = effects.same_attempts;
          kept_drafts = effects.kept_drafts;
          draft = made.draft;
          only = made.only;
          intended = made.fields;
          stated = e₁ ∙ ap ok (indexable-eq drafts expected n e₃ ∙ made.stated);
          subject = made.subject;
          body = made.body;
          status = made.status;
          counted = counted;
        },
        sym (ap (λ p. p.1) (eq_of_ok h₄)),
        c₀,
      )
