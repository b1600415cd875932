-- ===== src/Score/ReadOnly.antt =====
-- The read checks of score.py, read backwards: a read task that passes them changed nothing and
-- reported what was asked.
use browserbench.Prelude.{
  String, ◌≡◌, refl, ap, false, Option, none, some, str_eq, eq_iff, true-ne-false,
}
use browserbench.Json.{◌>>=◌, eq_of_ok, >>=-eq-ok, str, Value, scalar, ok}
use browserbench.Claim.{Claim}
use browserbench.Score.Types.{Report}
use browserbench.Score.Tables.{
  Snapshot, user_same, draft_same, message_same, attempt_same, EffectState, not_applicable,
}
use browserbench.Score.ReadChecks.{
  users_changed, drafts_changed, messages_changed, attempts_changed, text_differs, check_report,
  check_unchanged, read_terms, check_final, read_checks, ReadTerms,
}
use browserbench.Score.Clean.{
  not-false, fail_if-IsClean, contract_if-IsClean, breach_if-IsClean, IsClean,
}
use browserbench.Score.Rows.{
  user_same_sound, draft_same_sound, message_same_sound, attempt_same_sound, rows_same_sound,
}
use browserbench.Score.Monotone.{check_final-IsClean, CountHolds}

pub record IsReadOnly (task : Value) (before after : Snapshot) (claim : Claim) : Type 0 where
  pub unchanged : before ≡ after
  pub terms : ReadTerms
  pub stated : read_terms task ≡ ok terms
  pub subject : String
  pub body : String
  pub expects_subject : terms.subject ≡ scalar (str subject)
  pub expects_body : terms.body ≡ scalar (str body)
  pub reports_subject : claim.subject ≡ some subject
  pub reports_body : claim.body ≡ some body
  pub counted : CountHolds task after

text_differs_sound : (o : Option String) (s : String) → text_differs o s ≡ false → o ≡ some s
text_differs_sound none s h = cc
text_differs_sound (some t) s h = ap some ((eq_iff t s).0 (not-false (str_eq t s) h))

check_unchanged-IsClean :
    (before after : Snapshot) (r : Report)
    → IsClean (check_unchanged before after r)
    → (before ≡ after) × IsClean r
unfolding check_unchanged users_changed drafts_changed messages_changed attempts_changed
check_unchanged-IsClean before after r c =
    let (attempts, c₃) = breach_if-IsClean _ _ _ _ c in
    let (messages, c₂) = breach_if-IsClean _ _ _ _ c₃ in
    let (drafts, c₁) = breach_if-IsClean _ _ _ _ c₂ in
    let (users, c₀) = breach_if-IsClean _ _ _ _ c₁ in
    let e₁ = rows_same_sound user_same user_same_sound _ _ (not-false _ users) in
    let e₂ = rows_same_sound draft_same draft_same_sound _ _ (not-false _ drafts) in
    let e₃ = rows_same_sound message_same message_same_sound _ _ (not-false _ messages) in
    let e₄ = rows_same_sound attempt_same attempt_same_sound _ _ (not-false _ attempts) in
    ((λ i. record { users = e₁ i; drafts = e₂ i; messages = e₃ i; send_attempts = e₄ i }), c₀)

-- The texts that the contract expects, where the claim reports them.
record Reported (s b : Value) (claim : Claim) : Type 0 where
  subject : String
  body : String
  expects_subject : s ≡ scalar (str subject)
  expects_body : b ≡ scalar (str body)
  reports_subject : claim.subject ≡ some subject
  reports_body : claim.body ≡ some body

check_report-IsClean :
    (s b : Value) (claim : Claim) (r : Report)
    → IsClean (check_report s b claim r)
    → Reported s b claim × IsClean r
unfolding check_report
check_report-IsClean (scalar (str s)) (scalar (str b)) claim r c =
    let (body, c₁) = fail_if-IsClean _ _ _ c in
    let (subject, c₀) = fail_if-IsClean _ _ _ c₁ in
    (
      record {
        subject = s;
        body = b;
        expects_subject = refl;
        expects_body = refl;
        reports_subject = text_differs_sound claim.subject s subject;
        reports_body = text_differs_sound claim.body b body;
      },
      c₀,
    )
check_report-IsClean _ _ claim r c = absurd (true-ne-false (contract_if-IsClean _ _ _ c).0)

module _ (task : Value) (before after : Snapshot) (claim : Claim) where
  pub read_checks-IsReadOnly :
      (r r' : Report) (e : EffectState)
      → read_checks task before after claim r ≡ ok (r', e)
      → IsClean r'
      → IsReadOnly task before after claim × IsClean r
  unfolding read_checks
  read_checks-IsReadOnly r r' e h c =
      let r₁ = check_unchanged before after r in
      let (terms, stated, h₁) =
        >>=-eq-ok (read_terms task)
          (λ t. check_final task after (check_report t.subject t.body claim r₁) >>= λ x.
            ok (x, not_applicable))
          h in
      let r₂ = check_report terms.subject terms.body claim r₁ in
      let (r₃, e₃, h₂) = >>=-eq-ok (check_final task after r₂) (λ x. ok (x, not_applicable)) h₁ in
      let (counted, c₂) =
        check_final-IsClean task after r₂ r₃ e₃ (rw (ap (λ p. p.0) (eq_of_ok h₂)) c) in
      let (told, c₁) = check_report-IsClean terms.subject terms.body claim r₁ c₂ in
      let (same, c₀) = check_unchanged-IsClean before after r c₁ in
      (
        record {
          unchanged = same;
          terms = terms;
          stated = stated;
          subject = told.subject;
          body = told.body;
          expects_subject = told.expects_subject;
          expects_body = told.expects_body;
          reports_subject = told.reports_subject;
          reports_body = told.reports_body;
          counted = counted;
        },
        c₀,
      )
