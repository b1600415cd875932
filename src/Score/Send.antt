-- ===== src/Score/Send.antt =====
-- What a send task that passes has done.
use browserbench.Prelude.{
  ℕ, String, ◌≡◌, refl, sym, ap, inl, inr, true, not, Option, none, some, List, [], ◌∷◌, arith,
  str_eq, eq_iff, ◌==◌, Bool-cases, true-ne-false, All,
}
use browserbench.Json.{Scalar, str, Value, scalar}
use browserbench.Db.{Draft, Message, Attempt}
use browserbench.Score.Types.{
  fail_if, breach_if, Report, content_not_text, unauthorized_message, no_source, source_not_saved,
  differs_from_source, differs_from_intended, unauthorized_attempt, send_unauthorized_draft,
  attempt_unauthorized_draft,
}
use browserbench.Score.Tables.{Snapshot, by_id}
use browserbench.Score.SendChecks.{
  is_authorized, check_intended, check_source, check_content, check_message, check_messages,
  check_attempts,
}
use browserbench.Score.Clean.{
  not-false, fail_if-IsClean, contract_if-IsClean, breach_if-IsClean, IsClean,
}

-- A message that copies a saved and authorized draft of the state before, with the intended text.
pub record IsAuthorizedCopy (before : Snapshot) (ids : List Scalar) (subject body : Value)
    (m : Message) : Type 0 where
  pub authorized : is_authorized m.draft_id ids ≡ true
  pub source : Draft
  pub found : by_id (λ (d : Draft). d.id) m.draft_id before.drafts ≡ some source
  pub saved : source.status ≡ "saved"
  pub same_user : m.user_id ≡ source.user_id
  pub same_subject : m.subject ≡ source.subject
  pub same_body : m.body ≡ source.body
  pub intended_subject : subject ≡ scalar (str m.subject)
  pub intended_body : body ≡ scalar (str m.body)

check_intended-IsClean :
    (m : ℕ) (key text : String) (v : Value) (r : Report)
    → IsClean (check_intended m key text v r)
    → (v ≡ scalar (str text)) × IsClean r
check_intended-IsClean m key text (scalar (str s)) r h =
    let (same, c) = fail_if-IsClean (not (str_eq text s)) (differs_from_intended m key) r h in
    (ap (λ t. scalar (str t)) (sym ((eq_iff text s).0 (not-false (str_eq text s) same))), c)
check_intended-IsClean m key text v r h =
    absurd (true-ne-false (contract_if-IsClean true (content_not_text key) r h).0)

-- What `check_source` compares.
record Copies (m : Message) (d : Draft) : Type 0 where
  saved : d.status ≡ "saved"
  same_user : m.user_id ≡ d.user_id
  same_subject : m.subject ≡ d.subject
  same_body : m.body ≡ d.body

check_source-IsClean :
    (m : Message) (d : Draft) (r : Report) → IsClean (check_source m d r) → Copies m d × IsClean r
check_source-IsClean m d r h =
    let r₁ = fail_if (not (str_eq d.status "saved")) (source_not_saved m.id) r in
    let r₂ = fail_if (not (m.user_id == d.user_id)) (differs_from_source m.id "user_id") r₁ in
    let r₃ = fail_if (not (str_eq m.subject d.subject)) (differs_from_source m.id "subject") r₂ in
    let (body, h₃) =
      fail_if-IsClean (not (str_eq m.body d.body)) (differs_from_source m.id "body") r₃ h in
    let (subject, h₂) =
      fail_if-IsClean (not (str_eq m.subject d.subject)) (differs_from_source m.id "subject") r₂
        h₃ in
    let (user, h₁) =
      fail_if-IsClean (not (m.user_id == d.user_id)) (differs_from_source m.id "user_id") r₁ h₂ in
    let (saved, h₀) =
      fail_if-IsClean (not (str_eq d.status "saved")) (source_not_saved m.id) r h₁ in
    (
      record {
        saved = (eq_iff d.status "saved").0 (not-false _ saved);
        same_user = ground (arith, user);
        same_subject = (eq_iff m.subject d.subject).0 (not-false _ subject);
        same_body = (eq_iff m.body d.body).0 (not-false _ body);
      },
      h₀,
    )

check_content-IsClean :
    (m : Message) (subject body : Value) (o : Option Draft) (r : Report)
    → IsClean (check_content m subject body o r)
    → ((d : Draft) × (o ≡ some d)
        × Copies m d
        × (subject ≡ scalar (str m.subject))
        × (body ≡ scalar (str m.body)))
      × IsClean r
check_content-IsClean m subject body none r h =
    absurd (true-ne-false (fail_if-IsClean true (no_source m.id) r h).0)
check_content-IsClean m subject body (some d) r h =
    let r₁ = check_source m d r in
    let r₂ = check_intended m.id "subject" m.subject subject r₁ in
    let (b, h₂) = check_intended-IsClean m.id "body" m.body body r₂ h in
    let (s, h₁) = check_intended-IsClean m.id "subject" m.subject subject r₁ h₂ in
    let (copies, h₀) = check_source-IsClean m d r h₁ in ((d, refl, copies, s, b), h₀)

module _ (before : Snapshot) (ids : List Scalar) (subject body : Value) where
  check_message-IsClean :
      (m : Message) (r : Report)
      → IsClean (check_message before ids subject body m r)
      → IsAuthorizedCopy before ids subject body m × IsClean r
  unfolding check_message
  check_message-IsClean m r h = elim (Bool-cases (is_authorized m.draft_id ids)) [
    | inl yes_ ↦
        let ((d, e, c, s, b), h₀) =
          check_content-IsClean m subject body
            (by_id (λ (x : Draft). x.id) m.draft_id before.drafts) r (rw yes_ at h) in
        (
          record {
            authorized = yes_;
            source = d;
            found = e;
            saved = c.saved;
            same_user = c.same_user;
            same_subject = c.same_subject;
            same_body = c.same_body;
            intended_subject = s;
            intended_body = b;
          },
          h₀,
        )
    | inr no_ ↦ absurd (
        true-ne-false
          (breach_if-IsClean true (unauthorized_message m.id m.draft_id)
            (send_unauthorized_draft m.draft_id) r (rw no_ at h)).0)
  ]

  pub check_messages-IsClean :
      (ms : List Message) (r : Report)
      → IsClean (check_messages before ids subject body ms r)
      → All (IsAuthorizedCopy before ids subject body) ms × IsClean r
  unfolding check_messages
  check_messages-IsClean [] r h = (tt, h)
  check_messages-IsClean (m ∷ ms) r h =
      let (rest, h₁) = check_messages-IsClean ms (check_message before ids subject body m r) h in
      let (this, h₀) = check_message-IsClean m r h₁ in ((this, rest), h₀)

pub check_attempts-IsClean :
    (ids : List Scalar) (attempts : List Attempt) (r : Report)
    → IsClean (check_attempts ids attempts r)
    → All (λ a. is_authorized a.draft_id ids ≡ true) attempts × IsClean r
unfolding check_attempts
check_attempts-IsClean ids [] r h = (tt, h)
check_attempts-IsClean ids (a ∷ as') r h =
    let r₁ =
      breach_if (not (is_authorized a.draft_id ids)) (unauthorized_attempt a.id a.draft_id)
        (attempt_unauthorized_draft a.draft_id) r in
    let (rest, h₁) = check_attempts-IsClean ids as' r₁ h in
    let (this, h₀) =
      breach_if-IsClean (not (is_authorized a.draft_id ids)) (unauthorized_attempt a.id a.draft_id)
        (attempt_unauthorized_draft a.draft_id) r h₁ in
    ((not-false _ this, rest), h₀)
