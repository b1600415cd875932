-- ===== src/Audit/Confirms.antt =====
-- The validator derives a pass from the receipt of each send that score.py passes.
use mathlib.Core.Path.{subst}
use browserbench.Prelude.{
  ℕ, ◌≡◌, refl, sym, ap, ◌∙◌, Bool, true, false, not, Option, none, some, List, [], ◌∷◌, arith,
  eq_refl, length, All, All-imp, any-of_All,
}
use browserbench.Json.{
  ℤ_eq, scalar_eq, cell_eq, get, member, ℤ, pos, int, str, Value, scalar, Fields, ok,
}
use browserbench.Db.{User, Draft, Message, Attempt}
use browserbench.Claim.{Claim}
use browserbench.Score.{
  send_unauthorized_draft, Snapshot, user_same, draft_same, message_same, attempt_same, rows_same,
  by_id, same_entry, existing_rows_changed, duplicates_of, effect_class, send, users_changed,
  drafts_changed, authorized_ids, is_authorized, pass, as_number, part, evaluate, Evaluation,
}
use browserbench.Score.Send.{IsAuthorizedCopy}
use browserbench.Score.Exact.{HasExactEffects, IsExactSend}
use browserbench.Score.Verdict.{fresh_messages, fresh_attempts, passed_send}
use browserbench.Audit.Derived.{
  note_if, charge_if, note_charge, audit_effects, strays, unintended, audit_messages,
  audit_attempts, audit_send, audit_class, expected_evaluation, Findings, Expected,
}
use browserbench.Audit.Terms.{expected_message, get-eq-part, intended-get, send_terms-same}

module _ {ℓ} {A : Type ℓ} (same : A → A → Bool) (all_same : (a : A) → same a a ≡ true) where
  rows_same_refl : (xs : List A) → rows_same same xs xs ≡ true
  unfolding rows_same
  rows_same_refl [] = refl
  rows_same_refl (x ∷ xs) = ground (arith, all_same x, rows_same_refl xs)

  same_entry_refl : (id : A → ℕ) (o : Option A) → same_entry id same o o ≡ true
  same_entry_refl id none = refl
  same_entry_refl id (some x) = all_same x

  existing_rows_kept :
      (id : A → ℕ) (before after : List A)
      → All (λ x. by_id id (id x) after ≡ by_id id (id x) before) before
      → existing_rows_changed id same before after ≡ false
  unfolding existing_rows_changed
  existing_rows_kept id before after h =
      any-of_All (λ x. not (same_entry id same (by_id id (id x) after) (by_id id (id x) before)))
        before
        (All-imp (λ x. by_id id (id x) after ≡ by_id id (id x) before)
          (λ x. not (same_entry id same (by_id id (id x) after) (by_id id (id x) before)) ≡ false)
          before (λ x e. rw e (ap not (same_entry_refl id (by_id id (id x) before)))) h)

user_same_refl : (u : User) → user_same u u ≡ true
unfolding user_same
user_same_refl u = ground (arith, eq_refl u.name)

draft_same_refl : (d : Draft) → draft_same d d ≡ true
unfolding draft_same
draft_same_refl d = ground (arith, eq_refl d.subject, eq_refl d.body, eq_refl d.status)

message_same_refl : (m : Message) → message_same m m ≡ true
unfolding message_same
message_same_refl m = ground (arith, eq_refl m.subject, eq_refl m.body, eq_refl m.send_uid)

attempt_same_refl : (a : Attempt) → attempt_same a a ≡ true
unfolding attempt_same
attempt_same_refl a = ground (arith, eq_refl a.send_uid)

-- Exactly the contract's effects give the validator nothing to note.
audit_effects-none :
    (before after : Snapshot) (ms : List Message) (as' : List Attempt) (n : ℕ) (f : Findings)
    → HasExactEffects before after ms as' n
    → audit_effects before after (length ms) (length as') n f ≡ f
unfolding audit_effects note_if charge_if users_changed drafts_changed
audit_effects-none before after ms as' n f x =
    rw (← x.same_users, ← x.same_drafts)
      (rw
        (
          rows_same_refl user_same user_same_refl before.users,
          rows_same_refl draft_same draft_same_refl before.drafts,
          existing_rows_kept message_same message_same_refl (λ (m : Message). m.id) before.messages
              after.messages x.kept_messages,
          existing_rows_kept attempt_same attempt_same_refl (λ (a : Attempt). a.id)
              before.send_attempts after.send_attempts x.kept_attempts,
        )
        (ground (arith, x.one_message, x.one_attempt, x.no_duplicate)))

cell-of_authorized :
    (k : ℕ) (n : ℤ)
    → is_authorized k (authorized_ids (scalar (int n))) ≡ true
    → cell_eq (int (pos k)) (scalar (int n)) ≡ true
unfolding is_authorized member cell_eq scalar_eq
cell-of_authorized k n h = ground (arith, h)

module _ (before : Snapshot) (expected : Value) (n : ℤ)
    (named : part expected "draft_id" ≡ scalar (int n)) where
  audit_message-none :
      (m : Message) (f : Findings)
      → IsAuthorizedCopy before
          (authorized_ids (scalar (int n)))
          (part expected "subject")
          (part expected "body")
          m
      → note_if (unintended m expected) "intended message" (
          note_if
            (strays m (by_id (λ (d : Draft). d.id) m.draft_id before.drafts))
            "message content"
            (note_charge
              (not (cell_eq (int (pos m.draft_id)) (part expected "draft_id")))
              "unauthorized draft"
              (send_unauthorized_draft m.draft_id)
              f))
        ≡ f
  unfolding note_if charge_if cell_eq
  audit_message-none m f c =
      rw
        (
          c.found,
          named,
          c.intended_subject,
          c.intended_body,
          cell-of_authorized m.draft_id n c.authorized,
          c.same_user,
          c.same_subject,
          c.same_body,
        )
        (ground (arith, eq_refl c.source.subject, eq_refl c.source.body))

  audit_messages-none :
      (ms : List Message) (f : Findings)
      → All
          (IsAuthorizedCopy before
            (authorized_ids (scalar (int n)))
            (part expected "subject")
            (part expected "body"))
          ms
      → audit_messages before expected ms f ≡ f
  unfolding audit_messages
  audit_messages-none [] f h = refl
  audit_messages-none (m ∷ ms) f (c, h) =
      ap (audit_messages before expected ms) (audit_message-none m f c) ∙ audit_messages-none ms f h

  audit_attempts-none :
      (as' : List Attempt) (f : Findings)
      → All (λ (a : Attempt). is_authorized a.draft_id (authorized_ids (scalar (int n))) ≡ true) as'
      → audit_attempts (part expected "draft_id") as' f ≡ f
  unfolding audit_attempts note_if charge_if
  audit_attempts-none [] f h = refl
  audit_attempts-none (a ∷ as') f (c, h) =
      rw (named, cell-of_authorized a.draft_id n c) (audit_attempts-none as' f h)

-- A send with exactly the contract's effects gives the validator nothing to note.
audit_send-none :
    (task : Value) (before after : Snapshot) (ms : List Message) (as' : List Attempt) (n : ℕ)
    (f : Findings)
    → IsExactSend task before after ms as' n
    → audit_send task before after ms as' n f ≡ f
unfolding audit_send note_if as_number ℤ_eq
audit_send-none task before after ms as' n f x =
    let same = send_terms-same task x.terms x.stated in
    let expected = expected_message task in
    let ids = authorized_ids (scalar (int x.draft_id)) in
    let named : part expected "draft_id" ≡ scalar (int x.draft_id) = sym same.draft_id ∙ x.named in
    let counted : part expected "count" ≡ scalar (int (pos (length after.messages))) = sym (
      intended-get task x.counted.messages "count" (scalar (int (pos (length after.messages))))
        x.counted.intended x.counted.count) in
    let copies : All
        (IsAuthorizedCopy before (authorized_ids (scalar (int x.draft_id)))
          (part expected "subject") (part expected "body"))
        ms =
      subst (λ v. All (IsAuthorizedCopy before ids (part expected "subject") v) ms) same.body
        (subst (λ v. All (IsAuthorizedCopy before ids v x.terms.body) ms) same.subject
          (subst
            (λ v. All (IsAuthorizedCopy before (authorized_ids v) x.terms.subject x.terms.body) ms)
            x.named x.copies)) in
    let attempts : All
        (λ (a : Attempt).
          is_authorized a.draft_id (authorized_ids (scalar (int x.draft_id))) ≡ true)
        as' =
      subst (λ v. All (λ (a : Attempt). is_authorized a.draft_id (authorized_ids v) ≡ true) as')
        x.named x.authorized_attempts in
    rw
      (
        audit_effects-none before after ms as' n f x.effects,
        audit_messages-none before expected x.draft_id named ms f copies,
        counted,
      )
      (ap (audit_attempts (part expected "draft_id") as') (ground arith)
        ∙ audit_attempts-none before expected x.draft_id named as' f attempts)

-- What the validator derives from the receipt of a send that passed.
pub record IsConfirmed (ev : Evaluation) (e : Expected) : Type 0 where
  pub status : e.functional_status ≡ pass
  pub effects : e.effect_state ≡ ev.effect_state
  pub duplicates : e.duplicate_attempt_count ≡ 0
  pub violations : e.authorization_violations ≡ []

class-of_send :
    (task : Value)
    → get task "effect_class" ≡ ok (scalar (str "send"))
    → effect_class (part task "effect_class") ≡ some send
class-of_send task h =
    ap effect_class (sym (get-eq-part task "effect_class" (scalar (str "send")) h))
    ∙ (unfold effect_class in refl)

-- Where `evaluate` of score.py passes a send task, the validator derives from the same snapshots,
-- whatever the injection report says, that the run passes: with the same effect state, without a
-- rejected duplicate and without an authorization violation.
pub passed-IsConfirmed :
    (task : Value) (before after : Snapshot) (claim : Claim) (delivered : Bool)
    (report : Option Fields) (ev : Evaluation) (injection_report : Fields)
    → evaluate task before after claim delivered report ≡ ok ev
    → get task "effect_class" ≡ ok (scalar (str "send"))
    → ev.functional_status ≡ pass
    → IsConfirmed ev (expected_evaluation task before after claim injection_report)
unfolding expected_evaluation audit_class
passed-IsConfirmed task before after claim delivered report ev injection_report returns class
      passes =
    let (exact, state, _, _) =
      passed_send task before after claim delivered report ev returns class passes in
    let none_noted =
      audit_send-none task before after (fresh_messages before after) (fresh_attempts before after)
        (duplicates_of (fresh_attempts before after)) (record { failures = []; violations = [] })
        exact in
    rw (class-of_send task class, none_noted)
      (record {
        status = refl;
        effects = sym state;
        duplicates = exact.effects.no_duplicate;
        violations = refl;
      })
