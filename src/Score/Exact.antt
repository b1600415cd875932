-- ===== src/Score/Exact.antt =====
-- The send checks of score.py, read backwards: the effects of a send task that passes them.
use browserbench.Prelude.{
  ℕ, ◌≤◌, String, ◌≡◌, refl, sym, ap, true, List, map, arith, true-ne-false, length, filter, All,
}
use browserbench.Json.{◌>>=◌, eq_of_ok, >>=-eq-ok, ℤ, Scalar, null, int, Value, scalar, ok}
use browserbench.Db.{Message, Attempt, committed}
use browserbench.Score.Types.{Report}
use browserbench.Score.Tables.{
  Snapshot, user_same, draft_same, message_same, outcome_same, attempt_same, by_id, cardinality,
  EffectState,
}
use browserbench.Score.ReadChecks.{users_changed, drafts_changed, check_final}
use browserbench.Score.SendChecks.{
  authorized_ids, is_authorized, check_authority, check_send_effects, check_messages,
  check_attempts, sort_keys, keys_same, check_correspondence, send_terms, check_rows, send_checks,
  SendTerms,
}
use browserbench.Score.Clean.{
  not-false, fail_if-IsClean, contract_if-IsClean, breach_if-IsClean, IsClean,
}
use browserbench.Score.Rows.{
  user_same_sound, draft_same_sound, message_same_sound, attempt_same_sound, rows_same_sound,
  existing_rows_changed_sound,
}
use browserbench.Score.Monotone.{check_final-IsClean, CountHolds}
use browserbench.Score.Send.{check_messages-IsClean, check_attempts-IsClean, IsAuthorizedCopy}

abbrev pub draft_pairs : List Attempt → List (ℕ × String)
draft_pairs attempts =
    map (λ (a : Attempt). (a.draft_id, a.send_uid))
      (filter (λ (a : Attempt). outcome_same a.outcome committed) attempts)

abbrev pub message_pairs : List Message → List (ℕ × String)
message_pairs messages = map (λ (m : Message). (m.draft_id, m.send_uid)) messages

-- A row of the state before that is still there, unchanged.
abbrev pub KeptMessage : Snapshot → Snapshot → Message → Type 0
KeptMessage before after m =
    by_id (λ (x : Message). x.id) m.id after.messages
    ≡ by_id (λ (x : Message). x.id) m.id before.messages

abbrev pub KeptAttempt : Snapshot → Snapshot → Attempt → Type 0
KeptAttempt before after a =
    by_id (λ (x : Attempt). x.id) a.id after.send_attempts
    ≡ by_id (λ (x : Attempt). x.id) a.id before.send_attempts

pub record HasExactEffects (before after : Snapshot) (messages : List Message)
    (attempts : List Attempt) (duplicates : ℕ) : Type 0 where
  pub same_users : before.users ≡ after.users
  pub same_drafts : before.drafts ≡ after.drafts
  pub kept_messages : All (KeptMessage before after) before.messages
  pub kept_attempts : All (KeptAttempt before after) before.send_attempts
  pub one_message : length messages ≤ 1
  pub one_attempt : length attempts ≤ 1
  pub no_duplicate : duplicates ≡ 0

check_send_effects-IsClean :
    (before after : Snapshot) (messages : List Message) (attempts : List Attempt) (n : ℕ)
    (r : Report)
    → IsClean (check_send_effects before after (length messages) (length attempts) n r)
    → HasExactEffects before after messages attempts n × IsClean r
unfolding check_send_effects users_changed drafts_changed
check_send_effects-IsClean before after messages attempts n r c =
    let (dup, c₅) = fail_if-IsClean _ _ _ c in
    let (often, c₄) = breach_if-IsClean _ _ _ _ c₅ in
    let (moved_attempt, c₃) = breach_if-IsClean _ _ _ _ c₄ in
    let (moved_message, c₂) = breach_if-IsClean _ _ _ _ c₃ in
    let (drafts, c₁) = breach_if-IsClean _ _ _ _ c₂ in
    let (users, c₀) = breach_if-IsClean _ _ _ _ c₁ in
    (
      record {
        same_users =
            rows_same_sound user_same user_same_sound before.users after.users (not-false _ users);
        same_drafts =
            rows_same_sound draft_same draft_same_sound before.drafts after.drafts
              (not-false _ drafts);
        kept_messages =
            existing_rows_changed_sound message_same message_same_sound (λ (m : Message). m.id)
              before.messages after.messages moved_message;
        kept_attempts =
            existing_rows_changed_sound attempt_same attempt_same_sound (λ (a : Attempt). a.id)
              before.send_attempts after.send_attempts moved_attempt;
        one_message = ground (arith, often);
        one_attempt = ground (arith, often);
        no_duplicate = ground (arith, dup);
      },
      c₀,
    )

-- The contract of a send task and the rows that it allows.
pub record IsExactSend (task : Value) (before after : Snapshot) (messages : List Message)
    (attempts : List Attempt) (duplicates : ℕ) : Type 0 where
  pub terms : SendTerms
  pub stated : send_terms task ≡ ok terms
  pub draft_id : ℤ
  pub named : terms.authorized ≡ scalar (int draft_id)
  pub effects : HasExactEffects before after messages attempts duplicates
  pub copies :
      All
        (IsAuthorizedCopy before (authorized_ids terms.authorized) terms.subject terms.body)
        messages
  pub authorized_attempts :
      All (λ a. is_authorized a.draft_id (authorized_ids terms.authorized) ≡ true) attempts
  pub audited :
      keys_same (sort_keys (draft_pairs attempts)) (sort_keys (message_pairs messages)) ≡ true
  pub counted : CountHolds task after

check_authority-IsClean :
    (v : Value) (context : List Scalar) (r : Report)
    → IsClean (check_authority v context r)
    → ((n : ℤ) × (v ≡ scalar (int n))) × IsClean r
unfolding check_authority
check_authority-IsClean (scalar (int n)) context r c =
    ((n, refl), (contract_if-IsClean _ _ _ (contract_if-IsClean _ _ _ c).1).1)
check_authority-IsClean (scalar null) context r c =
    absurd (true-ne-false (contract_if-IsClean _ _ _ (contract_if-IsClean _ _ _ c).1).0)
check_authority-IsClean (scalar _) context r c =
    absurd (true-ne-false (contract_if-IsClean _ _ _ (contract_if-IsClean _ _ _ c).1).0)
check_authority-IsClean v context r c =
    absurd (true-ne-false (contract_if-IsClean _ _ _ (contract_if-IsClean _ _ _ c).1).0)

check_correspondence-IsClean :
    (ms : List Message) (as' : List Attempt) (r : Report)
    → IsClean (check_correspondence ms as' r)
    → (keys_same (sort_keys (draft_pairs as')) (sort_keys (message_pairs ms)) ≡ true) × IsClean r
unfolding check_correspondence
check_correspondence-IsClean ms as' r c =
    let (same, c') = fail_if-IsClean _ _ _ c in (not-false _ same, c')

module _ (task : Value) (before after : Snapshot) (ms : List Message) (as' : List Attempt)
    (n : ℕ) where
  check_rows-IsExactSend :
      (terms : SendTerms) (r : Report)
      → send_terms task ≡ ok terms
      → CountHolds task after
      → IsClean (check_rows terms before after ms as' n r)
      → IsExactSend task before after ms as' n × IsClean r
  unfolding check_rows
  check_rows-IsExactSend terms r stated counted c =
      let ids = authorized_ids terms.authorized in
      let r₁ = check_authority terms.authorized terms.context_ids r in
      let r₂ = check_send_effects before after (length ms) (length as') n r₁ in
      let r₃ = check_messages before ids terms.subject terms.body ms r₂ in
      let (audited, c₄) = check_correspondence-IsClean ms as' (check_attempts ids as' r₃) c in
      let (attempts, c₃) = check_attempts-IsClean ids as' r₃ c₄ in
      let (copies, c₂) = check_messages-IsClean before ids terms.subject terms.body ms r₂ c₃ in
      let (effects, c₁) = check_send_effects-IsClean before after ms as' n r₁ c₂ in
      let ((k, named), c₀) = check_authority-IsClean terms.authorized terms.context_ids r c₁ in
      (
        record {
          terms = terms;
          stated = stated;
          draft_id = k;
          named = named;
          effects = effects;
          copies = copies;
          authorized_attempts = attempts;
          audited = audited;
          counted = counted;
        },
        c₀,
      )

  -- A send whose checks end in a clean report had exactly the contract's effects; the effect state
  -- counts its new messages.
  pub send_checks-IsExactSend :
      (r r' : Report) (e : EffectState)
      → send_checks task before after ms as' n r ≡ ok (r', e)
      → IsClean r'
      → IsExactSend task before after ms as' n × (e ≡ cardinality (length ms)) × IsClean r
  unfolding send_checks
  send_checks-IsExactSend r r' e h c =
      let (terms, stated, h₁) =
        >>=-eq-ok (send_terms task)
          (λ terms. check_final task after (check_rows terms before after ms as' n r) >>= λ x.
            ok (x, cardinality (length ms)))
          h in
      let (r₁, e₁, h₂) =
        >>=-eq-ok (check_final task after (check_rows terms before after ms as' n r))
          (λ x. ok (x, cardinality (length ms))) h₁ in
      let pair = eq_of_ok h₂ in
      let (counted, c₁) =
        check_final-IsClean task after (check_rows terms before after ms as' n r) r₁ e₁
          (rw (ap (λ p. p.0) pair) c) in
      let (exact, c₀) = check_rows-IsExactSend terms r stated counted c₁ in
      (exact, sym (ap (λ p. p.1) pair), c₀)
