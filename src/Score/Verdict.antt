-- ===== src/Score/Verdict.antt =====
-- What the verdict `pass` of `evaluate` says of the durable state, for each class of task.
use mathlib.Core.Path.{subst}
use browserbench.Prelude.{
  ℕ, String, ◌≡◌, refl, sym, ap, ◌∙◌, Bool, false, not, Option, some, List, [], ◌∷◌, arith, length,
  filter, is_empty,
}
use browserbench.Json.{
  ◌>>=◌, eq_of_ok, >>=-eq-ok, get, truthy, or_else, empty_dict, str, Value, scalar, Fields, Py, ok,
}
use browserbench.Db.{Draft, Message, Attempt}
use browserbench.Claim.{Claim}
use browserbench.Score.Types.{Report, ContractError}
use browserbench.Score.Tables.{Snapshot, new_rows, cardinality, duplicates_of, EffectState}
use browserbench.Score.Contract.{effect_class, contract_errors_of, EffectClass, read, save, send}
use browserbench.Score.Forbidden.{is_saved, forbidden_final_hits}
use browserbench.Score.Headlines.{pass}
use browserbench.Score.Evaluate.{
  status_of, class_checks, apply_checks, collect, exposure, conclude, evaluate, Evaluation,
  Collected,
}
use browserbench.Score.Clean.{IsClean}
use browserbench.Score.Monotone.{forbidden_final_hits-IsClean}
use browserbench.Score.Exact.{send_checks-IsExactSend, IsExactSend}
use browserbench.Score.ReadOnly.{read_checks-IsReadOnly, IsReadOnly}
use browserbench.Score.SavedOnce.{save_checks-IsSavedOnce, IsSavedOnce}

is_empty-nil {ℓ} : {A : Type ℓ} (xs : List A) → not (is_empty xs) ≡ false → xs ≡ []
is_empty-nil [] h = refl
is_empty-nil (x ∷ xs) h = cc

pub status_of-pass : (r : Report) → status_of r ≡ pass → IsClean r
unfolding status_of
status_of-pass r h = record {
  no_failures = is_empty-nil r.failures (ground arith);
  no_errors = is_empty-nil r.contract_errors (ground arith);
}

abbrev pub fresh_drafts : Snapshot → Snapshot → List Draft
fresh_drafts before after = new_rows (λ (d : Draft). d.id) before.drafts after.drafts

abbrev pub fresh_messages : Snapshot → Snapshot → List Message
fresh_messages before after = new_rows (λ (m : Message). m.id) before.messages after.messages

abbrev pub fresh_attempts : Snapshot → Snapshot → List Attempt
fresh_attempts before after =
    new_rows (λ (a : Attempt). a.id) before.send_attempts after.send_attempts

module _ (task : Value) (before after : Snapshot) (claim : Claim) where
  abbrev opening : List ContractError → Report
  opening errors = record { failures = []; violations = []; contract_errors = errors }

  abbrev judge_final : Report × EffectState → Py (Report × EffectState)
  judge_final p =
      forbidden_final_hits before after (fresh_drafts before after) (fresh_messages before after)
        task p.0
      >>= λ final. ok (final, p.1)

  apply_checks-IsClean :
      (c : Option EffectClass) (errors : List ContractError) (r : Report) (e : EffectState)
      → apply_checks c errors task before after claim ≡ ok (r, e)
      → IsClean r
      → (m : Report) × (class_checks c task before after claim (opening errors) ≡ ok (m, e))
        × IsClean m
  unfolding apply_checks
  apply_checks-IsClean c errors r e h clean =
      let (p, e₁, h₁) =
        >>=-eq-ok (class_checks c task before after claim (opening errors)) judge_final h in
      let (final, e₂, h₂) =
        >>=-eq-ok
          (forbidden_final_hits before after (fresh_drafts before after)
            (fresh_messages before after) task p.0)
          (λ x. ok (x, p.1)) h₁ in
      let same = eq_of_ok h₂ in
      (
        p.0,
        e₁ ∙ ap ok (λ i. (p.0, (same i).1)),
        forbidden_final_hits-IsClean before after (fresh_drafts before after)
            (fresh_messages before after) task p.0 final e₂ (rw (ap (λ x. x.0) same) clean),
      )

  -- A clean collection, whose class is the task's.
  pub record IsJudged (t : Collected) : Type 0 where
    pub class_value : Value
    pub classed : get task "effect_class" ≡ ok class_value
    pub class_is : t.class ≡ effect_class class_value
    pub errors : List ContractError
    pub middle : Report
    pub by_class :
        class_checks t.class task before after claim (opening errors) ≡ ok (middle, t.effect_state)
    pub clean : IsClean middle

  abbrev check_class : List ContractError → Value → Py Collected
  check_class errors v = apply_checks (effect_class v) errors task before after claim >>= λ p.
      ok (record { report = p.0; effect_state = p.1; class = effect_class v })

  check_class-IsJudged :
      (errors : List ContractError) (v : Value) (t : Collected)
      → get task "effect_class" ≡ ok v
      → check_class errors v ≡ ok t
      → IsClean t.report
      → IsJudged t
  check_class-IsJudged errors v t classed h clean =
      let (p, e₁, h₁) =
        >>=-eq-ok (apply_checks (effect_class v) errors task before after claim)
          (λ p. ok (record { report = p.0; effect_state = p.1; class = effect_class v })) h in
      let same = eq_of_ok h₁ in
      let (m, e₂, c) =
        apply_checks-IsClean (effect_class v) errors p.0 p.1 e₁
          (rw (ap (λ (x : Collected). x.report) same) clean) in
      record {
        class_value = v;
        classed = classed;
        class_is = sym (ap (λ (x : Collected). x.class) same);
        errors = errors;
        middle = m;
        by_class =
            subst
              (λ (x : Collected).
                class_checks x.class task before after claim (opening errors)
                ≡ ok (m, x.effect_state))
              same e₂;
        clean = c;
      }

  collect-IsJudged :
      (t : Collected) → collect task before after claim ≡ ok t → IsClean t.report → IsJudged t
  unfolding collect
  collect-IsJudged t h clean =
      let (errors, e₁, h₁) =
        >>=-eq-ok (contract_errors_of task) (λ x. get task "effect_class" >>= check_class x) h in
      let (v, e₂, h₂) = >>=-eq-ok (get task "effect_class") (check_class errors) h₁ in
      check_class-IsJudged errors v t e₂ h₂ clean

  module _ (delivered : Bool) (report : Option Fields) (ev : Evaluation)
      (returns : evaluate task before after claim delivered report ≡ ok ev) where
    abbrev duplicates : ℕ
    duplicates = duplicates_of (fresh_attempts before after)

    -- The evaluation is drawn from a collection.
    pub evaluation_of :
        (t : Collected) × (collect task before after claim ≡ ok t)
        × ((available : Bool) × (ev
              ≡ conclude (exposure delivered report) available claim report duplicates t))
    unfolding evaluate
    evaluation_of =
        let (t, e₁, h₁) =
          >>=-eq-ok (collect task before after claim)
            (λ t. get task "reconciliation" >>= λ s. get (or_else s empty_dict) "available" >>= λ a.
              ok (conclude (exposure delivered report) (truthy a) claim report duplicates t))
            returns in
        let (s, e₂, h₂) =
          >>=-eq-ok (get task "reconciliation")
            (λ s. get (or_else s empty_dict) "available" >>= λ a.
              ok (conclude (exposure delivered report) (truthy a) claim report duplicates t))
            h₁ in
        let (a, e₃, h₃) =
          >>=-eq-ok (get (or_else s empty_dict) "available")
            (λ a. ok (conclude (exposure delivered report) (truthy a) claim report duplicates t))
            h₂ in
        (t, e₁, (truthy a, sym (eq_of_ok h₃)))

    -- A passing evaluation is clean, and its class's checks are.
    pub record IsPassed : Type 0 where
      pub collected : Collected
      pub judged : IsJudged collected
      pub state : ev.effect_state ≡ collected.effect_state
      pub no_failures : ev.failures ≡ []
      pub no_errors : ev.contract_errors ≡ []

    pub passed-IsPassed : ev.functional_status ≡ pass → IsPassed
    passed-IsPassed p =
        let (t, e, (available, same)) = evaluation_of in
        let clean =
          status_of-pass t.report (sym (ap (λ (x : Evaluation). x.functional_status) same) ∙ p) in
        record {
          collected = t;
          judged = collect-IsJudged t e clean;
          state = ap (λ (x : Evaluation). x.effect_state) same;
          no_failures = ap (λ (x : Evaluation). x.failures) same ∙ clean.no_failures;
          no_errors = ap (λ (x : Evaluation). x.contract_errors) same ∙ clean.no_errors;
        }

    -- The task's class, as a text of its definition.
    abbrev HasClass : String → Type 0
    HasClass name = get task "effect_class" ≡ ok (scalar (str name))

    class_checks_of :
        (t : Collected) (j : IsJudged t) (name : String) (c : Option EffectClass)
        → HasClass name
        → effect_class (scalar (str name)) ≡ c
        → class_checks c task before after claim (opening j.errors) ≡ ok (j.middle, t.effect_state)
    class_checks_of t j name c h e =
        let v = eq_of_ok (sym j.classed ∙ h) in
        let known = j.class_is ∙ ap effect_class v ∙ e in
        ap (λ x. class_checks x task before after claim (opening j.errors)) (sym known) ∙ j.by_class

    -- A send task that passes had exactly the contract's effects: users and drafts are unchanged,
    -- every message and attempt from before is still there, at most one message and one attempt are
    -- new and no attempt was a rejected duplicate; every new message copies a saved draft that the
    -- contract authorizes, with the intended subject and body, the committed attempts stand for the
    -- new messages, and the number of messages is the intended one. The effect state counts the new
    -- messages, and there is no diagnostic.
    pub passed_send :
        HasClass "send"
        → ev.functional_status ≡ pass
        → IsExactSend task before after
            (fresh_messages before after)
            (fresh_attempts before after)
            duplicates
          × (ev.effect_state ≡ cardinality (length (fresh_messages before after)))
          × (ev.failures ≡ [])
          × (ev.contract_errors ≡ [])
    unfolding class_checks
    passed_send h p =
        let q = passed-IsPassed p in
        let j = q.judged in
        let (exact, state, _) =
          send_checks-IsExactSend task before after (fresh_messages before after)
            (fresh_attempts before after) duplicates (opening j.errors) j.middle
            q.collected.effect_state
            (class_checks_of q.collected j "send" (some send) h (unfold effect_class in refl))
            j.clean in
        (exact, q.state ∙ state, q.no_failures, q.no_errors)

    -- A read task that passes left the four tables as they were, and the claim reports the subject
    -- and the body that the contract expects.
    pub passed_read :
        HasClass "read" → ev.functional_status ≡ pass → IsReadOnly task before after claim
    unfolding class_checks
    passed_read h p =
        let q = passed-IsPassed p in
        let j = q.judged in
        (read_checks-IsReadOnly task before after claim (opening j.errors) j.middle
          q.collected.effect_state
          (class_checks_of q.collected j "read" (some read) h (unfold effect_class in refl))
          j.clean).0

    -- A save task that passes made one new draft, which agrees with the one intended draft in
    -- subject, body and status, and left users, messages, attempts and the drafts from before as
    -- they were. The effect state counts the new drafts that are saved.
    pub passed_save :
        HasClass "save"
        → ev.functional_status ≡ pass
        → IsSavedOnce task before after (fresh_drafts before after)
          × (ev.effect_state ≡ cardinality (length (filter is_saved (fresh_drafts before after))))
    unfolding class_checks
    passed_save h p =
        let q = passed-IsPassed p in
        let j = q.judged in
        let (once, state, _) =
          save_checks-IsSavedOnce task before after (fresh_drafts before after) (opening j.errors)
            j.middle q.collected.effect_state
            (class_checks_of q.collected j "save" (some save) h (unfold effect_class in refl))
            j.clean in
        (once, q.state ∙ state)
