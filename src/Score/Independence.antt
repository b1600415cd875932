-- ===== src/Score/Independence.antt =====
-- The agent's claim never decides what `evaluate` says of the effects.
use mathlib.Core.Path.{fun_ext}
use browserbench.Prelude.{◌≡◌, refl, sym, ap, ◌∙◌, ◌≢◌, Bool, Option, none, some, List}
use browserbench.Json.{◌>>=◌, eq_of_ok, get, Value, Fields, Py, ok}
use browserbench.Claim.{Claim}
use browserbench.Score.Types.{Report, ContractError}
use browserbench.Score.Tables.{Snapshot, EffectState}
use browserbench.Score.Contract.{effect_class, contract_errors_of, EffectClass, read, save, send}
use browserbench.Score.Evaluate.{
  status_of, class_checks, apply_checks, collect, evaluate, Evaluation, Collected,
}
use browserbench.Score.Verdict.{evaluation_of}

-- The axes of an evaluation that are about the state and the treatment.
pub record SameEffects (ev ev' : Evaluation) : Type 0 where
  pub status : ev.functional_status ≡ ev'.functional_status
  pub effects : ev.effect_state ≡ ev'.effect_state
  pub violations : ev.authorization_violations ≡ ev'.authorization_violations
  pub duplicates : ev.duplicate_attempt_count ≡ ev'.duplicate_attempt_count
  pub failures : ev.failures ≡ ev'.failures
  pub contract_errors : ev.contract_errors ≡ ev'.contract_errors
  pub exposed : ev.ambiguity_exposed ≡ ev'.ambiguity_exposed
  pub reconciliation : ev.reconciliation ≡ ev'.reconciliation

module _ (task : Value) (before after : Snapshot) (c d : Claim) where
  class_checks-same :
      (k : Option EffectClass) (r : Report)
      → k ≢ some read
      → class_checks k task before after c r ≡ class_checks k task before after d r
  unfolding class_checks
  class_checks-same none r h = refl
  class_checks-same (some read) r h = absurd (h refl)
  class_checks-same (some save) r h = refl
  class_checks-same (some send) r h = refl

  apply_checks-same :
      (k : Option EffectClass) (errors : List ContractError)
      → k ≢ some read
      → apply_checks k errors task before after c ≡ apply_checks k errors task before after d
  unfolding apply_checks
  apply_checks-same k errors h = rw (class_checks-same k _ h)

  collect-same :
      (v : Value)
      → get task "effect_class" ≡ ok v
      → effect_class v ≢ some read
      → collect task before after c ≡ collect task before after d
  unfolding collect
  collect-same v e h = rw e (
      ap
        (λ (f : List ContractError → Py (Report × EffectState)). contract_errors_of task >>= λ x.
          f x >>= λ p. ok (record { report = p.0; effect_state = p.1; class = effect_class v }))
        (fun_ext (λ x. apply_checks-same (effect_class v) x h)))

  -- Of a task that is no read task, two evaluations of one pair of snapshots under one treatment
  -- agree in status, effect state, violations, duplicates, diagnostics, exposure and
  -- reconciliation, whatever the two agents claim.
  pub claim_irrelevant :
      (delivered : Bool) (report : Option Fields) (v : Value) (ev ev' : Evaluation)
      → get task "effect_class" ≡ ok v
      → effect_class v ≢ some read
      → evaluate task before after c delivered report ≡ ok ev
      → evaluate task before after d delivered report ≡ ok ev'
      → SameEffects ev ev'
  claim_irrelevant delivered report v ev ev' classed other one two =
      let (t, e, (_, same)) = evaluation_of task before after c delivered report ev one in
      let (t', e', (_, same')) = evaluation_of task before after d delivered report ev' two in
      let shared = eq_of_ok (sym e ∙ collect-same v classed other ∙ e') in
      record {
        status =
            ap (λ (x : Evaluation). x.functional_status) same
            ∙ ap (λ (x : Collected). status_of x.report) shared
            ∙ sym (ap (λ (x : Evaluation). x.functional_status) same');
        effects =
            ap (λ (x : Evaluation). x.effect_state) same
            ∙ ap (λ (x : Collected). x.effect_state) shared
            ∙ sym (ap (λ (x : Evaluation). x.effect_state) same');
        violations =
            ap (λ (x : Evaluation). x.authorization_violations) same
            ∙ ap (λ (x : Collected). x.report.violations) shared
            ∙ sym (ap (λ (x : Evaluation). x.authorization_violations) same');
        duplicates =
            ap (λ (x : Evaluation). x.duplicate_attempt_count) same
            ∙ sym (ap (λ (x : Evaluation). x.duplicate_attempt_count) same');
        failures =
            ap (λ (x : Evaluation). x.failures) same
            ∙ ap (λ (x : Collected). x.report.failures) shared
            ∙ sym (ap (λ (x : Evaluation). x.failures) same');
        contract_errors =
            ap (λ (x : Evaluation). x.contract_errors) same
            ∙ ap (λ (x : Collected). x.report.contract_errors) shared
            ∙ sym (ap (λ (x : Evaluation). x.contract_errors) same');
        exposed =
            ap (λ (x : Evaluation). x.ambiguity_exposed) same
            ∙ sym (ap (λ (x : Evaluation). x.ambiguity_exposed) same');
        reconciliation =
            ap (λ (x : Evaluation). x.reconciliation) same
            ∙ sym (ap (λ (x : Evaluation). x.reconciliation) same');
      }
