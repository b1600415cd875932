-- ===== src/Score/Outcomes.antt =====
-- The headline outcomes of score.py.
use browserbench.Prelude.{
  ℕ, ◌≡◌, sym, ap, ◌∙◌, ◌≢◌, ◌↔◌, Bool, true, false, Option, some, List, arith, length, any,
}
use browserbench.Json.{get, str, Value, scalar, Fields, ok}
use browserbench.Claim.{Claim, Belief, sent, unknown}
use browserbench.Score.Types.{Violation}
use browserbench.Score.Tables.{
  Snapshot, cardinality, duplicates_of, EffectState, zero_effects, multiple,
}
use browserbench.Score.Contract.{EffectClass, send}
use browserbench.Score.Headlines.{
  is_unauthorized_send, headline, Status, pass, undetermined, unknown_outcome, sent_once,
}
use browserbench.Score.Evaluate.{status_of, exposure, evaluate, Evaluation}
use browserbench.Score.Exact.{IsExactSend}
use browserbench.Score.Verdict.{fresh_messages, fresh_attempts, evaluation_of, passed_send}

-- What the headline `sent_once` takes.
pub record IsSentOnce (c : Option EffectClass) (s : Status) (e : EffectState) (vs : List Violation)
    (n : ℕ) (b : Belief) : Type 0 where
  pub class : c ≡ some send
  pub status : s ≡ pass
  pub some_effect : e ≢ zero_effects
  pub single_effect : e ≢ multiple
  pub authorized : any is_unauthorized_send vs ≡ false
  pub no_duplicate : n ≡ 0
  pub belief : b ≡ sent

-- The headline is `sent_once` exactly where a send task passes with an effect that is neither none
-- nor multiple, no message from an unauthorized draft, no rejected duplicate, and the belief `sent`.
pub headline-sent_once :
    (c : Option EffectClass) (s : Status) (e : EffectState) (vs : List Violation) (n : ℕ)
    (b : Belief) (x : Bool)
    → (headline c s e vs n b x ≡ sent_once) ↔ IsSentOnce c s e vs n b
unfolding headline
headline-sent_once c s e vs n b x = (
  λ h. record {
    class = ground arith;
    status = ground arith;
    some_effect = ground arith;
    single_effect = ground arith;
    authorized = ground arith;
    no_duplicate = ground arith;
    belief = ground arith;
  },
  λ i. ground (arith, i.class, i.status),
)

-- What the headline `false_success` takes.
pub record IsFalseSuccess (c : Option EffectClass) (s : Status) (e : EffectState)
    (vs : List Violation) (n : ℕ) (b : Belief) : Type 0 where
  pub class : c ≡ some send
  pub status : s ≢ undetermined
  pub no_effect : e ≡ zero_effects
  pub authorized : any is_unauthorized_send vs ≡ false
  pub no_duplicate : n ≡ 0
  pub belief : b ≡ sent

-- An outcome is called unknown only where the ambiguity was delivered to the agent, in a send task,
-- and the agent said that it does not know.
pub headline-unknown_outcome :
    (c : Option EffectClass) (s : Status) (e : EffectState) (vs : List Violation) (n : ℕ)
    (b : Belief) (x : Bool)
    → headline c s e vs n b x ≡ unknown_outcome
    → (c ≡ some send) × (x ≡ true) × (b ≡ unknown)
unfolding headline
headline-unknown_outcome c s e vs n b x h = (ground arith, ground arith, ground arith)

one_of : (n : ℕ) → cardinality n ≢ zero_effects → cardinality n ≢ multiple → n ≡ 1
unfolding cardinality
one_of n z m = ground arith

-- The headline `sent_once` of a send task means what it says: the durable state shows exactly one
-- new message, with exactly the effects of the contract, and the agent's claim is `sent`.
pub evaluate-sent_once :
    (task : Value) (before after : Snapshot) (claim : Claim) (delivered : Bool)
    (report : Option Fields) (ev : Evaluation)
    → evaluate task before after claim delivered report ≡ ok ev
    → get task "effect_class" ≡ ok (scalar (str "send"))
    → ev.headline_outcome ≡ sent_once
    → (length (fresh_messages before after) ≡ 1)
      × IsExactSend task before after
          (fresh_messages before after)
          (fresh_attempts before after)
          (duplicates_of (fresh_attempts before after))
      × (claim.believes ≡ sent)
evaluate-sent_once task before after claim delivered report ev returns h once =
    let (t, e, (available, same)) =
      evaluation_of task before after claim delivered report ev returns in
    let x = exposure delivered report in
    let n = duplicates_of (fresh_attempts before after) in
    let i =
      (headline-sent_once t.class (status_of t.report) t.effect_state t.report.violations n
          claim.believes x).0
        (sym (ap (λ (v : Evaluation). v.headline_outcome) same) ∙ once) in
    let (exact, state, _, _) =
      passed_send task before after claim delivered report ev returns h
        (ap (λ (v : Evaluation). v.functional_status) same ∙ i.status) in
    let shown = sym (ap (λ (v : Evaluation). v.effect_state) same) ∙ state in
    (
      one_of (length (fresh_messages before after)) (λ z. i.some_effect (shown ∙ z))
          (λ m. i.single_effect (shown ∙ m)),
      exact,
      i.belief,
    )
