-- ===== src/Summary/Balanced.antt =====
-- The counts of a cell add up.
use mathlib.Core.Path.{subst}
use browserbench.Prelude.{
  ℕ, suc, ◌+◌, ◌≤◌, String, ◌≡◌, refl, ap, ◌∙◌, Bool, true, false, not, ◌&&◌, List, [], ◌∷◌, arith,
  length,
}
use browserbench.Json.{
  is_str, is_null, is_dict, null, bool, int, real, str, Value, scalar, obj, arr, Fields, item_of,
}
use browserbench.Summary.Cell.{
  success_values, no_values, values_of, increment, total, empty_tally, add_if, count_values,
  is_delivered, count_text, count_outcome, count_evaluation, count_receipt, count_receipts,
  failure_count, Tally,
}

-- What holds of the counts of the metrics over so many receipts.
pub record AreCounted (n : ℕ) (t : Tally) : Type 0 where
  pub strict : t.strict_count ≤ t.functional_count
  pub strict_safe : t.strict_count ≤ t.no_violations_count
  pub strict_single : t.strict_count ≤ t.no_duplicate_count
  pub functional : t.functional_count ≤ t.run_success_count
  pub violations : t.no_violations_count + t.violation_count ≡ t.run_success_count
  pub duplicates : t.no_duplicate_count + t.duplicate_count ≡ t.run_success_count
  pub failures : failure_count n t + t.run_success_count ≡ n

-- What holds of the other counts: each receipt is counted once in each of them.
pub record IsBalanced (n : ℕ) (t : Tally) : Type 0 where
  pub metrics : AreCounted n t
  pub all_statuses : total t.statuses ≡ n
  pub all_outcomes : t.null_outcomes + total t.outcomes ≡ n
  pub all_effects : total t.effects ≡ n
  pub all_beliefs : total t.beliefs ≡ n
  pub all_treatments : t.treatment_yes + t.treatment_no + t.treatment_unknown ≡ n

total-increment : (k : String) (c : List (String × ℕ)) → total (increment k c) ≡ suc (total c)
unfolding total increment
total-increment k [] = refl
total-increment k ((j, n) ∷ c) = ground (arith, total-increment k c)

none-counted : (n : ℕ) (t : Tally) → AreCounted n t → AreCounted (suc n) (count_values no_values t)
unfolding count_values failure_count
none-counted n t h = record {
  strict = h.strict;
  strict_safe = h.strict_safe;
  strict_single = h.strict_single;
  functional = h.functional;
  violations = h.violations;
  duplicates = h.duplicates;
  failures = let e = h.failures in omega arith;
}

some-counted :
    (f a d : Bool) (n : ℕ) (t : Tally)
    → AreCounted n t
    → AreCounted (suc n) (count_values (success_values f a d) t)
unfolding count_values failure_count
some-counted f a d n t h = record {
  strict = let e = h.strict in ground arith;
  strict_safe = let e = h.strict_safe in ground arith;
  strict_single = let e = h.strict_single in ground arith;
  functional = let e = h.functional in ground arith;
  violations = let e = h.violations in ground arith;
  duplicates = let e = h.duplicates in ground arith;
  failures = let e = h.failures in omega arith;
}

values_of-counted :
    (b : Bool) (v : Value) (n : ℕ) (t : Tally)
    → AreCounted n t
    → AreCounted (suc n) (count_values (values_of b v) t)
unfolding values_of
values_of-counted true (obj e) n t h = some-counted _ _ _ n t h
values_of-counted true (scalar x) n t h = none-counted n t h
values_of-counted true (arr x) n t h = none-counted n t h
values_of-counted false v n t h = none-counted n t h

empty-IsBalanced : IsBalanced 0 empty_tally
empty-IsBalanced = record {
  metrics = record {
    strict = ground arith;
    strict_safe = ground arith;
    strict_single = ground arith;
    functional = ground arith;
    violations = refl;
    duplicates = refl;
    failures = unfold failure_count in refl;
  };
  all_statuses = unfold total in refl;
  all_outcomes = unfold total in refl;
  all_effects = unfold total in refl;
  all_beliefs = unfold total in refl;
  all_treatments = refl;
}

module _ (shown : Value → String) where
  count_text-total :
      (v : Value) (n : ℕ) (c : List (String × ℕ))
      → add_if (is_null v) n + total (count_text shown v c) ≡ suc (n + total c)
  count_text-total (scalar null) n c = omega arith
  count_text-total (scalar (bool x)) n c =
      ground (arith, total-increment (shown (scalar (bool x))) c)
  count_text-total (scalar (int x)) n c = ground (arith, total-increment (shown (scalar (int x))) c)
  count_text-total (scalar (real x)) n c =
      ground (arith, total-increment (shown (scalar (real x))) c)
  count_text-total (scalar (str x)) n c = ground (arith, total-increment x c)
  count_text-total (obj x) n c = ground (arith, total-increment (shown (obj x)) c)
  count_text-total (arr x) n c = ground (arith, total-increment (shown (arr x)) c)

  treatments :
      (v : Value) (y n u : ℕ)
      → add_if (is_delivered v) y
          + add_if (is_dict v && not (is_delivered v)) n
          + add_if (not (is_dict v)) u
        ≡ suc (y + n + u)
  unfolding is_delivered
  treatments (scalar x) y n u = ground arith
  treatments (arr x) y n u = ground arith
  treatments (obj e) y n u = ground arith

  count_receipt-IsBalanced :
      (n : ℕ) (r : Fields) (t : Tally)
      → IsBalanced n t
      → IsBalanced (suc n) (count_receipt shown r t)
  unfolding count_receipt count_values count_outcome count_evaluation
  count_receipt-IsBalanced n r t h =
      let m =
        values_of-counted (is_str (item_of "status" r) "success") (item_of "evaluation" r) n t
          h.metrics in
      record {
        metrics = record {
          strict = m.strict;
          strict_safe = m.strict_safe;
          strict_single = m.strict_single;
          functional = m.functional;
          violations = m.violations;
          duplicates = m.duplicates;
          failures = unfold failure_count in m.failures;
        };
        all_statuses = total-increment _ t.statuses ∙ ap suc h.all_statuses;
        all_outcomes =
            count_text-total (item_of "outcome" r) t.null_outcomes t.outcomes
            ∙ ap suc h.all_outcomes;
        all_effects = total-increment _ t.effects ∙ ap suc h.all_effects;
        all_beliefs = total-increment _ t.beliefs ∙ ap suc h.all_beliefs;
        all_treatments =
            treatments (item_of "evaluation" r) t.treatment_yes t.treatment_no t.treatment_unknown
            ∙ ap suc h.all_treatments;
      }

  count_receipts-keeps :
      (n : ℕ) (rs : List Fields) (t : Tally)
      → IsBalanced n t
      → IsBalanced (n + length rs) (count_receipts shown rs t)
  unfolding count_receipts
  count_receipts-keeps n [] t h = subst (λ k. IsBalanced k t) (omega arith) h
  count_receipts-keeps n (r ∷ rs) t h =
      subst (λ k. IsBalanced k (count_receipts shown rs (count_receipt shown r t))) (omega arith)
        (count_receipts-keeps (suc n) rs (count_receipt shown r t)
          (count_receipt-IsBalanced n r t h))

  -- Over the receipts of a cell, each Counter counts each receipt once, the metrics are ordered as they
  -- mean, and the failures are those that are no success.
  pub count_receipts-IsBalanced :
      (rs : List Fields) → IsBalanced (length rs) (count_receipts shown rs empty_tally)
  count_receipts-IsBalanced rs =
      subst (λ k. IsBalanced k (count_receipts shown rs empty_tally)) (omega arith)
        (count_receipts-keeps 0 rs empty_tally empty-IsBalanced)
