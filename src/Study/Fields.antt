-- ===== src/Study/Fields.antt =====
-- What the readers of single fields of a plan have checked.
use mathlib.Core.Path.{subst}
use browserbench.Prelude.{
  ℕ, ◌≤◌, String, ◌≡◌, inl, inr, true, false, Option, arith, str_eq, ltb, Bool-cases,
}
use browserbench.Json.{
  ◌>>=◌, eq_of_ok, >>=-eq-ok, ℤ, pos, null, bool, int, str, Value, scalar, obj, arr, plan_error, Py,
  ok, raise, as_float, item_of,
}
use browserbench.Study.Texts.{is_study_id, is_sha256}
use browserbench.Study.Identity.{
  is_source, source_of, source_from_plan, runtime_of, runtime_from_plan, PlanSource,
  RuntimeIdentity,
}
use browserbench.Study.Conditions.{optional_steps}
use browserbench.Study.Bindings.{
  positive, positive_or_fail, positive_steps, nonempty_text, digest_text,
}
use browserbench.Study.Plan.{study_id_text}
use browserbench.Study.Encoding.{HasSteps, IsPositiveReal}

source_of-is_source :
    (r c d t e : Value) (s : PlanSource) → source_of r c d t e ≡ ok s → is_source s ≡ true
unfolding source_of
source_of-is_source (scalar (str r)) (scalar (str c)) (scalar (bool false)) (scalar (str t))
      (scalar (bool true)) s h =
    let given : PlanSource = record { release = r; git_commit = c; source_tree_sha256 = t } in
    elim (Bool-cases (is_source given)) [
      | inl e ↦ subst (λ x. is_source x ≡ true) (eq_of_ok (rw e at h)) e
      | inr e ↦ let bad : ◌≡◌ {A = Py PlanSource} (raise plan_error) (ok s) = rw e at h in cc
    ]
source_of-is_source _ _ _ _ _ s h = cc

pub source_from_plan-is_source :
    (v : Value) (s : PlanSource) → source_from_plan v ≡ ok s → is_source s ≡ true
unfolding source_from_plan
source_from_plan-is_source (obj fs) s h = ground (
  arith,
  source_of-is_source (item_of "release" fs) (item_of "git_commit" fs) (item_of "git_dirty" fs)
      (item_of "source_tree_sha256" fs) (item_of "canonical_eligible" fs) s,
)
source_from_plan-is_source (scalar a) s h = cc
source_from_plan-is_source (arr vs) s h = cc

runtime_of-is_sha256 :
    (a p t : Value) (r : RuntimeIdentity) → runtime_of a p t ≡ ok r → is_sha256 r.tree_sha256 ≡ true
unfolding runtime_of
runtime_of-is_sha256 (scalar (str a)) (scalar (str p)) (scalar (str t)) r h = ground arith
runtime_of-is_sha256 _ _ _ r h = cc

pub runtime_from_plan-is_sha256 :
    (v : Value) (r : RuntimeIdentity) → runtime_from_plan v ≡ ok r → is_sha256 r.tree_sha256 ≡ true
unfolding runtime_from_plan
runtime_from_plan-is_sha256 (obj fs) r h = ground (
  arith,
  runtime_of-is_sha256 (item_of "algorithm" fs) (item_of "package" fs) (item_of "tree_sha256" fs) r,
)
runtime_from_plan-is_sha256 (scalar a) r h = cc
runtime_from_plan-is_sha256 (arr vs) r h = cc

pub nonempty_text-nonempty : (v : Value) (s : String) → nonempty_text v ≡ ok s → str_eq s "" ≡ false
unfolding nonempty_text
nonempty_text-nonempty (scalar (str t)) s h = ground arith
nonempty_text-nonempty _ s h = cc

pub digest_text-is_sha256 : (v : Value) (s : String) → digest_text v ≡ ok s → is_sha256 s ≡ true
unfolding digest_text
digest_text-is_sha256 (scalar (str t)) s h = ground arith
digest_text-is_sha256 _ s h = cc

pub positive_steps-pos : (v : Value) (n : ℕ) → positive_steps v ≡ ok n → 1 ≤ n
unfolding positive_steps
positive_steps-pos (scalar (int (pos m))) n h = ground arith
positive_steps-pos _ n h = cc

pub optional_steps-HasSteps : (v : Value) (o : Option ℕ) → optional_steps v ≡ ok o → HasSteps o
unfolding optional_steps
optional_steps-HasSteps (scalar null) o h = subst HasSteps (eq_of_ok h) tt
optional_steps-HasSteps (scalar (int (pos m))) o h = elim (Bool-cases (ltb m 1)) [
  | inl e ↦ let bad : ◌≡◌ {A = Py (Option ℕ)} (raise plan_error) (ok o) = rw e at h in cc
  | inr e ↦ subst HasSteps (eq_of_ok (rw e at h)) (ground arith)
]
optional_steps-HasSteps _ o h = cc

pub positive_or_fail-positive :
    (v : Value) (x : ℤ) → positive v >>= positive_or_fail ≡ ok x → IsPositiveReal x
unfolding positive
positive_or_fail-positive v x h =
    let (o, e, h') = >>=-eq-ok (positive v) positive_or_fail h in
    let (f, e', h'') = >>=-eq-ok (as_float v) _ e in ground arith

pub study_id_text-is_study_id :
    (sha256 : Value → String) (v : Value) (s : String)
    → study_id_text sha256 v ≡ ok s
    → is_study_id s ≡ true
unfolding study_id_text
study_id_text-is_study_id sha256 (scalar (str t)) s h = ground arith
study_id_text-is_study_id sha256 _ s h = cc
