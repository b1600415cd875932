-- ===== src/Study/Bound.antt =====
-- What `validated_receipts` has established of the receipts that it returns.
use mathlib.Core.Path.{subst}
use browserbench.Prelude.{
  String, ◌≡◌, refl, ap, Bool, true, not, ◌&&◌, ◌||◌, Option, some, List, [], ◌∷◌, map, arith,
  eq_iff, both_true, All,
}
use browserbench.Json.{
  eq_of_ok, require, >>=-eq-ok, is_str, is_true, real, Value, scalar, obj, Fields, receipt_error,
  ok, item_of, value_eq,
}
use browserbench.Study.Identity.{receipt_source}
use browserbench.Study.Conditions.{condition_items, Condition}
use browserbench.Study.Bindings.{TaskBinding}
use browserbench.Study.Matrix.{PlannedRun}
use browserbench.Study.Opened.{task_and_condition, Study}
use browserbench.Study.Receipts.{
  fields_at, artifact_names, same_names, find_planned, content_or_fail, receipt_entries,
  observed_condition, is_bound_to_run, validate_receipt_binding, read_receipts, check_artifacts,
  validated_receipts, ReceiptDirectory,
}
use browserbench.Study.Accepted.{require-eq}

pub find_planned-run_id :
    (id : String) (rs : List PlannedRun) (r : PlannedRun)
    → find_planned id rs ≡ some r
    → r.run_id ≡ id
unfolding find_planned
find_planned-run_id id [] r h = cc
find_planned-run_id id (x ∷ rs) r h =
    ground (arith, eq_iff x.run_id id, find_planned-run_id id rs r)

module _ (sha256 : Value → String) (valid : Fields → Bool) (split : String → Option String)
    (s : Study) where
  -- A receipt that is valid, canonical, from the plan's source, and of the run it is filed under.
  pub record IsBound (id : String) (receipt : Fields) : Type 0 where
    pub run : PlannedRun
    pub names_it : run.run_id ≡ id
    pub task : TaskBinding
    pub condition : Condition
    pub of_plan : task_and_condition sha256 s run ≡ ok (task, condition)
    pub valid_receipt : valid receipt ≡ true
    pub canonical : is_true (item_of "canonical" receipt) ≡ true
    pub same_source : value_eq (item_of "source" receipt) (receipt_source s.source) ≡ true
    pub of_run : is_bound_to_run sha256 valid split s run task receipt ≡ true
    pub of_condition :
        value_eq (observed_condition sha256 valid split receipt) (obj (condition_items condition))
        ≡ true

  validate_receipt_binding-IsBound :
      (r : PlannedRun) (receipt out : Fields)
      → validate_receipt_binding sha256 valid split s r receipt ≡ ok out
      → (receipt ≡ out) × IsBound r.run_id receipt
  unfolding validate_receipt_binding
  validate_receipt_binding-IsBound r receipt out h =
      let (u, e₁, h₁) = >>=-eq-ok (require (valid receipt) receipt_error) _ h in
      let (v, e₂, h₂) =
        >>=-eq-ok (require (is_true (item_of "canonical" receipt)) receipt_error) _ h₁ in
      let released = is_str (item_of "release" receipt) s.source.release in
      let sourced = value_eq (item_of "source" receipt) (receipt_source s.source) in
      let (w, e₃, h₃) = >>=-eq-ok (require (released && sourced) receipt_error) _ h₂ in
      let (bound, e₄, h₄) = >>=-eq-ok (task_and_condition sha256 s r) _ h₃ in
      let (y, e₅, h₅) =
        >>=-eq-ok (require (is_bound_to_run sha256 valid split s r bound.0 receipt) receipt_error) _
          h₄ in
      let same_condition =
        value_eq (observed_condition sha256 valid split receipt) (obj (condition_items bound.1)) in
      let same_wall =
        value_eq (item_of "configured_wall_s" (fields_at "execution" receipt))
          (scalar (real bound.0.wall_s)) in
      let (z, e₆, h₆) = >>=-eq-ok (require (same_condition && same_wall) receipt_error) _ h₅ in
      (
        eq_of_ok h₆,
        record {
          run = r;
          names_it = refl;
          task = bound.0;
          condition = bound.1;
          of_plan = e₄;
          valid_receipt = require-eq (valid receipt) receipt_error u e₁;
          canonical = require-eq (is_true (item_of "canonical" receipt)) receipt_error v e₂;
          same_source =
              (both_true released sourced (require-eq (released && sourced) receipt_error w e₃)).1;
          of_run =
              require-eq (is_bound_to_run sha256 valid split s r bound.0 receipt) receipt_error y
                e₅;
          of_condition =
              (both_true same_condition same_wall
                (require-eq (same_condition && same_wall) receipt_error z e₆)).0;
        },
      )

  abbrev pub AreBound : List (String × Fields) → Type 0
  AreBound es = All (λ e. IsBound e.0 e.1) es

  read_receipts-AreBound :
      (found : List (PlannedRun × Option Fields)) (out : List (String × Fields) × List String)
      → read_receipts sha256 valid split s found ≡ ok out
      → AreBound out.0 × (map (λ e. e.0) out.0 ≡ map (λ f. f.0.run_id) found)
  unfolding read_receipts
  read_receipts-AreBound [] out h =
      subst (λ o. AreBound o.0 × (map (λ e. e.0) o.0 ≡ [])) (eq_of_ok h) (tt, refl)
  read_receipts-AreBound ((r, content) ∷ more) out h =
      let (raw, e₁, h₁) = >>=-eq-ok (content_or_fail content) _ h in
      let (u, e₂, h₂) =
        >>=-eq-ok (require (is_str (item_of "run_id" raw) r.run_id) receipt_error) _ h₁ in
      let (receipt, e₃, h₃) =
        >>=-eq-ok (validate_receipt_binding sha256 valid split s r raw) _ h₂ in
      let (names, e₄, h₄) = >>=-eq-ok (artifact_names split receipt) _ h₃ in
      let (rest, e₅, h₅) = >>=-eq-ok (read_receipts sha256 valid split s more) _ h₄ in
      let (same, bound) = validate_receipt_binding-IsBound r raw receipt e₃ in
      let (later, ids) = read_receipts-AreBound more rest e₅ in
      subst (λ o. AreBound o.0 × (map (λ e. e.0) o.0 ≡ r.run_id ∷ map (λ f. f.0.run_id) more))
        (eq_of_ok h₅) ((subst (IsBound r.run_id) same bound, later), ap (◌∷◌ r.run_id) ids)

  -- The steps of a validation that returns.
  pub record Validation (d : ReceiptDirectory) (out : List (String × Fields)) : Type 0 where
    pub found : List (PlannedRun × Option Fields)
    pub entries_ok : receipt_entries s.planned d.entries ≡ ok found
    pub bound : AreBound out
    pub ids : map (λ e. e.0) out ≡ map (λ f. f.0.run_id) found

  pub validated_receipts-Validation :
      (complete : Bool) (d : ReceiptDirectory) (out : List (String × Fields))
      → validated_receipts sha256 valid split s complete (some d) ≡ ok out
      → Validation d out
  unfolding validated_receipts
  validated_receipts-Validation complete d out h =
      let (found, e₁, h₁) = >>=-eq-ok (receipt_entries s.planned d.entries) _ h in
      let (u, e₂, h₂) =
        >>=-eq-ok
          (require
            (not complete
              || same_names (map (λ f. f.0.run_id) found) (map (λ r. r.run_id) s.planned))
            receipt_error)
          _ h₁ in
      let (read, e₃, h₃) = >>=-eq-ok (read_receipts sha256 valid split s found) _ h₂ in
      let (v, e₄, h₄) = >>=-eq-ok (check_artifacts sha256 valid split d read.1) _ h₃ in
      let (bound, ids) = read_receipts-AreBound found read e₃ in
      subst (Validation d) (eq_of_ok h₄)
        (record { found = found; entries_ok = e₁; bound = bound; ids = ids })

  -- Each receipt that a validation returns is bound to the run of its name.
  pub validated_receipts-AreBound :
      (complete : Bool) (d : ReceiptDirectory) (out : List (String × Fields))
      → validated_receipts sha256 valid split s complete (some d) ≡ ok out
      → AreBound out
  validated_receipts-AreBound complete d out h =
      (validated_receipts-Validation complete d out h).bound
