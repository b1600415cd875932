-- ===== src/Study/Unlisted.antt =====
-- A receipt that stands in the directory but not in `existing` ends the study at the next run that
-- is pending: the loop adds the receipts that its workers staged, and not those of failures.
use mathlib.Core.Path.{subst}
use browserbench.Prelude.{
  String, ◌≡◌, refl, sym, ap, ◌∙◌, ◌≢◌, inl, inr, Bool, true, false, ◌&&◌, ◌||◌, Option, some, List,
  [], ◌∷◌, map, arith, str_eq, eq_iff, Bool-cases, Option-cases, true-ne-false, both_true, any, all,
}
use browserbench.Json.{
  ◌>>=◌, eq_of_ok, require, >>=-eq-ok, Py-cases, Value, Fields, PyError, receipt_error, Py, ok,
  raise,
}
use browserbench.Study.Conditions.{Condition}
use browserbench.Study.Bindings.{TaskBinding}
use browserbench.Study.Matrix.{PlannedRun}
use browserbench.Study.Opened.{Study}
use browserbench.Study.Receipts.{
  is_regular, is_folder, same_names, find_planned, place, receipt_entries, validated_receipts,
  Entry, ReceiptDirectory, EntryKind, EntryName, artifacts_name, receipt_name, foreign_name,
}
use browserbench.Study.Accepted.{require-eq}
use browserbench.Study.Bound.{find_planned-run_id, validated_receipts-Validation}
use browserbench.Study.Execution.{
  falls_short, magnitude, is_existing, has_receipt, check_round, start_run, Round, Progress, Budget,
  raised, halt,
}

any-map :
    (id : String) (es : List (String × Fields))
    → any (str_eq id) (map (λ e. e.0) es) ≡ is_existing id es
unfolding is_existing
any-map id [] = refl
any-map id (e ∷ es) = ap (λ b. str_eq id e.0 || b) (any-map id es)

same_names-any :
    (id : String) (ss ts : List String)
    → all (λ s. any (str_eq s) ts) ss ≡ true
    → any (str_eq id) ss ≡ true
    → any (str_eq id) ts ≡ true
same_names-any id [] ts h k = cc
same_names-any id (s ∷ ss) ts h k =
    let (first, rest) = both_true (any (str_eq s) ts) (all (λ s. any (str_eq s) ts) ss) h in
    elim (Bool-cases (str_eq id s)) [
      | inl e ↦ subst (λ x. any (str_eq x) ts ≡ true) (sym ((eq_iff id s).0 e)) first
      | inr e ↦ same_names-any id ss ts rest (rw e at k)
    ]

abbrev is_filed_as : String → EntryName → Bool
is_filed_as id (receipt_name n) = str_eq n id
is_filed_as id _ = false

abbrev files_receipt : String → List Entry → Bool
files_receipt id es = any (λ e. is_filed_as id e.name) es

abbrev lists : String → List (PlannedRun × Option Fields) → Bool
lists id found = any (str_eq id) (map (λ f. f.0.run_id) found)

-- The loop keeps each receipt entry: this one, or one of the rest.
place-lists :
    (id : String) (rs : List PlannedRun) (name : EntryName) (kind : EntryKind) (c : Option Fields)
    (rest : Py (List (PlannedRun × Option Fields))) (found : List (PlannedRun × Option Fields))
    (later : Bool)
    → place rs name kind c rest ≡ ok found
    → (is_filed_as id name || later) ≡ true
    → ((more : List (PlannedRun × Option Fields))
        → rest ≡ ok more
        → later ≡ true
        → lists id more ≡ true)
    → lists id found ≡ true
unfolding place
place-lists id rs artifacts_name kind c rest found later h k f =
    let (u, _, h₁) = >>=-eq-ok (require (is_folder kind) receipt_error) _ h in f found h₁ k
place-lists id rs foreign_name kind c rest found later h k f = cc
place-lists id rs (receipt_name n) kind c rest found later h k f =
    elim (Option-cases (find_planned n rs)) [
      | inl e ↦
          let bad : ◌≡◌ {A = Py (List (PlannedRun × Option Fields))} (raise receipt_error)
              (ok found) =
            rw (place, e) at h in
          cc
      | inr (r, e) ↦
          let h' : (require (is_regular kind) receipt_error >>= λ _.
          rest >>= λ more. ok ((r, c) ∷ more))
              ≡ ok found =
            rw (place, e) at h in
          let (u, _, h₁) = >>=-eq-ok (require (is_regular kind) receipt_error) _ h' in
          let (more, e₂, h₂) = >>=-eq-ok rest _ h₁ in
          let there : (str_eq id r.run_id || lists id more) ≡ true =
            elim (Bool-cases (str_eq n id)) [
              | inl same ↦
                  let eq : str_eq id r.run_id ≡ true =
                    (eq_iff id r.run_id).1
                      (sym ((eq_iff n id).0 same) ∙ sym (find_planned-run_id n rs r e)) in
                  rw eq refl
              | inr other ↦ let below = f more e₂ (rw other at k) in ground arith
            ] in
          subst (λ x. lists id x ≡ true) (eq_of_ok h₂) there
    ]

receipt_entries-lists :
    (id : String) (rs : List PlannedRun) (es : List Entry)
    (found : List (PlannedRun × Option Fields))
    → receipt_entries rs es ≡ ok found
    → files_receipt id es ≡ true
    → lists id found ≡ true
unfolding receipt_entries
receipt_entries-lists id rs [] found h k = cc
receipt_entries-lists id rs (e ∷ es) found h k =
    place-lists id rs e.name e.kind e.content (receipt_entries rs es) found (files_receipt id es) h
      k (λ more h' k'. receipt_entries-lists id rs es more h' k')

module _ (sha256 : Value → String) (valid : Fields → Bool) (split : String → Option String) where
  validated_receipts-is_existing :
      (s : Study) (id : String) (d : ReceiptDirectory) (out : List (String × Fields))
      → validated_receipts sha256 valid split s false (some d) ≡ ok out
      → has_receipt id d ≡ true
      → is_existing id out ≡ true
  validated_receipts-is_existing s id d out h k =
      let v = validated_receipts-Validation sha256 valid split s false d out h in
      let listed = receipt_entries-lists id s.planned d.entries v.found v.entries_ok k in
      sym (any-map id out) ∙ subst (λ x. any (str_eq id) x ≡ true) (sym v.ids) listed

  module _ (installed : String → Option String) (definition : String → Py Fields) (s : Study) where
    check_round-unlisted :
        (bound : TaskBinding × Condition) (x : Round) (p : Progress) (id : String) (u : Unit {0})
        → has_receipt id p.directory ≡ true
        → is_existing id p.existing ≡ false
        → check_round sha256 valid split installed definition s bound x p ≢ ok u
    unfolding check_round same_names
    check_round-unlisted bound x p id u k n h =
        let (found, e₁, h₁) =
          >>=-eq-ok (validated_receipts sha256 valid split s false (some p.directory)) _ h in
        let (w, e₂, h₂) =
          >>=-eq-ok
            (require
              (all (λ s. any (str_eq s) (map (λ e. e.0) p.existing)) (map (λ f. f.0) found)
                && all (λ t. any (str_eq t) (map (λ f. f.0) found)) (map (λ e. e.0) p.existing))
              receipt_error)
            _ h₁ in
        let (within, _) = both_true _ _ (require-eq _ receipt_error w e₂) in
        let listed =
          any-map id found ∙ validated_receipts-is_existing s id p.directory found e₁ k in
        let known =
          same_names-any id (map (λ f. f.0) found) (map (λ e. e.0) p.existing) within listed in
        true-ne-false (sym known ∙ any-map id p.existing ∙ n)

    -- Where an unlisted receipt stands, no pending run is started: the study raises, or its time is
    -- already up.
    pub start_run-unlisted :
        (b : Budget) (r : PlannedRun) (later : List PlannedRun) (x : Round)
        (bound : TaskBinding × Condition) (p : Progress) (id : String)
        → has_receipt id (x.meanwhile p.directory) ≡ true
        → is_existing id p.existing ≡ false
        → falls_short b x.first_check (magnitude bound.0.wall_s) ≡ false
        → (e : PyError) × (start_run sha256 valid split installed definition s b r later x bound p
            ≡ halt (raised e) (x.meanwhile p.directory))
    unfolding start_run
    start_run-unlisted b r later x bound p id k n t =
        let q = record p { directory = x.meanwhile p.directory } in
        elim (Py-cases (check_round sha256 valid split installed definition s bound x q)) [
          | inl (u, c) ↦ absurd (check_round-unlisted bound x q id u k n c)
          | inr (e, c) ↦ (e, rw (t, c) refl)
        ]
