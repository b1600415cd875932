-- ===== src/Summary/Signature.antt =====
-- `_signature` and the check of `_cell` that all receipts of a cell have one.
use mathlib.Core.Path.{subst}
use browserbench.Prelude.{
  String, ◌≡◌, ap, ◌∙◌, inl, inr, true, List, [], ◌∷◌, arith, str_eq, eq_refl, Bool-cases,
  both_true, all, All,
}
use browserbench.Json.{
  ◌>>=◌, eq_of_ok, require, >>=-eq-ok, Value, obj, Fields, field, end, receipt_error, Py, ok, raise,
  item_of,
}
use browserbench.Study.{text}

abbrev dict_or_fail : Value → Py Fields
dict_or_fail (obj fs) = ok fs
dict_or_fail _ = raise receipt_error

-- The value of `_signature` from the five dicts of a receipt.
unfoldable pub signature_of :
    (condition_key : String) (receipt task source baseline execution versions : Fields) → Value
unfolding item_of
signature_of key r task source baseline execution versions = obj (
    field "condition_key" (text key) (
      field "task_definition_sha256" (item_of "sha256" task) (
        field "release" (item_of "release" r) (
          field "freeze" (item_of "freeze" r) (
            field "source" (obj source) (
              field "baseline" (obj baseline) (
                field "execution_budgets"
                  (obj (
                    field "configured_steps" (item_of "configured_steps" execution)
                      (field "configured_wall_s" (item_of "configured_wall_s" execution) end)))
                  (field "versions" (obj versions) end))))))))

-- _signature
unfoldable pub signature : (condition_key : String) → Fields → Py Value
unfolding item_of signature_of
signature key r = dict_or_fail (item_of "task" r) >>= λ task.
    dict_or_fail (item_of "source" r) >>= λ source.
    dict_or_fail (item_of "baseline" r) >>= λ baseline.
    dict_or_fail (item_of "execution" r) >>= λ execution.
    dict_or_fail (item_of "versions" r) >>= λ versions.
    ok (signature_of key r task source baseline execution versions)

module _ (sha256 : Value → String) (condition_key : String) where
  unfoldable pub signature_hashes : List Fields → Py (List String)
  unfolding signature
  signature_hashes [] = ok []
  signature_hashes (r ∷ rs) =
      signature condition_key r >>= λ s. signature_hashes rs >>= λ hashes. ok (sha256 s ∷ hashes)

  -- The one member of the set of digests.
  unfoldable pub one_hash : List String → Py String
  one_hash [] = raise receipt_error
  one_hash (h ∷ hashes) = require (all (str_eq h) hashes) receipt_error >>= λ _. ok h

  unfoldable pub cell_signature : List Fields → Py String
  unfolding signature_hashes one_hash
  cell_signature rs = signature_hashes rs >>= one_hash

  abbrev pub HasHash : String → Fields → Type 0
  HasHash h r = (s : Value) × (signature condition_key r ≡ ok s) × (str_eq h (sha256 s) ≡ true)

  signature_hashes-HasHash :
      (h : String) (rs : List Fields) (hashes : List String)
      → signature_hashes rs ≡ ok hashes
      → all (str_eq h) hashes ≡ true
      → All (HasHash h) rs
  unfolding signature_hashes
  signature_hashes-HasHash h [] hashes e k = tt
  signature_hashes-HasHash h (r ∷ rs) hashes e k =
      let (s, own, e1) = >>=-eq-ok (signature condition_key r) _ e in
      let (rest, later, e2) = >>=-eq-ok (signature_hashes rs) _ e1 in
      let same : sha256 s ∷ rest ≡ hashes = eq_of_ok e2 in
      let parts =
        both_true (str_eq h (sha256 s)) (all (str_eq h) rest) (ap (all (str_eq h)) same ∙ k) in
      ((s, own, parts.0), signature_hashes-HasHash h rs rest later parts.1)

  one_hash-all :
      (hashes : List String) (h : String) → one_hash hashes ≡ ok h → all (str_eq h) hashes ≡ true
  unfolding one_hash
  one_hash-all [] h e = cc
  one_hash-all (g ∷ hashes) h e = elim (Bool-cases (all (str_eq g) hashes)) [
    | inl q ↦
        let same : g ≡ h = eq_of_ok (rw (one_hash, q) at e) in
        subst (λ k. all (str_eq k) (g ∷ hashes) ≡ true) same (ground (arith, eq_refl g))
    | inr q ↦
        let bad : ◌≡◌ {A = Py String} (raise receipt_error) (ok h) = rw (one_hash, q) at e in cc
  ]

  -- Where a cell has a signature, it is the digest of the signature of each of its receipts.
  pub cell_signature-HasHash :
      (rs : List Fields) (h : String) → cell_signature rs ≡ ok h → All (HasHash h) rs
  unfolding cell_signature
  cell_signature-HasHash rs h e =
      let (hashes, found, one) = >>=-eq-ok (signature_hashes rs) one_hash e in
      signature_hashes-HasHash h rs hashes found (one_hash-all hashes h one)
