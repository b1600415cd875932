-- ===== src/Manifest/Evidence.antt =====
-- What the receipt of a success holds.
use browserbench.Prelude.{
  String, ◌≡◌, refl, sym, inl, inr, true, false, not, Option, none, some, List, [], ◌∷◌, ◌++◌,
  str_eq, Bool-cases, eq_of_some, any, All,
}
use browserbench.Json.{is_null, bool, scalar, Fields, item_of}
use browserbench.Study.{text, text_or_null}
use browserbench.Manifest.Builder.{is_learned, ReceiptBuilder}
use browserbench.Manifest.Writing.{write_file, filesystem_cleaned, is_given}

-- A field of a receipt that has a value.
abbrev pub Holds : Fields → String → Type 0
Holds receipt k = is_null (item_of k receipt) ≡ false

-- The receipt of a success: it is complete, and canonical exactly if that was asked for.
pub record IsSuccess (b : ReceiptBuilder) (receipt : Fields) : Type 0 where
  pub status : item_of "status" receipt ≡ text "success"
  pub canonical : item_of "canonical" receipt ≡ scalar (bool b.canonical_requested)
  pub evidence : All (Holds receipt) (
      "task" ∷ "before_snapshot" ∷ "after_snapshot" ∷ "agent_claim" ∷ "injection_report" ∷ "trace"
      ∷ "evaluation" ∷ "outcome" ∷ [])
  pub cleaned :
      is_learned b ≡ true → filesystem_cleaned (item_of "framework_filesystem" receipt) ≡ true

pub write_file-eq :
    (id : String) (receipt : Fields) (files out : List (String × Fields))
    → write_file id receipt files ≡ some out
    → out ≡ files ++ (id, receipt) ∷ []
unfolding write_file
write_file-eq id receipt files out h = elim (Bool-cases (any (λ f. str_eq f.0 id) files)) [
  | inl e ↦
      let bad : ◌≡◌ {A = Option (List (String × Fields))} none (some out) =
        rw (write_file, e) at h in
      cc
  | inr e ↦ sym (eq_of_some (rw (write_file, e) at h))
]

is_null-text_or_null : (o : Option String) → is_null (text_or_null o) ≡ not (is_given o)
is_null-text_or_null none = refl
is_null-text_or_null (some s) = refl
