-- ===== src/Manifest/Refused.antt =====
-- What the receipt of a failure holds, and that it can be written.
use browserbench.Prelude.{
  String, ◌≡◌, refl, ap, ◌∙◌, Bool, true, false, not, Option, some, List, [], ◌∷◌, ◌++◌, arith,
  str_eq, any,
}
use browserbench.Json.{require, is_null, null, Value, scalar, Fields, value_error, Py, ok, item_of}
use browserbench.Study.{is_run_id}
use browserbench.Manifest.Builder.{
  is_learned, published_value, filesystem_value, bind_published, bind_framework_filesystem,
  ensure_learned_filesystem_state, ReceiptBuilder, Failure,
}
use browserbench.Manifest.Writing.{
  write_file, settle, provided, receipt_of, write_once, without_verdict, failure_receipt,
  write_failure, Desk, Moment,
}
use browserbench.Manifest.Evidence.{Holds}
use browserbench.Manifest.Once.{without_verdict-IsQuiet}

-- The receipt of a failure: it has no verdict, and tells of the filesystem of a learned baseline.
pub record IsFailure (b : ReceiptBuilder) (receipt : Fields) : Type 0 where
  pub no_evaluation : item_of "evaluation" receipt ≡ scalar null
  pub no_outcome : item_of "outcome" receipt ≡ scalar null
  pub filesystem : is_learned b ≡ true → Holds receipt "framework_filesystem"

settle-free :
    (out : List (String × Fields)) (finalized safe : Bool) (disk unlinked : Py (Unit {0}))
    (linked : Option (List (String × Fields))) (d : Desk)
    → finalized ≡ false
    → safe ≡ true
    → disk ≡ ok tt
    → unlinked ≡ ok tt
    → linked ≡ some out
    → settle finalized safe disk unlinked linked d
      ≡ (ok tt, record { builder = record d.builder { finalized = true }; files = out })
unfolding settle
settle-free out finalized safe disk unlinked linked d a b c e f = rw (a, b, c, e, f) refl

provided-passed :
    (check : Py (Unit {0})) (d : Desk) (next : Py (Unit {0}) × Desk)
    → check ≡ ok tt
    → provided check d next ≡ next
unfolding provided
provided-passed check d next h = rw h refl

write_file-free :
    (id : String) (receipt : Fields) (files : List (String × Fields))
    → any (λ file. str_eq file.0 id) files ≡ false
    → write_file id receipt files ≡ some (files ++ (id, receipt) ∷ [])
unfolding write_file
write_file-free id receipt files h = rw h refl

module _ (sha256 : Value → String) (text_sha256 : String → String)
    (redact : (sensitive : List String) → String → String) where
  learned-bound :
      (b : ReceiptBuilder)
      → is_learned b ≡ true
      → is_null (ensure_learned_filesystem_state redact b).framework_filesystem ≡ false
  unfolding ensure_learned_filesystem_state bind_framework_filesystem published_value bind_published
      filesystem_value
  learned-bound b h = ground (arith, h)

  write_once-free :
      (receipt : Fields) (t : Moment) (d : Desk)
      → d.builder.finalized ≡ false
      → is_run_id d.builder.run_id ≡ true
      → any (λ file. str_eq file.0 d.builder.run_id) d.files ≡ false
      → t.disk ≡ ok tt
      → t.unlinked ≡ ok tt
      → write_once sha256 text_sha256 redact receipt t d ≡ (
        ok tt,
        record {
          builder = record d.builder { finalized = true };
          files = d.files ++ (d.builder.run_id, receipt) ∷ [];
        },
      )
  unfolding write_once
  write_once-free receipt t d n r u k l =
      settle-free _ d.builder.finalized (is_run_id d.builder.run_id) t.disk t.unlinked _ d n r k l
        (write_file-free d.builder.run_id receipt d.files u)

  -- A write_failure with a stage, of a builder that has not written, whose name is free and whose disk
  -- works, returns: it has added one receipt with no verdict, which tells of the filesystem of a learned
  -- baseline.
  pub write_failure-IsFailure :
      (f : Failure) (stage : String) (status : Option String) (t : Moment) (d : Desk)
      → str_eq stage "" ≡ false
      → d.builder.finalized ≡ false
      → is_run_id d.builder.run_id ≡ true
      → any (λ file. str_eq file.0 d.builder.run_id) d.files ≡ false
      → t.disk ≡ ok tt
      → t.unlinked ≡ ok tt
      → let done = write_failure sha256 text_sha256 redact f stage status t d in
        (receipt : Fields) × (done.0 ≡ ok tt)
        × (done.1.files ≡ d.files ++ (d.builder.run_id, receipt) ∷ [])
        × IsFailure d.builder receipt
  unfolding write_failure provided
  write_failure-IsFailure f stage status t d s n r u k l =
      let b = without_verdict sha256 text_sha256 redact d.builder in
      let (same_run, unended) = without_verdict-IsQuiet sha256 text_sha256 redact d.builder in
      let receipt = failure_receipt sha256 text_sha256 redact f stage status t b in
      let started = provided-passed _ d _ (ap (λ x. require (not x) value_error) s) in
      let done =
        started
        ∙ write_once-free receipt t (record d { builder = b }) (unended ∙ n)
            (ap is_run_id same_run ∙ r)
            (ap (λ i. any (λ file. str_eq file.0 i) d.files) same_run ∙ u) k l in
      (
        receipt,
        ap (λ x. x.0) done,
        ap (λ x. x.1.files) done ∙ ap (λ i. d.files ++ (i, receipt) ∷ []) same_run,
        record {
          no_evaluation = unfold failure_receipt receipt_of item_of without_verdict in refl;
          no_outcome = unfold failure_receipt receipt_of item_of without_verdict in refl;
          filesystem = λ h.
              unfold failure_receipt receipt_of item_of without_verdict in
              learned-bound d.builder h;
        },
      )
