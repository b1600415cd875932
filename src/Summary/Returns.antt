-- ===== src/Summary/Returns.antt =====
-- Where no call raises, a pair that may be published is published.
use browserbench.Prelude.{
  String, ◌≡◌, refl, sym, ap, ◌∙◌, inl, inr, Bool, true, false, not, ◌&&◌, Option, none, some, List,
  arith, eq_iff, Bool-cases,
}
use browserbench.Json.{
  ◌>>=◌, eq_of_ok, require, >>=-eq-ok, Value, Fields, PyError, receipt_error, ok, raise,
}
use browserbench.Manifest.{is_given}
use browserbench.Summary.Binding.{
  csv_summary_hash, csv_summary_hash_file, markdown_summary_hash, summary_hash,
  csv_summary_hash_file-eq,
}
use browserbench.Summary.Pair.{
  move_to_backup, replace_file, drop_backup, is_the, end_of, calls_of_try, handled, fresh_target,
  accepted_pair_sha256, perform_call, try_calls, publishable, write_summaries, Place, Node,
  regular_file, Listing, listed, Call,
}
use browserbench.Summary.Atomic.{standing, node_of}

-- A machine that fails no call.
abbrev pub silent : Call → Option PyError
silent call = none

require-bound :
    (test : String → Bool) (found expected : String)
    → (require (test found) receipt_error >>= λ _. ok found) ≡ ok expected
    → test expected ≡ true
require-bound test found expected h = elim (Bool-cases (test found)) [
  | inl e ↦ let same : found ≡ expected = eq_of_ok (rw e at h) in ap test (sym same) ∙ e
  | inr e ↦ let bad : raise receipt_error ≡ ok expected = rw e at h in cc
]

module _ (column : String → Option (List (Option String))) (declared : String → List String) where
  accepted-bound :
      (expected c m : String) (b d : Option Node) (i j : Listing) (o q : Option String)
      → csv_summary_hash_file (column c) ≡ o
      → markdown_summary_hash (declared m) ≡ q
      → (is_the expected o && is_the expected q) ≡ true
      → is_the expected (
          accepted_pair_sha256 column declared (record {
            csv = record { place = record { file = some (regular_file c); backup = b }; entry = i };
            markdown = record {
              place = record { file = some (regular_file m); backup = d };
              entry = j;
            };
          }))
        ≡ true
  unfolding accepted_pair_sha256
  accepted-bound expected c m b d i j none q e f h = cc
  accepted-bound expected c m b d i j (some s) none e f h = ground arith
  accepted-bound expected c m b d i j (some s) (some t) e f h =
      rw (e, f) (ground (arith, h, eq_iff s expected, eq_iff t expected, eq_iff s t))

  publishable-bound :
      (sha256 : Value → String) (same_target : Bool) (document : Fields) (c m expected : String)
      (csv markdown : Place)
      → publishable column declared sha256 same_target document c m csv markdown ≡ ok expected
      → (is_the expected (csv_summary_hash (column c))
          && is_the expected (markdown_summary_hash (declared m)))
        ≡ true
  unfolding publishable
  publishable-bound sha256 same_target document c m expected csv markdown h =
      let (_, _, h1) = >>=-eq-ok (require (not same_target) receipt_error) _ h in
      let (_, _, h2) =
        >>=-eq-ok (require (elim csv.backup [ none ↦ true | some _ ↦ false ]) receipt_error) _ h1 in
      let (_, _, h3) =
        >>=-eq-ok (require (elim markdown.backup [ none ↦ true | some _ ↦ false ]) receipt_error) _
          h2 in
      let (found, _, h4) = >>=-eq-ok (summary_hash sha256 document) _ h3 in
      require-bound
        (λ e.
          is_the e (csv_summary_hash (column c)) && is_the e (markdown_summary_hash (declared m)))
        found expected h4

  published :
      (expected c m : String) (x y : Option String)
      → (is_the expected (csv_summary_hash_file (column c))
          && is_the expected (markdown_summary_hash (declared m)))
        ≡ true
      → handled (
          try_calls column declared silent expected c m calls_of_try (record {
            csv = fresh_target (standing (node_of x));
            markdown = fresh_target (standing (node_of y));
          }))
        ≡ (
          ok tt,
          record {
            csv = record { place = standing (some (regular_file c)); entry = listed (is_given x) };
            markdown = record {
              place = standing (some (regular_file m));
              entry = listed (is_given y);
            };
          },
        )
  unfolding handled try_calls end_of perform_call move_to_backup replace_file drop_backup
  published expected c m none none h =
      rw (accepted-bound expected c m none none (listed false) (listed false) _ _ refl refl h) refl
  published expected c m none (some t) h =
      rw
        (accepted-bound expected c m none (some (regular_file t)) (listed false) (listed true) _ _
          refl refl h)
        refl
  published expected c m (some s) none h =
      rw
        (accepted-bound expected c m (some (regular_file s)) none (listed true) (listed false) _ _
          refl refl h)
        refl
  published expected c m (some s) (some t) h =
      rw
        (accepted-bound expected c m (some (regular_file s)) (some (regular_file t)) (listed true)
          (listed true) _ _ refl refl h)
        refl

  -- Two summaries that may be published, over targets that are absent or files, are published where no
  -- call raises.
  pub write_summaries-returns :
      (sha256 : Value → String) (same_target : Bool) (document : Fields) (c m expected : String)
      (x y : Option String)
      → publishable column declared sha256 same_target document c m
          (standing (node_of x))
          (standing (node_of y))
        ≡ ok expected
      → write_summaries column declared sha256 silent same_target document c m
          (standing (node_of x))
          (standing (node_of y))
        ≡ (ok tt, standing (some (regular_file c)), standing (some (regular_file m)))
  unfolding write_summaries
  write_summaries-returns sha256 same_target document c m expected x y h =
      let bound =
        publishable-bound sha256 same_target document c m expected (standing (node_of x))
          (standing (node_of y)) h in
      let done = published expected c m x y (
        ap (λ o. is_the expected o && is_the expected (markdown_summary_hash (declared m)))
          (csv_summary_hash_file-eq (column c))
        ∙ bound) in
      rw (write_summaries, h) (ap (λ r. (r.0, r.1.csv.place, r.1.markdown.place)) done)
