-- ===== src/Manifest/Once.antt =====
-- Whatever is asked of a builder, in any order and however often, it writes at most one receipt, and
-- it changes no file that stands.
use browserbench.Prelude.{
  ℕ, String, ◌≡◌, refl, sym, ap, ◌∙◌, ◌⊎◌, inl, inr, Bool, true, false, not, Option, none, some,
  List, [], ◌∷◌, ◌++◌, arith, str_eq, eq_refl, any-last,
}
use browserbench.Json.{◌>>=◌, require, Value, Fields, value_error, key_error, Py, ok, raise}
use browserbench.Study.{is_run_id}
use browserbench.Manifest.Builder.{
  ensure_canonical_source, set_prompt, is_observation, bind_if, bind_effective_baseline,
  register_sensitive_value, published_value, record_evidence_failure, bind_published,
  bind_framework_filesystem, ensure_learned_filesystem_state, Baseline, ReceiptBuilder, Failure,
}
use browserbench.Manifest.Writing.{
  write_file, settle, provided, has_evidence, write_once, write_success, without_verdict,
  write_failure, Desk, Moment,
}
use browserbench.Manifest.Actions.{
  capture, act, act_all, Slot, before, after, claim, injection, evaluated, traced, Action, prompted,
  bound, hidden, captured, concluded, evidence_failed, filesystem_bound, traced_json, traced_binary,
  succeeded, failed_with,
}
use browserbench.Manifest.Traces.{bound_trace, bind_binary_trace, write_json_trace}
use browserbench.Manifest.Evidence.{write_file-eq}

module _ (sha256 : Value → String) (text_sha256 : String → String)
    (redact : (sensitive : List String) → String → String) where
  -- The builder has its run id, and the files are those from before with at most its receipt.
  pub record IsOnce (id : String) (files : List (String × Fields)) (d : Desk) : Type 0 where
    pub same_run : d.builder.run_id ≡ id
    pub at_most_one :
        (d.builder.finalized ≡ false) × (d.files ≡ files)
        ⊎ ((receipt : Fields) × (d.files ≡ files ++ (id, receipt) ∷ []))

  -- What only changes other attributes of the builder.
  IsOnce-builder :
      (id : String) (files : List (String × Fields)) (d : Desk) (b : ReceiptBuilder)
      → b.run_id ≡ d.builder.run_id
      → b.finalized ≡ d.builder.finalized
      → IsOnce id files d
      → IsOnce id files (record d { builder = b })
  IsOnce-builder id files d b e f h = record {
    same_run = e ∙ h.same_run;
    at_most_one = elim h.at_most_one [
      | inl (n, k) ↦ inl (f ∙ n, k)
      | inr (receipt, k) ↦ inr (receipt, k)
    ];
  }

  -- A name that stands is refused.
  write_file-taken :
      (id : String) (receipt written : Fields) (files : List (String × Fields))
      → write_file id receipt (files ++ (id, written) ∷ []) ≡ none
  unfolding write_file
  write_file-taken id receipt written files =
      ground (arith, any-last (λ f. str_eq f.0 id) files (id, written), eq_refl id)

  linked-IsOnce :
      (id : String) (files out : List (String × Fields)) (receipt : Fields) (finalized : Bool)
      (d : Desk)
      → write_file d.builder.run_id receipt d.files ≡ some out
      → IsOnce id files d
      → IsOnce id files
          (record { builder = record d.builder { finalized = finalized }; files = out })
  linked-IsOnce id files out receipt finalized d w h = record {
    same_run = h.same_run;
    at_most_one = elim h.at_most_one [
      | inl (_, k) ↦ inr (
        receipt,
        write_file-eq d.builder.run_id receipt d.files out w
            ∙ ap (λ l. l ++ (d.builder.run_id, receipt) ∷ []) k
            ∙ ap (λ i. files ++ (i, receipt) ∷ []) h.same_run,
      )
      | inr (written, k) ↦
          let full =
            sym w
            ∙ ap (λ l. write_file d.builder.run_id receipt l) k
            ∙ ap (λ i. write_file i receipt (files ++ (id, written) ∷ [])) h.same_run
            ∙ write_file-taken id receipt written files in
          cc
    ];
  }

  settle-IsOnce :
      (id : String) (files : List (String × Fields)) (receipt : Fields) (finalized safe : Bool)
      (disk unlinked : Py (Unit {0})) (linked : Option (List (String × Fields))) (d : Desk)
      → write_file d.builder.run_id receipt d.files ≡ linked
      → IsOnce id files d
      → IsOnce id files (settle finalized safe disk unlinked linked d).1
  unfolding settle
  settle-IsOnce id files receipt true safe disk unlinked linked d w h = h
  settle-IsOnce id files receipt false false disk unlinked linked d w h = h
  settle-IsOnce id files receipt false true (raise e) unlinked linked d w h = h
  settle-IsOnce id files receipt false true (ok u) unlinked none d w h = h
  settle-IsOnce id files receipt false true (ok u) (raise e) (some out) d w h =
      linked-IsOnce id files out receipt d.builder.finalized d w h
  settle-IsOnce id files receipt false true (ok u) (ok u') (some out) d w h =
      linked-IsOnce id files out receipt true d w h

  provided-IsOnce :
      (id : String) (files : List (String × Fields)) (check : Py (Unit {0})) (d : Desk)
      (next : Py (Unit {0}) × Desk)
      → IsOnce id files d
      → IsOnce id files next.1
      → IsOnce id files (provided check d next).1
  unfolding provided
  provided-IsOnce id files (raise e) d next h k = h
  provided-IsOnce id files (ok u) d next h k = k

  write_once-IsOnce :
      (id : String) (files : List (String × Fields)) (receipt : Fields) (t : Moment) (d : Desk)
      → IsOnce id files d
      → IsOnce id files (write_once sha256 text_sha256 redact receipt t d).1
  unfolding write_once
  write_once-IsOnce id files receipt t d h =
      settle-IsOnce id files receipt d.builder.finalized (is_run_id d.builder.run_id) t.disk
        t.unlinked (write_file d.builder.run_id receipt d.files) d refl h

  -- An operation keeps the run id and does not undo the end.
  abbrev pub IsQuiet : (ReceiptBuilder → ReceiptBuilder) → Type 0
  IsQuiet f = (b : ReceiptBuilder) → ((f b).run_id ≡ b.run_id) × ((f b).finalized ≡ b.finalized)

  set_prompt-IsQuiet : (s : String) → IsQuiet (λ b. (set_prompt s b).1)
  unfolding set_prompt
  set_prompt-IsQuiet s b = ground arith

  bind_if-IsQuiet : (bound valid : Bool) (o : Baseline) → IsQuiet (λ b. (bind_if bound valid o b).1)
  unfolding bind_if
  bind_if-IsQuiet true valid o b = (refl, refl)
  bind_if-IsQuiet false false o b = (refl, refl)
  bind_if-IsQuiet false true o b = (refl, refl)

  bind_effective_baseline-IsQuiet : (o : Baseline) → IsQuiet (λ b. (bind_effective_baseline o b).1)
  unfolding bind_effective_baseline
  bind_effective_baseline-IsQuiet o b =
      bind_if-IsQuiet b.effective_baseline_bound (is_observation b.baseline o) o b

  bind_published-IsQuiet :
      (state : String) (v : Py Value) (e : Option Failure)
      → IsQuiet (λ b. (bind_published redact state v e b).1)
  unfolding bind_published
  bind_published-IsQuiet state (raise x) e b = (refl, refl)
  bind_published-IsQuiet state (ok v) e b = (refl, refl)

  register_sensitive_value-IsQuiet : (s : String) → IsQuiet (λ b. (register_sensitive_value s b).1)
  unfolding register_sensitive_value
  register_sensitive_value-IsQuiet s b = ground arith

  bind_framework_filesystem-IsQuiet :
      (state : String) (i : Option Fields) (a : Py (String × ℕ)) (e : Option Failure)
      → IsQuiet (λ b. (bind_framework_filesystem redact state i a e b).1)
  unfolding bind_framework_filesystem
  bind_framework_filesystem-IsQuiet state i a e b =
      ground (arith, bind_published-IsQuiet state (published_value b.run_id i a) e b)

  bound_trace-IsQuiet :
      (b : ReceiptBuilder) (m : Py Value)
      → ((bound_trace b m).1.run_id ≡ b.run_id) × ((bound_trace b m).1.finalized ≡ b.finalized)
  unfolding bound_trace
  bound_trace-IsQuiet b (raise e) = (refl, refl)
  bound_trace-IsQuiet b (ok v) = (refl, refl)

  capture-IsQuiet : (slot : Slot) (v : Value) → IsQuiet (capture slot v)
  capture-IsQuiet before v b = (refl, refl)
  capture-IsQuiet after v b = (refl, refl)
  capture-IsQuiet claim v b = (refl, refl)
  capture-IsQuiet injection v b = (refl, refl)
  capture-IsQuiet evaluated v b = (refl, refl)
  capture-IsQuiet traced v b = (refl, refl)

  pub without_verdict-IsQuiet : IsQuiet (without_verdict sha256 text_sha256 redact)
  unfolding without_verdict ensure_learned_filesystem_state
  without_verdict-IsQuiet b =
      ground (arith, bind_framework_filesystem-IsQuiet "not_created" none (raise key_error) none b)

  quiet :
      (id : String) (files : List (String × Fields)) (f : ReceiptBuilder → ReceiptBuilder)
      (d : Desk)
      → IsQuiet f
      → IsOnce id files d
      → IsOnce id files (record d { builder = f d.builder })
  quiet id files f d q h = IsOnce-builder id files d (f d.builder) (q d.builder).0 (q d.builder).1 h

  act-IsOnce :
      (id : String) (files : List (String × Fields)) (a : Action) (d : Desk)
      → IsOnce id files d
      → IsOnce id files (act sha256 text_sha256 redact a d)
  unfolding act write_success write_failure
  act-IsOnce id files (prompted s) d h =
      quiet id files (λ b. (set_prompt s b).1) d (set_prompt-IsQuiet s) h
  act-IsOnce id files (bound o) d h =
      quiet id files (λ b. (bind_effective_baseline o b).1) d (bind_effective_baseline-IsQuiet o) h
  act-IsOnce id files (hidden s) d h =
      quiet id files (λ b. (register_sensitive_value s b).1) d (register_sensitive_value-IsQuiet s)
        h
  act-IsOnce id files (captured slot v) d h =
      quiet id files (capture slot v) d (capture-IsQuiet slot v) h
  act-IsOnce id files (concluded o) d h =
      quiet id files (λ b. record b { outcome = o }) d (λ b. (refl, refl)) h
  act-IsOnce id files (evidence_failed f stage) d h =
      quiet id files (record_evidence_failure redact f stage) d
        (λ b. unfold record_evidence_failure in (refl, refl)) h
  act-IsOnce id files (filesystem_bound state i a e) d h =
      quiet id files (λ b. (bind_framework_filesystem redact state i a e b).1) d
        (bind_framework_filesystem-IsQuiet state i a e) h
  act-IsOnce id files (traced_json artifact v kind) d h =
      quiet id files (λ b. (write_json_trace redact artifact v kind b).1) d
        (λ b. unfold write_json_trace in bound_trace-IsQuiet b _) h
  act-IsOnce id files (traced_binary kind format name content redacted) d h =
      quiet id files (λ b. (bind_binary_trace kind format name content redacted b).1) d
        (λ b. unfold bind_binary_trace in bound_trace-IsQuiet b _) h
  act-IsOnce id files (succeeded t) d h =
      provided-IsOnce id files
        (ensure_canonical_source d.builder >>= λ _. require (has_evidence d.builder) value_error) d
        _ h (write_once-IsOnce id files _ t d h)
  act-IsOnce id files (failed_with f stage status t) d h =
      let b = without_verdict sha256 text_sha256 redact d.builder in
      provided-IsOnce id files (require (not (str_eq stage "")) value_error) d _ h (
        write_once-IsOnce id files _ t (record d { builder = b })
          (quiet id files (without_verdict sha256 text_sha256 redact) d without_verdict-IsQuiet h))

  act_all-keeps :
      (id : String) (files : List (String × Fields)) (actions : List Action) (d : Desk)
      → IsOnce id files d
      → IsOnce id files (act_all sha256 text_sha256 redact actions d)
  unfolding act_all
  act_all-keeps id files [] d h = h
  act_all-keeps id files (a ∷ rest) d h =
      act_all-keeps id files rest (act sha256 text_sha256 redact a d) (act-IsOnce id files a d h)

  -- Any calls on a builder that has written nothing leave the files as they were or add its receipt.
  pub act_all-IsOnce :
      (actions : List Action) (d : Desk)
      → d.builder.finalized ≡ false
      → IsOnce d.builder.run_id d.files (act_all sha256 text_sha256 redact actions d)
  act_all-IsOnce actions d n =
      act_all-keeps d.builder.run_id d.files actions d
        (record { same_run = refl; at_most_one = inl (n, refl) })
