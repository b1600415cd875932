-- ===== src/Tests/Receipts.antt =====
-- A receipt of one run: evidence gathered, a success and a failure written.
use browserbench.Prelude.{String, ◌≡◌, refl, true, false, none, some, List, [], ◌∷◌}
use browserbench.Json.{pos, null, int, scalar, obj, Fields, end, runtime_error, ok, raise}
use browserbench.Study.{is_name, SourceProvenance}
use browserbench.Tests.Studies.{digest_a, digest}
use browserbench.Manifest.{
  Baseline, ReceiptBuilder, Failure, write_failure, Desk, Moment, act_all, Action, succeeded,
  failed_with, act_all-IsOnce, IsOnce, write_failure-IsFailure, IsFailure,
}

abbrev exact : Baseline
exact = record {
  name = "playwright-exact";
  framework_name = "playwright";
  framework_version = some "1.40.0";
  provider = none;
  model = some "deterministic-playwright";
  parameters = obj end;
  modality_policy = obj end;
  capability_policy = obj end;
}

abbrev provenance : SourceProvenance
provenance = record {
  git_commit = some "aaaaaaaaaaaaaaaaaaaaaaaaaaaaaaaaaaaaaaaa";
  git_dirty = false;
  source_tree_sha256 = digest_a;
}

-- A builder that has nothing but its task.
abbrev started : ReceiptBuilder
started = record {
  run_id = "run-1";
  freeze = "0.1.0";
  baseline = exact;
  configured_steps = scalar null;
  configured_wall_s = scalar (int (pos 90));
  canonical_requested = true;
  task_definition = obj end;
  prompt_text = none;
  release = "0.1.0";
  parser_version = "btb-claim-v1";
  evaluator_version = "btb-full-state-v1";
  validator_version = "btb-manifest-validator-v2";
  source = provenance;
  started_at = "t";
  before_snapshot = scalar null;
  after_snapshot = scalar null;
  agent_claim = scalar null;
  injection_report = scalar null;
  evaluation = scalar null;
  outcome = none;
  trace = scalar null;
  framework_filesystem = scalar null;
  evidence_failures = [];
  finalized = false;
  sensitive_values = [];
  effective_baseline_bound = false;
}

abbrev fresh : Desk
fresh = record { builder = started; files = [] }

abbrev now : Moment
now = record { ended_at = "u"; duration_s = pos 3; disk = ok tt; unlinked = ok tt }

abbrev broken : Failure
broken = record { type = "TimeoutError"; message = "late"; is_timeout = true }

abbrev unchanged : List String → String → String
unchanged sensitive s = s

abbrev text_digest : String → String
text_digest s = digest_a

-- The same once everything is gathered.
abbrev gathered : Desk
gathered = record fresh {
  builder = record started {
    prompt_text = some "p";
    before_snapshot = obj end;
    after_snapshot = obj end;
    agent_claim = obj end;
    injection_report = obj end;
    trace = obj end;
    evaluation = obj end;
    outcome = some "success";
  };
}

-- Two attempts to write, the first of which raises once the file is linked.
abbrev stumbling : List Action
stumbling =
    succeeded now
    ∷ failed_with broken "run" none (record now { unlinked = raise runtime_error })
    ∷ failed_with broken "run" none now
    ∷ []

act_all-IsOnce_example :
    IsOnce digest text_digest unchanged "run-1" []
      (act_all digest text_digest unchanged stumbling fresh)
act_all-IsOnce_example = act_all-IsOnce digest text_digest unchanged stumbling fresh refl

write_failure-IsFailure_example :
    (receipt : Fields) × ((write_failure digest text_digest unchanged broken "run" none now fresh).0
      ≡ ok tt)
    × ((write_failure digest text_digest unchanged broken "run" none now fresh).1.files
        ≡ ("run-1", receipt) ∷ [])
    × IsFailure started receipt
unfolding is_name
write_failure-IsFailure_example =
    write_failure-IsFailure digest text_digest unchanged broken "run" none now fresh refl refl refl
      refl refl refl
