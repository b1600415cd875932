-- ===== src/Tests/Audits.antt =====
-- Runs of the validator's derivation of validate_manifest.py.
use browserbench.Prelude.{refl, false, none}
use browserbench.Claim.{sent}
use browserbench.Tasks.{msg_send_01}
use browserbench.Audit.{expected_evaluation}
use browserbench.Audit.Confirms.{passed-IsConfirmed, IsConfirmed}
use browserbench.Tests.Samples.{before, after, told}
use browserbench.Tests.Verdicts.{sent_evaluation, sent_returns, send_class, seen_report}

passed-IsConfirmed_example :
    IsConfirmed sent_evaluation
      (expected_evaluation msg_send_01 before after (told sent) seen_report)
passed-IsConfirmed_example =
    passed-IsConfirmed msg_send_01 before after (told sent) false none sent_evaluation seen_report
      sent_returns send_class refl
