-- ===== src/Manifest/Actions.antt =====
-- What is asked of a builder during a run, as values.
use browserbench.Prelude.{ℕ, String, Bool, Option, List, [], ◌∷◌}
use browserbench.Json.{Value, Fields, Py}
use browserbench.Study.{publish}
use browserbench.Manifest.Builder.{
  set_prompt, bind_effective_baseline, register_sensitive_value, record_evidence_failure,
  bind_framework_filesystem, Baseline, ReceiptBuilder, Failure,
}
use browserbench.Manifest.Writing.{write_success, write_failure, Desk, Moment}
use browserbench.Manifest.Traces.{bind_binary_trace, write_json_trace}

-- The attributes that the engine assigns.
pub data Slot : Type 0 where
  before after claim injection evaluated traced : Slot

abbrev pub capture : Slot → Value → ReceiptBuilder → ReceiptBuilder
capture before v b = record b { before_snapshot = v }
capture after v b = record b { after_snapshot = v }
capture claim v b = record b { agent_claim = v }
capture injection v b = record b { injection_report = v }
capture evaluated v b = record b { evaluation = v }
capture traced v b = record b { trace = v }

-- One call, or assignment, of the engine.
pub data Action : Type 0 where
  prompted : String → Action
  bound : Baseline → Action
  hidden : String → Action
  captured : Slot → Value → Action
  concluded : Option String → Action
  evidence_failed : Failure → (stage : String) → Action
  filesystem_bound :
      (state : String) (inventory : Option Fields) (artifact : Py (String × ℕ))
      → Option Failure
      → Action
  traced_json : (publish : Value → Py (String × ℕ)) → Value → (kind : String) → Action
  traced_binary :
      (kind format name : String) → (content : Py (String × ℕ)) → (redacted : Bool) → Action
  succeeded : Moment → Action
  failed_with : Failure → (stage : String) → (status : Option String) → Moment → Action

module _ (sha256 : Value → String) (text_sha256 : String → String)
    (redact : (sensitive : List String) → String → String) where
  unfoldable pub act : Action → Desk → Desk
  unfolding set_prompt bind_effective_baseline register_sensitive_value record_evidence_failure
      bind_framework_filesystem write_json_trace bind_binary_trace write_success write_failure
  act (prompted s) d = record d { builder = (set_prompt s d.builder).1 }
  act (bound b) d = record d { builder = (bind_effective_baseline b d.builder).1 }
  act (hidden s) d = record d { builder = (register_sensitive_value s d.builder).1 }
  act (captured slot v) d = record d { builder = capture slot v d.builder }
  act (concluded o) d = record d { builder = record d.builder { outcome = o } }
  act (evidence_failed f stage) d = record d {
    builder = record_evidence_failure redact f stage d.builder;
  }
  act (filesystem_bound state i a e) d = record d {
    builder = (bind_framework_filesystem redact state i a e d.builder).1;
  }
  act (traced_json publish v kind) d = record d {
    builder = (write_json_trace redact publish v kind d.builder).1;
  }
  act (traced_binary kind format name content redacted) d = record d {
    builder = (bind_binary_trace kind format name content redacted d.builder).1;
  }
  act (succeeded t) d = (write_success sha256 text_sha256 redact t d).1
  act (failed_with f stage status t) d =
      (write_failure sha256 text_sha256 redact f stage status t d).1

  unfoldable pub act_all : List Action → Desk → Desk
  unfolding act
  act_all [] d = d
  act_all (a ∷ rest) d = act_all rest (act a d)
