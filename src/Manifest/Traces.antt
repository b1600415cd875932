-- ===== src/Manifest/Traces.antt =====
-- `redact_value`, and the traces that are bound to a receipt.
use browserbench.Prelude.{ℕ, String, Bool, true, false, not, ◌||◌, List, str_eq}
use browserbench.Json.{
  ◌>>=◌, pos, null, bool, int, real, str, Value, scalar, obj, arr, Fields, field, end, Items, cons,
  nil, Py, ok, raise,
}
use browserbench.Study.{text, publish}
use browserbench.Manifest.Builder.{joined, redaction_values, ReceiptBuilder}

-- Over a function `redact` for one text: redact_value, with whether it has changed a text.
unfoldable mutual
  pub redact_value : (redact : String → String) → Value → Value × Bool
  redact_value redact (scalar (str s)) = (scalar (str (redact s)), not (str_eq (redact s) s))
  redact_value redact (scalar null) = (scalar null, false)
  redact_value redact (scalar (bool b)) = (scalar (bool b), false)
  redact_value redact (scalar (int n)) = (scalar (int n), false)
  redact_value redact (scalar (real x)) = (scalar (real x), false)
  redact_value redact (obj fs) = (obj (redact_fields redact fs).0, (redact_fields redact fs).1)
  redact_value redact (arr vs) = (arr (redact_items redact vs).0, (redact_items redact vs).1)

  pub redact_fields : (redact : String → String) → Fields → Fields × Bool
  redact_fields redact end = (end, false)
  redact_fields redact (field k v fs) = (
    field k (redact_value redact v).0 (redact_fields redact fs).0,
    (redact_value redact v).1 || (redact_fields redact fs).1,
  )

  pub redact_items : (redact : String → String) → Items → Items × Bool
  redact_items redact nil = (nil, false)
  redact_items redact (cons v vs) = (
    cons (redact_value redact v).0 (redact_items redact vs).0,
    (redact_value redact v).1 || (redact_items redact vs).1,
  )

-- The metadata of a trace whose file has this name, digest and size.
unfoldable pub trace_value :
    (kind format name sha : String) → (size : ℕ) → (redacted : Bool) → Value
unfolding joined
trace_value kind format name sha size redacted = obj (
    field "kind" (text kind) (
      field "format" (text format) (
        field "path" (text (joined "artifacts/" name)) (
          field "sha256" (text sha) (
            field "size_bytes" (scalar (int (pos size))) (
              field "complete" (scalar (bool true))
                (field "redacted" (scalar (bool redacted)) end)))))))

-- self.trace = metadata, once there is one
unfoldable pub bound_trace : ReceiptBuilder → Py Value → Py Value × ReceiptBuilder
bound_trace b (raise e) = (raise e, b)
bound_trace b (ok metadata) = (ok metadata, record b { trace = metadata })

-- bind_binary_trace, of a file with this name, digest and size
unfoldable pub bind_binary_trace :
    (kind format name : String)
    → (content : Py (String × ℕ)) → (redacted : Bool) → ReceiptBuilder
    → Py Value × ReceiptBuilder
unfolding bound_trace trace_value
bind_binary_trace kind format name content redacted b =
    bound_trace b (content >>= λ read. ok (trace_value kind format name read.0 read.1 redacted))

-- write_json_trace. `publish` is the write of the artifact: its digest and size, or its exception.
unfoldable pub write_json_trace :
    (redact : (sensitive : List String) → String → String) (publish : Value → Py (String × ℕ))
    → Value
    → (kind : String) → ReceiptBuilder
    → Py Value × ReceiptBuilder
unfolding redact_value redaction_values trace_value bound_trace joined
write_json_trace redact publish v kind b =
    let sanitized = redact_value (redact (redaction_values b)) v in
    bound_trace b (
      publish sanitized.0 >>= λ written. ok (
        trace_value kind "json" (joined b.run_id (joined "." (joined kind ".json"))) written.0
          written.1 sanitized.1))
