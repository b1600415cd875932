-- ===== src/Inject/Upstream.antt =====
-- What the proxy of inject.py makes of an upstream answer: `_parse_json_object`,
-- `_committed_identity` and the classification in `_forward`. `loads` stands for `json.loads` of
-- bytes, where `none` is one of the two errors that the code catches.
use browserbench.Prelude.{
  ℕ, String, Bool, true, false, ◌&&◌, Option, none, some, List, str_eq, ltb, leb, if◌then◌else◌,
}
use Prim.Native.String.{◌++◌}
use browserbench.Json.{lookup, or_null, is_true, ℤ, int, str, Value, scalar, obj, Fields, end}

abbrev pub Bytes : Type 0
Bytes = List ℕ

abbrev pub BytesDecoder : Type 0
BytesDecoder = Bytes → Option Value

abbrev pub as_object : Option Value → Option Fields
as_object (some (obj fs)) = some fs
as_object _ = none

unfoldable pub parse_json_object : BytesDecoder → Bytes → Option Fields
parse_json_object loads body = as_object (loads body)

-- object.get(key, payload.get(other)), where a key that is there counts even if its value is null
abbrev get_or : String → Fields → String → Fields → Value
get_or key object other payload = elim (lookup key object) [
  | some v ↦ v
  | none ↦ or_null (lookup other payload)
]

-- The int or text that identifies a message.
pub data MessageId : Type 0 where
  numbered : ℤ → MessageId
  named : String → MessageId

abbrev pub message_id_of : Value → Option MessageId
message_id_of (scalar (int n)) = some (numbered n)
message_id_of (scalar (str s)) = if str_eq s "" then none else some (named s)
message_id_of _ = none

abbrev pub uid_of : Value → Option String
uid_of (scalar (str s)) = if str_eq s "" then none else some s
uid_of _ = none

abbrev message_object : Value → Fields
message_object (obj fs) = fs
message_object _ = end

unfoldable pub committed_identity : Option Fields → Option MessageId × Option String
unfolding lookup
committed_identity none = (none, none)
committed_identity (some payload) =
    let object = message_object (or_null (lookup "message" payload)) in
    (
      message_id_of (get_or "id" object "message_id" payload),
      uid_of (get_or "send_uid" object "send_uid" payload),
    )

pub data Classification : Type 0 where
  committed duplicate_rejected rejected network_error : Classification

-- payload is not None and payload.get(key) is True
unfoldable pub states : String → Option Fields → Bool
unfolding lookup
states key none = false
states key (some payload) = is_true (or_null (lookup key payload))

abbrev pub is_some {ℓ} : {A : Type ℓ} → Option A → Bool
is_some none = false
is_some (some a) = true

unfoldable pub classify : (status : ℕ) → Option Fields → Classification
unfolding states committed_identity
classify status payload =
    if states "duplicate_rejected" payload
    then duplicate_rejected
    else if leb 200 status
        && ltb status 300
        && states "committed" payload
        && is_some (committed_identity payload).0
        && is_some (committed_identity payload).1
    then committed
    else rejected

pub record UpstreamResult : Type 0 where
  pub status : Option ℕ
  pub body : Bytes
  pub content_type : Option String
  pub completed_at : ℕ
  pub classification : Classification
  pub committed_message_id : Option MessageId
  pub committed_send_uid : Option String
  pub error : Option String

-- What the HTTP client gives: a whole response, or a RequestError with its text.
pub data Answer : Type 0 where
  responded : (status : ℕ) (body : Bytes) (content_type : Option String) → Answer
  request_error : String → Answer

-- `_forward` from the client's answer on; `encode` is the UTF-8 of a text, `now` the clock.
unfoldable pub forward_result :
    BytesDecoder → (encode : String → Bytes) → (now : ℕ) → Answer → UpstreamResult
unfolding classify parse_json_object
forward_result loads encode now (request_error e) = record {
  status = none;
  body = encode ("upstream network error: " ++ e);
  content_type = some "text/plain; charset=utf-8";
  completed_at = now;
  classification = network_error;
  committed_message_id = none;
  committed_send_uid = none;
  error = some e;
}
forward_result loads encode now (responded status body content_type) =
    let payload = parse_json_object loads body in
    let claims = states "committed" payload in
    let identity = committed_identity payload in
    record {
      status = some status;
      body = body;
      content_type = content_type;
      completed_at = now;
      classification = classify status payload;
      committed_message_id = if claims then identity.0 else none;
      committed_send_uid = if claims then identity.1 else none;
      error = none;
    }

abbrev pub is_verified_commit : UpstreamResult → Bool
is_verified_commit u = elim u.classification [ committed ↦ true | _ ↦ false ]
