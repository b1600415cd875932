-- ===== src/Inject/State.antt =====
-- The state of an `InjectProxy` of inject.py and the operations that hold its lock.
use browserbench.Prelude.{
  ℕ, zero, suc, String, Bool, true, false, ◌&&◌, Option, none, some, List, [], ◌∷◌, ◌++◌, ◌==◌,
  if◌then◌else◌,
}
use browserbench.Json.{lookup, or_null, as_int, ℤ, pos, negsuc, null, str, Value, scalar, Fields}
use browserbench.Inject.Upstream.{
  Bytes, BytesDecoder, parse_json_object, UpstreamResult, MessageId, Classification, network_error,
}

pub data Treatment : Type 0 where
  no_treatment response_forwarded downstream_disconnected_before_response : Treatment
  connection_dropped_after_commit : Treatment

-- The dict of `_new_request`.
pub record Request : Type 0 where
  pub sequence : ℕ
  pub method : String
  pub path : String
  pub started_at : ℕ

-- The dict of `_new_attempt`; the method, path and start are those of its request.
pub record Attempt : Type 0 where
  pub sequence : ℕ
  pub request : Request
  pub committed_sequence : Option ℕ

pub record AttemptReceipt : Type 0 where
  pub attempt : Attempt
  pub request_body_sha256 : String
  pub request_draft_id : Option ℤ
  pub request_send_uid : Option String
  pub upstream_completed_at : Option ℕ
  pub upstream_status : Option ℕ
  pub upstream_classification : Classification
  pub committed_message_id : Option MessageId
  pub committed_send_uid : Option String
  pub treatment : Treatment
  pub finished_at : ℕ
  pub upstream_error : Option String
  pub downstream_close_error : Option String

pub record RequestReceipt : Type 0 where
  pub request : Request
  pub upstream_completed_at : Option ℕ
  pub upstream_status : Option ℕ
  pub treatment : Treatment
  pub finished_at : ℕ

pub record Proxy : Type 0 where
  pub inject_send : Bool
  pub inject_after_committed : ℕ
  pub send_path : String
  pub in_flight : ℤ
  pub next_sequence : ℕ
  pub next_request_sequence : ℕ
  pub committed_count : ℕ
  pub send_forwards : ℕ
  pub attempts : List AttemptReceipt
  pub requests : List RequestReceipt
  pub started : Bool
  pub closed : Bool

-- The counters of `InjectProxy.__init__`; `none` is the ValueError of a count below 1.
unfoldable pub new_proxy :
    (inject_send : Bool) (inject_after_committed : ℕ) (send_path : String) → Option Proxy
new_proxy inject_send zero send_path = none
new_proxy inject_send (suc n) send_path = some (record {
  inject_send = inject_send;
  inject_after_committed = suc n;
  send_path = send_path;
  in_flight = pos 0;
  next_sequence = 1;
  next_request_sequence = 1;
  committed_count = 0;
  send_forwards = 0;
  attempts = [];
  requests = [];
  started = false;
  closed = false;
})

pub data StartError : Type 0 where
  already_closed already_started : StartError

-- `start`: the error, if it raises, and the state.
unfoldable pub start : Proxy → Option StartError × Proxy
start p =
    if p.closed
    then (some already_closed, p)
    else if p.started
    then (some already_started, p)
    else (none, record p { started = true })

-- `shutdown`: whether the server has to be stopped, and the state.
unfoldable pub shutdown : Proxy → Bool × Proxy
shutdown p = if p.closed then (false, p) else (true, record p { closed = true })

abbrev pub one_more : ℤ → ℤ
one_more (pos n) = pos (suc n)
one_more (negsuc zero) = pos 0
one_more (negsuc (suc n)) = negsuc n

abbrev pub one_less : ℤ → ℤ
one_less (pos zero) = negsuc 0
one_less (pos (suc n)) = pos n
one_less (negsuc n) = negsuc (suc n)

unfoldable pub request_accepted : Proxy → Proxy
request_accepted p = record p { in_flight = one_more p.in_flight }

abbrev pub is_negative : ℤ → Bool
is_negative (pos n) = false
is_negative (negsuc n) = true

-- `_request_finished`: whether it raises the underflow error, and the state.
unfoldable pub request_finished : Proxy → Bool × Proxy
request_finished p =
    (is_negative (one_less p.in_flight), record p { in_flight = one_less p.in_flight })

-- The predicate that `wait_for_quiescence` waits for.
unfoldable pub is_quiescent : Proxy → Bool
is_quiescent p = elim p.in_flight [ pos zero ↦ true | _ ↦ false ]

unfoldable pub new_request : (method path : String) (now : ℕ) → Proxy → Request × Proxy
new_request method path now p = (
  record { sequence = p.next_request_sequence; method = method; path = path; started_at = now },
  record p { next_request_sequence = suc p.next_request_sequence },
)

unfoldable pub new_attempt : Request → Proxy → Attempt × Proxy
new_attempt request p = (
  record { sequence = p.next_sequence; request = request; committed_sequence = none },
  record p { next_sequence = suc p.next_sequence },
)

unfoldable pub register_verified_commit : Proxy → ℕ × Proxy
register_verified_commit p =
    (suc p.committed_count, record p { committed_count = suc p.committed_count })

unfoldable pub should_inject : Proxy → (committed_sequence : ℕ) → Bool
should_inject p n = p.inject_send && n == p.inject_after_committed

-- The first statement of `_forward`.
unfoldable pub count_forward : (is_send : Bool) → Proxy → Proxy
count_forward is_send p = if is_send then record p { send_forwards = suc p.send_forwards } else p

abbrev pub completed : Option UpstreamResult → Option ℕ
completed none = none
completed (some u) = some u.completed_at

abbrev pub answered_status : Option UpstreamResult → Option ℕ
answered_status none = none
answered_status (some u) = u.status

abbrev pub classified : Option UpstreamResult → Classification
classified none = network_error
classified (some u) = u.classification

unfoldable pub field_of : String → Option Fields → Value
unfolding lookup
field_of key none = scalar null
field_of key (some fs) = or_null (lookup key fs)

abbrev pub text_of : Value → Option String
text_of (scalar (str s)) = some s
text_of _ = none

-- The receipt of `_record_attempt`; `sha256` gives the hexadecimal digest.
unfoldable pub attempt_receipt :
    BytesDecoder
    → (sha256 : Bytes → String) → (now : ℕ) → Attempt
    → (body : Bytes) → Option UpstreamResult
    → Treatment
    → (downstream_close_error : Option String) → AttemptReceipt
unfolding parse_json_object field_of
attempt_receipt loads sha256 now attempt body upstream treatment close_error =
    let payload = parse_json_object loads body in
    record {
      attempt = attempt;
      request_body_sha256 = sha256 body;
      request_draft_id = as_int (field_of "draft_id" payload);
      request_send_uid = text_of (field_of "send_uid" payload);
      upstream_completed_at = completed upstream;
      upstream_status = answered_status upstream;
      upstream_classification = classified upstream;
      committed_message_id = elim upstream [ none ↦ none | some u ↦ u.committed_message_id ];
      committed_send_uid = elim upstream [ none ↦ none | some u ↦ u.committed_send_uid ];
      treatment = treatment;
      finished_at = now;
      upstream_error = elim upstream [ none ↦ none | some u ↦ u.error ];
      downstream_close_error = close_error;
    }

unfoldable pub record_attempt :
    BytesDecoder
    → (sha256 : Bytes → String) → (now : ℕ) → Attempt
    → (body : Bytes) → Option UpstreamResult
    → Treatment
    → (downstream_close_error : Option String) → Proxy
    → Proxy
unfolding attempt_receipt
record_attempt loads sha256 now attempt body upstream treatment close_error p =
    let receipt = attempt_receipt loads sha256 now attempt body upstream treatment close_error in
    record p { attempts = p.attempts ++ receipt ∷ [] }

-- The receipt of `_record_request`.
abbrev pub request_receipt :
    (now : ℕ) → Request → Option UpstreamResult → Treatment → RequestReceipt
request_receipt now request upstream treatment = record {
  request = request;
  upstream_completed_at = completed upstream;
  upstream_status = answered_status upstream;
  treatment = treatment;
  finished_at = now;
}

unfoldable pub record_request :
    (now : ℕ) → Request → Option UpstreamResult → Treatment → Proxy → Proxy
record_request now request upstream treatment p = record p {
  requests = p.requests ++ request_receipt now request upstream treatment ∷ [];
}

unfoldable pub forwards : Proxy → ℕ
forwards p = p.send_forwards
