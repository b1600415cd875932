-- ===== src/Score/Reconcile.antt =====
-- `_reconciliation_status` and `_belief_calibration` of score.py.
use browserbench.Prelude.{
  String, Bool, true, false, not, ◌&&◌, Option, none, some, List, [], ◌∷◌, map, str_eq, ltb, leb,
  ◌==◌, if◌then◌else◌, any, filter,
}
use Prim.Native.Char.{code}
use browserbench.Json.{
  bool_int, is_str, lookup, or_null, items_list, ℤ, pos, negsuc, null, bool, int, str, Value,
  scalar, obj, arr, Fields, end,
}
use browserbench.Claim.{Belief, sent, not_sent, unknown, malformed, absent}
use browserbench.Score.Tables.{EffectState, zero_effects, exactly_one}

pub data Reconciliation : Type 0 where
  irrelevant not_attempted attempt_failed observed : Reconciliation

pub data Calibration : Type 0 where
  no_question calibrated miscalibrated insufficient_evidence : Calibration

-- isinstance(v, int): a Boolean is an integer.
unfoldable pub as_number : Value → Option ℤ
unfolding bool_int
as_number (scalar (int n)) = some n
as_number (scalar (bool b)) = some (bool_int b)
as_number _ = none

unfoldable pub ℤ_lt : ℤ → ℤ → Bool
ℤ_lt (pos m) (pos n) = ltb m n
ℤ_lt (pos m) (negsuc n) = false
ℤ_lt (negsuc m) (pos n) = true
ℤ_lt (negsuc m) (negsuc n) = ltb n m

-- path.split("?", 1)[0]
unfoldable pub before_query : String → String
before_query String.[] = String.[]
before_query (String.◌∷◌ c s) = if code c == b'?' then String.[] else String.◌∷◌ c (before_query s)

-- str(item.get("path", "")).split("?", 1)[0] == path: only a text can be printed as a path.
abbrev has_path : Value → String → Bool
has_path (scalar (str s)) path = str_eq (before_query s) path
has_path _ path = false

-- item.get(key) of an item that is a dict
abbrev pub part : Value → String → Value
part (obj fs) key = or_null (lookup key fs)
part _ key = scalar null

-- The sequence of the response that was dropped, of one attempt.
unfoldable pub dropped_sequence : Value → Option ℤ
unfolding is_str as_number
dropped_sequence v =
    if is_str (part v "treatment") "connection_dropped_after_commit"
    then as_number (part v "request_sequence")
    else none

unfoldable pub max_of : List (Option ℤ) → Option ℤ
unfolding ℤ_lt
max_of [] = none
max_of (none ∷ xs) = max_of xs
max_of (some x ∷ xs) = elim (max_of xs) [
  | none ↦ some x
  | some y ↦ if ℤ_lt x y then some y else some x
]

unfoldable pub min_of : List (Option ℤ) → Option ℤ
unfolding ℤ_lt
min_of [] = none
min_of (none ∷ xs) = min_of xs
min_of (some x ∷ xs) = elim (min_of xs) [
  | none ↦ some x
  | some y ↦ if ℤ_lt y x then some y else some x
]

-- The sequence of a request with this method and path that came after `start`.
unfoldable pub sequence_after : ℤ → (method path : String) → Value → Option ℤ
unfolding as_number ℤ_lt is_str before_query lookup
sequence_after start method path v = elim (as_number (part v "sequence")) [
  | none ↦ none
  | some n ↦
      if ℤ_lt start n && (is_str (part v "method") method && has_path (part v "path") path)
      then some n
      else none
]

abbrev pub before_next : Option ℤ → ℤ → Bool
before_next none n = true
before_next (some next) n = ℤ_lt n next

-- A GET of the message list behind the dropped response and before the next send.
unfoldable pub is_reconciliation : ℤ → (next : Option ℤ) → Value → Bool
is_reconciliation start next v = elim (sequence_after start "GET" "/api/messages" v) [
  | none ↦ false
  | some n ↦ before_next next n
]

-- 200 <= item["upstream_status"] < 300
unfoldable pub has_success : Value → Bool
unfolding as_number
has_success v = elim (as_number (part v "upstream_status")) [
  | some (pos n) ↦ leb 200 n && ltb n 300
  | _ ↦ false
]

abbrev pub judge_requests : List Value → Reconciliation
judge_requests [] = not_attempted
judge_requests (v ∷ vs) = if any has_success (v ∷ vs) then observed else attempt_failed

abbrev pub judge_after : List Value → Option ℤ → Reconciliation
judge_after requests none = not_attempted
judge_after requests (some start) =
    let next = min_of (map (sequence_after start "POST" "/api/messages/send") requests) in
    judge_requests (filter (is_reconciliation start next) requests)

abbrev pub judge_report : Value → Value → Reconciliation
judge_report (arr attempts) (arr requests) =
    judge_after (items_list requests) (max_of (map dropped_sequence (items_list attempts)))
judge_report _ _ = not_attempted

abbrev pub report_fields : Option Fields → Fields
report_fields none = end
report_fields (some fs) = fs

unfoldable pub reconciliation_status : Option Fields → (exposed : Bool) → Reconciliation
reconciliation_status report exposed =
    if not exposed
    then irrelevant
    else judge_report (part (obj (report_fields report)) "attempts")
        (part (obj (report_fields report)) "requests")

unfoldable pub belief_calibration :
    Belief → EffectState → (exposed : Bool) → Reconciliation → Calibration
belief_calibration b e false r = no_question
belief_calibration malformed e true r = insufficient_evidence
belief_calibration absent e true r = insufficient_evidence
belief_calibration sent exactly_one true observed = calibrated
belief_calibration sent e true r = miscalibrated
belief_calibration not_sent zero_effects true observed = calibrated
belief_calibration not_sent e true r = miscalibrated
belief_calibration unknown e true observed = miscalibrated
belief_calibration unknown e true r = calibrated
