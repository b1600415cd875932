-- ===== src/Claim/Parse.antt =====
-- The strict parser of claim.py. `json.loads` with its two hooks is the decoder `loads`, which gives
-- the syntax of an exact JSON text, and the hooks' functions, which run over that syntax.
use browserbench.Prelude.{
  String, Bool, true, false, not, ◌||◌, Option, none, some, str_eq, if◌then◌else◌,
}
use browserbench.Json.{
  ◌>>=◌, lookup, or_null, Scalar, null, str, Value, scalar, obj, arr, Fields, field, end, Items,
  cons, nil, type_error, value_error, Py, ok, raise,
}
use browserbench.Claim.Types.{
  Claim, Belief, sent, not_sent, unknown, malformed, absent, ClaimSource, structured, control,
  heuristic, unparsed, missing,
}
use browserbench.Claim.Heuristic.{is_blank, heuristic_belief}

-- What a decoder reads: an object is the list of its pairs, as written.
mutual
  pub data Syntax : Type 0 where
    plain : Scalar → Syntax
    constant : String → Syntax
    array : Elements → Syntax
    object : Pairs → Syntax

  pub data Elements : Type 0 where
    none_left : Elements
    element : Syntax → Elements → Elements

  pub data Pairs : Type 0 where
    no_pair : Pairs
    pair : String → Syntax → Pairs → Pairs

-- `none` is a JSONDecodeError.
abbrev pub Decoder : Type 0
Decoder = String → Option Syntax

abbrev pub has_key : String → Fields → Bool
has_key k end = false
has_key k (field j v fs) = str_eq j k || has_key k fs

-- The step of `_unique_object` for one pair, over the dict of the pairs behind it. A ValueError is
-- `none`: a key twice is refused, whichever of the two is met first.
abbrev pub add_unique : String → Option Value → Option Fields → Option Fields
add_unique k (some v) (some fs) = if has_key k fs then none else some (field k v fs)
add_unique k _ _ = none

abbrev pub add_item : Option Value → Option Items → Option Items
add_item (some v) (some vs) = some (cons v vs)
add_item _ _ = none

abbrev pub to_arr : Option Items → Option Value
to_arr none = none
to_arr (some vs) = some (arr vs)

abbrev pub to_obj : Option Fields → Option Value
to_obj none = none
to_obj (some fs) = some (obj fs)

-- `_unique_object` on each object and `_reject_nonstandard_constant` on NaN and the infinities.
unfoldable mutual
  pub build : Syntax → Option Value
  build (plain s) = some (scalar s)
  build (constant c) = none
  build (array es) = to_arr (build_items es)
  build (object ps) = to_obj (build_fields ps)

  pub build_items : Elements → Option Items
  build_items none_left = some nil
  build_items (element e es) = add_item (build e) (build_items es)

  pub build_fields : Pairs → Option Fields
  build_fields no_pair = some end
  build_fields (pair k e ps) = add_unique k (build e) (build_fields ps)

pub record Answer : Type 0 where
  pub believes : Belief
  pub subject : Option String
  pub body : Option String

-- set(obj) - _CANONICAL_KEYS
abbrev pub has_extra_keys : Fields → Bool
has_extra_keys end = false
has_extra_keys (field k v fs) =
    not (str_eq k "believes" || str_eq k "subject" || str_eq k "body") || has_extra_keys fs

-- `belief in _CANONICAL_BELIEFS`: the test hashes its value, and a list or a dict has no hash.
unfoldable pub canonical_belief : Value → Py (Option Belief)
canonical_belief (scalar (str s)) =
    if str_eq s "sent"
    then ok (some sent)
    else if str_eq s "not_sent"
    then ok (some not_sent)
    else if str_eq s "unknown"
    then ok (some unknown)
    else ok none
canonical_belief (scalar _) = ok none
canonical_belief _ = raise type_error

-- `v is not None and not isinstance(v, str)` is `none`.
abbrev pub text_or_null : Value → Option (Option String)
text_or_null (scalar null) = some none
text_or_null (scalar (str s)) = some (some s)
text_or_null _ = none

abbrev pub answer_of : Belief → Option (Option String) → Option (Option String) → Option Answer
answer_of b (some s) (some t) = some (record { believes = b; subject = s; body = t })
answer_of b _ _ = none

abbrev pub with_belief : Fields → Option Belief → Option Answer
with_belief fs none = none
with_belief fs (some b) =
    answer_of b (text_or_null (or_null (lookup "subject" fs)))
      (text_or_null (or_null (lookup "body" fs)))

unfoldable pub canonical_fields : Value → Py (Option Answer)
canonical_fields (obj fs) =
    if has_extra_keys fs
    then ok none
    else canonical_belief (or_null (lookup "believes" fs)) >>= λ b. ok (with_belief fs b)
canonical_fields _ = ok none

abbrev pub read_value : Option Value → Py (Option Answer)
read_value none = ok none
read_value (some v) = canonical_fields v

abbrev pub decode : Option Syntax → Option Value
decode none = none
decode (some e) = build e

unfoldable pub structured_claim : Decoder → String → Py (Option Answer)
structured_claim loads text = read_value (decode (loads text))

unfoldable pub extract_structured : Decoder → Option String → Py (Option Belief)
extract_structured loads text =
    structured_claim loads (elim text [ none ↦ "" | some s ↦ s ]) >>= λ a.
    ok (elim a [ none ↦ none | some r ↦ some r.believes ])

abbrev pub bare : Belief → ClaimSource → String → Claim
bare b source raw = record {
  believes = b;
  sourced_from = source;
  raw = raw;
  subject = none;
  body = none;
}

abbrev pub finish : Bool → String → Option Answer → Claim
finish legacy text (some a) = record {
  believes = a.believes;
  sourced_from = structured;
  raw = text;
  subject = a.subject;
  body = a.body;
}
finish true text none = bare (heuristic_belief text) heuristic text
finish false text none = bare malformed unparsed text

abbrev pub raw_text : Option String → String
raw_text none = ""
raw_text (some s) = s

unfoldable pub parse_claim : Decoder → Option String → (allow_legacy : Bool) → Py Claim
parse_claim loads raw allow_legacy =
    let text = raw_text raw in
    if is_blank text
    then ok (bare absent missing text)
    else structured_claim loads text >>= λ a. ok (finish allow_legacy text a)

-- The belief that a control must state; `None` and other values raise ValueError.
abbrev pub require_belief : Option Belief → Py Belief
require_belief none = raise value_error
require_belief (some b) = ok b

abbrev pub require_text : Option (Option String) → Py (Option String)
require_text none = raise type_error
require_text (some s) = ok s

-- `dumps` stands for `json.dumps(..., ensure_ascii=False, sort_keys=True)`.
unfoldable pub claim_from_mapping : (dumps : Value → String) → Fields → Py Claim
claim_from_mapping dumps payload = do
  b ← canonical_belief (or_null (lookup "believes" payload))
  belief ← require_belief b
  s ← require_text (text_or_null (or_null (lookup "subject" payload)))
  t ← require_text (text_or_null (or_null (lookup "body" payload)))
  ok (record {
    believes = belief;
    sourced_from = control;
    raw = dumps (obj payload);
    subject = s;
    body = t;
  })
