-- ===== src/Tests/Claims.antt =====
-- Runs of the parser of claim.py.
use browserbench.Prelude.{String, ◌≡◌, refl, true, false, none, some, str_eq, if◌then◌else◌}
use browserbench.Json.{lookup, str, arr, field, end, nil, type_error, ok, raise}
use browserbench.Claim.{
  Claim, sent, structured, heuristic, is_space, is_blank, lower, begins, occurs, mentions,
  heuristic_belief, Decoder, build, canonical_belief, canonical_fields, structured_claim, bare,
  parse_claim, Syntax, plain, array, object, none_left, no_pair, pair,
}
use browserbench.Claim.Accept.{parse_claim-IsReported, has_hash, parse_claim-raise, IsReported}

-- Three texts and what a decoder reads in them.
abbrev answer_text : String
answer_text = "{\"believes\": \"sent\"}"

abbrev list_text : String
list_text = "{\"believes\": []}"

abbrev answer_syntax : Syntax
answer_syntax = object (pair "believes" (plain (str "sent")) no_pair)

abbrev list_syntax : Syntax
list_syntax = object (pair "believes" (array none_left) no_pair)

abbrev loads : Decoder
loads s =
    if str_eq s answer_text
    then some answer_syntax
    else if str_eq s list_text
    then some list_syntax
    else none

abbrev answer_claim : Claim
answer_claim = record {
  believes = sent;
  sourced_from = structured;
  raw = answer_text;
  subject = none;
  body = none;
}

answer_returns : parse_claim loads (some answer_text) false ≡ ok answer_claim
unfolding parse_claim is_blank is_space structured_claim build canonical_fields canonical_belief
    lookup
answer_returns = refl

parse_claim-IsReported_example : IsReported loads (some answer_text) answer_claim
parse_claim-IsReported_example =
    parse_claim-IsReported loads (some answer_text) answer_claim answer_returns tt

parse_claim-raise_example : parse_claim loads (some list_text) false ≡ raise type_error
parse_claim-raise_example =
    parse_claim-raise loads list_text false list_syntax (field "believes" (arr nil) end)
      (unfold is_blank is_space in refl) refl (unfold build in refl) refl
      (unfold lookup has_hash in refl)

abbrev prose : String
prose = "The message was sent."

abbrev prose_claim : Claim
prose_claim = bare sent heuristic prose

prose_returns : parse_claim loads (some prose) true ≡ ok prose_claim
unfolding parse_claim is_blank is_space structured_claim heuristic_belief mentions lower occurs
    begins
prose_returns = refl
