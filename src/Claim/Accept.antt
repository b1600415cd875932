-- ===== src/Claim/Accept.antt =====
-- What `parse_claim` and `claim_from_mapping` of claim.py accept.
use mathlib.Core.Path.{subst}
use browserbench.Prelude.{
  String, ◌≡◌, refl, sym, ap, ◌∙◌, inl, inr, Bool, true, false, Option, none, some, Bool-cases,
}
use browserbench.Json.{
  eq_of_ok, >>=-eq-ok, lookup, or_null, Value, scalar, obj, arr, Fields, type_error, ok, raise,
}
use browserbench.Claim.Types.{IsCanonical, Claim, absent, structured, heuristic, unparsed, missing}
use browserbench.Claim.Heuristic.{is_blank, heuristic_belief}
use browserbench.Claim.Parse.{
  Decoder, build, has_extra_keys, canonical_belief, canonical_fields, structured_claim, bare,
  finish, raw_text, parse_claim, Answer, Syntax,
}
use browserbench.Claim.Strict.{structured_claim-IsExact, IsExact}

abbrev pub answer_in : Claim → Answer
answer_in c = record { believes = c.believes; subject = c.subject; body = c.body }

finish-structured :
    (text : String) (o : Option Answer) (c : Claim)
    → finish false text o ≡ c
    → IsCanonical c.believes
    → (o ≡ some (answer_in c)) × (c.sourced_from ≡ structured) × (c.raw ≡ text)
finish-structured text none c h k = absurd (subst (λ (x : Claim). IsCanonical x.believes) (sym h) k)
finish-structured text (some a) c h k = (
  ap (λ x. some (answer_in x)) h,
  ap (λ (x : Claim). x.sourced_from) (sym h),
  ap (λ (x : Claim). x.raw) (sym h),
)

pub record IsReported (loads : Decoder) (raw : Option String) (c : Claim) : Type 0 where
  pub exact : IsExact loads (raw_text raw) (answer_in c)
  pub source : c.sourced_from ≡ structured
  pub kept : c.raw ≡ raw_text raw

-- Without the legacy option, a claim of `parse_claim` that states "sent", "not_sent" or "unknown"
-- is structured and keeps the whole text, and the text decodes to one object without a duplicate
-- key, with no key but the three canonical ones, with just that word as belief and with just that
-- subject and body.
pub parse_claim-IsReported :
    (loads : Decoder) (raw : Option String) (c : Claim)
    → parse_claim loads raw false ≡ ok c
    → IsCanonical c.believes
    → IsReported loads raw c
unfolding parse_claim
parse_claim-IsReported loads raw c h k = elim (Bool-cases (is_blank (raw_text raw))) [
  | inl blank ↦
      let same : bare absent missing (raw_text raw) ≡ c = eq_of_ok (rw blank at h) in
      absurd (subst (λ (x : Claim). IsCanonical x.believes) (sym same) k)
  | inr written ↦
      let (o, e, rest) =
        >>=-eq-ok (structured_claim loads (raw_text raw)) (λ a. ok (finish false (raw_text raw) a))
          (rw written at h) in
      let (answered, source, kept) = finish-structured (raw_text raw) o c (eq_of_ok rest) k in
      record {
        exact = structured_claim-IsExact loads (raw_text raw) (answer_in c) (e ∙ ap ok answered);
        source = source;
        kept = kept;
      }
]

-- The keys of an object, of which one is not canonical or the value of "believes" is a list or a dict.
unfoldable pub has_hash : Value → Bool
has_hash (scalar s) = true
has_hash (arr vs) = false
has_hash (obj fs) = false

canonical_belief-raise : (v : Value) → has_hash v ≡ false → canonical_belief v ≡ raise type_error
unfolding canonical_belief has_hash
canonical_belief-raise (scalar s) h = cc
canonical_belief-raise (arr vs) h = refl
canonical_belief-raise (obj fs) h = refl

-- `parse_claim` raises TypeError, where its documentation promises a malformed claim, on each text
-- that is not blank and decodes to an object with canonical keys whose "believes" is a list or an
-- object.
pub parse_claim-raise :
    (loads : Decoder) (text : String) (legacy : Bool) (syntax : Syntax) (fields : Fields)
    → is_blank text ≡ false
    → loads text ≡ some syntax
    → build syntax ≡ some (obj fields)
    → has_extra_keys fields ≡ false
    → has_hash (or_null (lookup "believes" fields)) ≡ false
    → parse_claim loads (some text) legacy ≡ raise type_error
unfolding parse_claim structured_claim canonical_fields
parse_claim-raise loads text legacy syntax fields written read built few unhashed = rw (
  written,
  read,
  built,
  few,
  canonical_belief-raise (or_null (lookup "believes" fields)) unhashed,
)

-- A claim of `parse_claim` states no belief where its text is blank, and comes from prose only
-- where the caller asks for the legacy reading.
pub parse_claim-source :
    (loads : Decoder) (raw : Option String) (legacy : Bool) (c : Claim)
    → parse_claim loads raw legacy ≡ ok c
    → (c.sourced_from ≡ heuristic)
    → (legacy ≡ true) × (c ≡ bare (heuristic_belief (raw_text raw)) heuristic (raw_text raw))
unfolding parse_claim
parse_claim-source loads raw legacy c h k = elim (Bool-cases (is_blank (raw_text raw))) [
  | inl blank ↦
      let same : bare absent missing (raw_text raw) ≡ c = eq_of_ok (rw blank at h) in
      let bad : missing ≡ heuristic = ap (λ (x : Claim). x.sourced_from) same ∙ k in cc
  | inr written ↦
      let (o, e, rest) =
        >>=-eq-ok (structured_claim loads (raw_text raw)) (λ a. ok (finish legacy (raw_text raw) a))
          (rw written at h) in
      go legacy o (eq_of_ok rest)
]
  where
    go :
        (l : Bool) (o : Option Answer)
        → finish l (raw_text raw) o ≡ c
        → (l ≡ true) × (c ≡ bare (heuristic_belief (raw_text raw)) heuristic (raw_text raw))
    go l (some a) e =
        let bad : structured ≡ heuristic = ap (λ (x : Claim). x.sourced_from) e ∙ k in cc
    go true none e = (refl, sym e)
    go false none e =
        let bad : unparsed ≡ heuristic = ap (λ (x : Claim). x.sourced_from) e ∙ k in cc
