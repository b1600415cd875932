-- ===== src/Claim/Strict.antt =====
-- How strict `parse_claim` of claim.py is.
use mathlib.Core.Path.{subst}
use browserbench.Prelude.{
  String, ◌≡◌, refl, ap, ◌∙◌, inl, inr, false, Option, none, some, str_eq, eq_iff, Bool-cases,
  eq_of_some,
}
use browserbench.Json.{
  eq_of_ok, >>=-eq-ok, lookup, or_null, null, str, Value, scalar, obj, arr, Fields, field, end,
  Items, Py, ok,
}
use browserbench.Claim.Types.{IsCanonical, Belief, sent, not_sent, unknown, malformed, absent}
use browserbench.Claim.Parse.{
  Decoder, has_key, add_unique, to_arr, to_obj, build, build_items, build_fields, has_extra_keys,
  canonical_belief, text_or_null, answer_of, with_belief, canonical_fields, read_value, decode,
  structured_claim, Answer, Syntax, plain, constant, array, object, Pairs, no_pair, pair,
}

-- The canonical spelling of a belief.
abbrev pub word : Belief → String
word sent = "sent"
word not_sent = "not_sent"
word unknown = "unknown"
word malformed = ""
word absent = ""

abbrev pub HasDistinctKeys : Fields → Type 0
HasDistinctKeys end = Unit
HasDistinctKeys (field k v fs) = (has_key k fs ≡ false) × HasDistinctKeys fs

add_unique-distinct :
    (k : String) (v : Option Value) (o : Option Fields) (fs : Fields)
    → ((gs : Fields) → o ≡ some gs → HasDistinctKeys gs)
    → add_unique k v o ≡ some fs
    → HasDistinctKeys fs
add_unique-distinct k none o fs d h = cc
add_unique-distinct k (some v) none fs d h = cc
add_unique-distinct k (some v) (some gs) fs d h = elim (Bool-cases (has_key k gs)) [
  | inl twice ↦ let bad : none ≡ some fs = rw twice at h in cc
  | inr once ↦
      let same : field k v gs ≡ fs = eq_of_some (rw once at h) in
      subst HasDistinctKeys same (once, d gs refl)
]

-- An object that `json.loads` gives with `_unique_object` has no key twice.
build_fields-distinct : (ps : Pairs) (fs : Fields) → build_fields ps ≡ some fs → HasDistinctKeys fs
unfolding build
build_fields-distinct no_pair fs h = subst HasDistinctKeys (eq_of_some h) tt
build_fields-distinct (pair k e ps) fs h =
    add_unique-distinct k (build e) (build_fields ps) fs (build_fields-distinct ps) h

build-distinct : (e : Syntax) (fs : Fields) → build e ≡ some (obj fs) → HasDistinctKeys fs
unfolding build
build-distinct (plain s) fs h = cc
build-distinct (constant c) fs h = cc
build-distinct (array es) fs h = go (build_items es) h
  where
    go : (o : Option Items) → to_arr o ≡ some (obj fs) → HasDistinctKeys fs
    go none e = cc
    go (some vs) e = cc
build-distinct (object ps) fs h = go (build_fields ps) refl h
  where
    go : (o : Option Fields) → build_fields ps ≡ o → to_obj o ≡ some (obj fs) → HasDistinctKeys fs
    go none x e = cc
    go (some gs) x e = build_fields-distinct ps fs (x ∙ ap some (cc e))

-- A JSON object that is one canonical answer: no key but the three, none of them twice, a belief in
-- its canonical spelling, and a subject and a body that are texts or null.
pub record IsAnswer (fs : Fields) (a : Answer) : Type 0 where
  pub distinct : HasDistinctKeys fs
  pub canonical_keys : has_extra_keys fs ≡ false
  pub canonical : IsCanonical a.believes
  pub spelled : or_null (lookup "believes" fs) ≡ scalar (str (word a.believes))
  pub subject : text_or_null (or_null (lookup "subject" fs)) ≡ some a.subject
  pub body : text_or_null (or_null (lookup "body" fs)) ≡ some a.body

spelled-word :
    (v : Value) (b : Belief)
    → canonical_belief v ≡ ok (some b)
    → IsCanonical b × (v ≡ scalar (str (word b)))
unfolding canonical_belief
spelled-word (scalar (str s)) b h = elim (Bool-cases (str_eq s "sent")) [
  | inl e ↦
      let same : sent ≡ b = cc (eq_of_ok (rw e at h)) in
      subst (λ x. IsCanonical x × (scalar (str s) ≡ scalar (str (word x)))) same
        (tt, ap (λ t. scalar (str t)) ((eq_iff s "sent").0 e))
  | inr e ↦ elim (Bool-cases (str_eq s "not_sent")) [
    | inl e' ↦
        let same : not_sent ≡ b = cc (eq_of_ok (rw (e, e') at h)) in
        subst (λ x. IsCanonical x × (scalar (str s) ≡ scalar (str (word x)))) same
          (tt, ap (λ t. scalar (str t)) ((eq_iff s "not_sent").0 e'))
    | inr e' ↦ elim (Bool-cases (str_eq s "unknown")) [
      | inl e'' ↦
          let same : unknown ≡ b = cc (eq_of_ok (rw (e, e', e'') at h)) in
          subst (λ x. IsCanonical x × (scalar (str s) ≡ scalar (str (word x)))) same
            (tt, ap (λ t. scalar (str t)) ((eq_iff s "unknown").0 e''))
      | inr e'' ↦
          let bad : ◌≡◌ {A = Py (Option Belief)} (ok none) (ok (some b)) = rw (e, e', e'') at h in
          cc
    ]
  ]
]
spelled-word (scalar null) b h = cc
spelled-word (scalar _) b h = cc
spelled-word (arr vs) b h = cc
spelled-word (obj fs) b h = cc

with_belief-answer :
    (fs : Fields) (o : Option Belief) (a : Answer)
    → with_belief fs o ≡ some a
    → (o ≡ some a.believes)
      × (text_or_null (or_null (lookup "subject" fs)) ≡ some a.subject)
      × (text_or_null (or_null (lookup "body" fs)) ≡ some a.body)
with_belief-answer fs none a h = cc
with_belief-answer fs (some b) a h =
    go (text_or_null (or_null (lookup "subject" fs))) (text_or_null (or_null (lookup "body" fs))) h
  where
    go :
        (s t : Option (Option String))
        → answer_of b s t ≡ some a
        → (some b ≡ some a.believes) × (s ≡ some a.subject) × (t ≡ some a.body)
    go none t e = cc
    go (some s) none e = cc
    go (some s) (some t) e =
        let same = eq_of_some e in
        (
          ap (λ (x : Answer). some x.believes) same,
          ap (λ (x : Answer). some x.subject) same,
          ap (λ (x : Answer). some x.body) same,
        )

canonical_fields-IsAnswer :
    (fs : Fields) (a : Answer)
    → HasDistinctKeys fs
    → canonical_fields (obj fs) ≡ ok (some a)
    → IsAnswer fs a
unfolding canonical_fields
canonical_fields-IsAnswer fs a distinct h = elim (Bool-cases (has_extra_keys fs)) [
  | inl extra ↦ let bad : ◌≡◌ {A = Py (Option Answer)} (ok none) (ok (some a)) = rw extra at h in cc
  | inr few ↦
      let (o, e, rest) =
        >>=-eq-ok (canonical_belief (or_null (lookup "believes" fs))) (λ b. ok (with_belief fs b))
          (rw few at h) in
      let (b, s, t) = with_belief-answer fs o a (eq_of_ok rest) in
      let (c, w) = spelled-word (or_null (lookup "believes" fs)) a.believes (e ∙ ap ok b) in
      record {
        distinct = distinct;
        canonical_keys = few;
        canonical = c;
        spelled = w;
        subject = s;
        body = t;
      }
]

-- What the decoder must have read for a structured answer.
pub record IsExact (loads : Decoder) (text : String) (a : Answer) : Type 0 where
  pub syntax : Syntax
  pub read : loads text ≡ some syntax
  pub fields : Fields
  pub built : build syntax ≡ some (obj fields)
  pub answer : IsAnswer fields a

pub structured_claim-IsExact :
    (loads : Decoder) (text : String) (a : Answer)
    → structured_claim loads text ≡ ok (some a)
    → IsExact loads text a
unfolding structured_claim
structured_claim-IsExact loads text a h = from_syntax (loads text) refl h
  where
    from_value :
        (e : Syntax) (v : Option Value)
        → loads text ≡ some e
        → build e ≡ v
        → read_value v ≡ ok (some a)
        → IsExact loads text a
    from_value e none r b x = cc
    from_value e (some (obj fs)) r b x = record {
      syntax = e;
      read = r;
      fields = fs;
      built = b;
      answer = canonical_fields-IsAnswer fs a (build-distinct e fs b) x;
    }
    from_value e (some (scalar s)) r b x =
        let bad : ◌≡◌ {A = Py (Option Answer)} (ok none) (ok (some a)) =
          unfold canonical_fields in x in
        cc
    from_value e (some (arr vs)) r b x =
        let bad : ◌≡◌ {A = Py (Option Answer)} (ok none) (ok (some a)) =
          unfold canonical_fields in x in
        cc

    from_syntax :
        (o : Option Syntax)
        → loads text ≡ o
        → read_value (decode o) ≡ ok (some a)
        → IsExact loads text a
    from_syntax none r x = cc
    from_syntax (some e) r x = from_value e (build e) r refl x
