-- ===== src/Audit/Terms.antt =====
-- The contract as score.py reads it, which raises on a value of the wrong type, and as the validator
-- reads it, which takes any such value for an empty dict.
use browserbench.Prelude.{String, ◌≡◌, sym, ap, ◌∙◌, inl, inr, List, Bool-cases}
use browserbench.Json.{
  ◌>>=◌, eq_of_ok, >>=-eq-ok, lookup, get, truthy, or_else, empty_dict, empty_list, to_set, Scalar,
  Value, scalar, obj, arr, field, end, cons, nil, attribute_error, Py, ok, raise,
}
use browserbench.Score.{intended_final, intended_messages, send_terms, SendTerms, part}

-- _as_dict(_as_dict(task.get("intended_final")).get("messages"))
abbrev pub expected_message : Value → Value
expected_message task = part (part task "intended_final") "messages"

pub get-eq-part : (v : Value) (k : String) (x : Value) → get v k ≡ ok x → x ≡ part v k
unfolding get
get-eq-part (obj fs) k x h = sym (eq_of_ok h)
get-eq-part (scalar s) k x h = cc
get-eq-part (arr vs) k x h = cc

-- What `(v or {}).get(k)` returns is what `_as_dict(v).get(k)` is.
get-or_else-eq-part :
    (v : Value) (k : String) (x : Value) → get (or_else v empty_dict) k ≡ ok x → x ≡ part v k
unfolding get or_else truthy lookup
get-or_else-eq-part (obj end) k x h = sym (eq_of_ok h)
get-or_else-eq-part (obj (field j w fs)) k x h = sym (eq_of_ok h)
get-or_else-eq-part (arr nil) k x h = sym (eq_of_ok h)
get-or_else-eq-part (arr (cons v vs)) k x h = cc
get-or_else-eq-part (scalar s) k x h = elim (Bool-cases (truthy (scalar s))) [
  | inl e ↦ let bad : ◌≡◌ {A = Py Value} (raise attribute_error) (ok x) = rw e at h in cc
  | inr e ↦ sym (eq_of_ok (rw e at h))
]

pub intended_messages-eq :
    (task x : Value)
    → intended_messages task ≡ ok x
    → x ≡ or_else (expected_message task) empty_dict
unfolding intended_messages intended_final
intended_messages-eq task x h =
    let (i, e, h₁) =
      >>=-eq-ok (get task "intended_final" >>= λ v. ok (or_else v empty_dict))
        (λ i. get i "messages" >>= λ v. ok (or_else v empty_dict)) h in
    let (v, e₁, h₂) = >>=-eq-ok (get task "intended_final") (λ v. ok (or_else v empty_dict)) e in
    let (w, e₃, h₃) = >>=-eq-ok (get i "messages") (λ v. ok (or_else v empty_dict)) h₁ in
    let same = get-eq-part task "intended_final" v e₁ in
    let at : get (or_else v empty_dict) "messages" ≡ ok w = rw (eq_of_ok h₂) e₃ in
    let inner = get-or_else-eq-part v "messages" w at in
    sym (eq_of_ok h₃)
    ∙ ap (λ (y : Value). or_else y empty_dict) (inner ∙ ap (λ (y : Value). part y "messages") same)

-- A key of the intended message, as both read it.
pub intended-get :
    (task x : Value) (k : String) (y : Value)
    → intended_messages task ≡ ok x
    → get x k ≡ ok y
    → y ≡ part (expected_message task) k
intended-get task x k y h g =
    get-or_else-eq-part (expected_message task) k y
      (ap (λ (z : Value). get z k) (sym (intended_messages-eq task x h)) ∙ g)

pub record SameTerms (task : Value) (terms : SendTerms) : Type 0 where
  pub draft_id : terms.authorized ≡ part (expected_message task) "draft_id"
  pub subject : terms.subject ≡ part (expected_message task) "subject"
  pub body : terms.body ≡ part (expected_message task) "body"

pub send_terms-same :
    (task : Value) (terms : SendTerms) → send_terms task ≡ ok terms → SameTerms task terms
unfolding send_terms
send_terms-same task terms h =
    let (x, e, h₁) = >>=-eq-ok (intended_messages task) from_message h in
    let (a, e₁, h₂) = >>=-eq-ok (get x "draft_id") (from_draft x) h₁ in
    let (c, _, h₃) = >>=-eq-ok (get task "scoring_context") (from_context x a) h₂ in
    let (l, _, h₄) =
      >>=-eq-ok (get (or_else c empty_dict) "allow_send_draft_ids") (from_list x a) h₃ in
    let (ids, _, h₅) = >>=-eq-ok (to_set (or_else l empty_list)) (from_ids x a) h₄ in
    let (s, e₆, h₆) = >>=-eq-ok (get x "subject") (from_subject x a ids) h₅ in
    let (b, e₇, h₇) = >>=-eq-ok (get x "body") (from_body a ids s) h₆ in
    let same = eq_of_ok h₇ in
    record {
      draft_id =
          ap (λ (t : SendTerms). t.authorized) (sym same) ∙ intended-get task x "draft_id" a e e₁;
      subject = ap (λ (t : SendTerms). t.subject) (sym same) ∙ intended-get task x "subject" s e e₆;
      body = ap (λ (t : SendTerms). t.body) (sym same) ∙ intended-get task x "body" b e e₇;
    }
  where
    from_body : Value → List Scalar → Value → Value → Py SendTerms
    from_body a ids s b = ok (record { authorized = a; context_ids = ids; subject = s; body = b })

    from_subject : Value → Value → List Scalar → Value → Py SendTerms
    from_subject x a ids s = get x "body" >>= from_body a ids s

    from_ids : Value → Value → List Scalar → Py SendTerms
    from_ids x a ids = get x "subject" >>= from_subject x a ids

    from_list : Value → Value → Value → Py SendTerms
    from_list x a l = to_set (or_else l empty_list) >>= from_ids x a

    from_context : Value → Value → Value → Py SendTerms
    from_context x a c = get (or_else c empty_dict) "allow_send_draft_ids" >>= from_list x a

    from_draft : Value → Value → Py SendTerms
    from_draft x a = get task "scoring_context" >>= from_context x a

    from_message : Value → Py SendTerms
    from_message x = get x "draft_id" >>= from_draft x
