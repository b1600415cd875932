-- ===== src/Db/Invariant.antt =====
-- What holds of every database that db.py leaves behind.
use browserbench.Prelude.{
  ℕ, String, ◌≡◌, refl, ap, Bool, true, false, ◌||◌, some, List, [], ◌∷◌, ◌++◌, arith, eq_iff,
  if◌then◌else◌, All,
}
use browserbench.Table.{find_row, has_id, IsAscending}
use browserbench.Db.Schema.{
  status_allowed, uid_taken, User, Draft, Message, Attempt, Db, committed, duplicate_rejected,
}

abbrev pub key_of : Message → ℕ × String
key_of m = (m.draft_id, m.send_uid)

abbrev pub message_keys : List Message → List (ℕ × String)
message_keys [] = []
message_keys (m ∷ ms) = key_of m ∷ message_keys ms

abbrev pub is_committed : Attempt → Bool
is_committed a = elim a.outcome [ committed ↦ true | duplicate_rejected ↦ false ]

abbrev pub committed_keys : List Attempt → List (ℕ × String)
committed_keys [] = []
committed_keys (a ∷ as') =
    if is_committed a then (a.draft_id, a.send_uid) ∷ committed_keys as' else committed_keys as'

-- No two messages share a send uid.
abbrev pub HasDistinctUids : List Message → Type 0
HasDistinctUids [] = Unit
HasDistinctUids (m ∷ ms) = (uid_taken m.send_uid ms ≡ false) × HasDistinctUids ms

-- A message copies a draft that is in the table and saved.
pub record IsCopy (drafts : List Draft) (m : Message) : Type 0 where
  pub source : Draft
  pub found : find_row (λ (d : Draft). d.id) m.draft_id drafts ≡ some source
  pub saved : source.status ≡ "saved"
  pub same_user : m.user_id ≡ source.user_id
  pub same_subject : m.subject ≡ source.subject
  pub same_body : m.body ≡ source.body

abbrev pub HasUser : List User → Draft → Type 0
HasUser users d = has_id (λ (u : User). u.id) d.user_id users ≡ true

abbrev pub HasStatus : Draft → Type 0
HasStatus d = status_allowed d.status ≡ true

pub record IsValid (db : Db) : Type 0 where
  pub drafts_ordered : IsAscending (λ (d : Draft). d.id) 0 db.drafts
  pub messages_ordered : IsAscending (λ (m : Message). m.id) 0 db.messages
  pub attempts_ordered : IsAscending (λ (a : Attempt). a.id) 0 db.send_attempts
  pub statuses : All HasStatus db.drafts
  pub owners : All (HasUser db.users) db.drafts
  pub distinct_uids : HasDistinctUids db.messages
  pub copies : All (IsCopy db.drafts) db.messages
  pub audited : committed_keys db.send_attempts ≡ message_keys db.messages

pub message_keys-append :
    (xs ys : List Message) → message_keys (xs ++ ys) ≡ message_keys xs ++ message_keys ys
message_keys-append [] ys = refl
message_keys-append (x ∷ xs) ys = ap (λ t. key_of x ∷ t) (message_keys-append xs ys)

pub committed_keys-append :
    (xs ys : List Attempt) → committed_keys (xs ++ ys) ≡ committed_keys xs ++ committed_keys ys
committed_keys-append [] ys = refl
committed_keys-append (x ∷ xs) ys = ground (arith, committed_keys-append xs ys)

pub uid_taken-append :
    (uid : String) (xs ys : List Message)
    → uid_taken uid (xs ++ ys) ≡ (uid_taken uid xs || uid_taken uid ys)
unfolding uid_taken
uid_taken-append uid [] ys = refl
uid_taken-append uid (x ∷ xs) ys = ground (arith, uid_taken-append uid xs ys)

pub HasDistinctUids-append :
    (xs : List Message) (m : Message)
    → uid_taken m.send_uid xs ≡ false
    → HasDistinctUids xs
    → HasDistinctUids (xs ++ m ∷ [])
unfolding uid_taken
HasDistinctUids-append [] m h p = (refl, tt)
HasDistinctUids-append (x ∷ xs) m h p = ground (
  arith,
  uid_taken-append x.send_uid xs (m ∷ []),
  HasDistinctUids-append xs m,
  eq_iff x.send_uid m.send_uid,
  eq_iff m.send_uid x.send_uid,
)
