-- ===== src/Db/Commit.antt =====
-- What `send_message` of db.py does on each of its branches.
use browserbench.Prelude.{
  ℕ, String, ◌≡◌, refl, ap, inl, inr, true, false, not, Option, none, some, List, [], ◌∷◌, ◌++◌,
  arith, str_eq, ◌==◌, if◌then◌else◌, Bool-cases, All,
}
use browserbench.Table.{
  next_id, find_row, has_id, has_id-next_id, find_row-id, has_id-find_row, insert_row-next,
  find_row-next_id,
}
use browserbench.Db.Schema.{
  uid_taken, insert_message, log_attempt, User, Draft, Message, Attempt, Db, Outcome, committed,
  duplicate_rejected, draft_not_found, draft_not_saved, constraint_unique, Result, ok, raise,
}
use browserbench.Db.Send.{
  chosen_uid, message_row, commit_or_reject, send_found, send_message, SendReply, sent, duplicate,
}
use browserbench.Db.Invariant.{HasUser, IsValid}

abbrev pub message_key : Message → ℕ
message_key m = m.id

abbrev pub next_message : Db → ℕ
next_message db = next_id message_key db.messages

abbrev pub next_attempt : Db → ℕ
next_attempt db = next_id (λ (a : Attempt). a.id) db.send_attempts

abbrev pub attempt_row : ℕ → String → Outcome → ℕ → ℕ → Attempt
attempt_row draft uid outcome t k = record {
  id = k;
  draft_id = draft;
  send_uid = uid;
  outcome = outcome;
  created_at = t;
}

-- The database after an attempt is logged: one row more at the end of the log.
abbrev pub with_attempt : ℕ → String → Outcome → ℕ → Db → Db
with_attempt draft uid outcome t db = record db {
  send_attempts = db.send_attempts ++ attempt_row draft uid outcome t (next_attempt db) ∷ [];
}

abbrev pub with_message : Message → Db → Db
with_message m db = record db { messages = db.messages ++ m ∷ [] }

pub log_attempt-append :
    (draft : ℕ) (uid : String) (outcome : Outcome) (t : ℕ) (db : Db)
    → log_attempt draft uid outcome t db ≡ with_attempt draft uid outcome t db
unfolding log_attempt
log_attempt-append draft uid outcome t db =
    ap (λ (rows : List Attempt). record db { send_attempts = rows })
      (insert_row-next (λ (a : Attempt). a.id) (attempt_row draft uid outcome t (next_attempt db))
        db.send_attempts refl)

-- A row with a new key, a new uid and satisfied references goes to the end of `messages`.
insert_message-append :
    (m : Message) (db : Db)
    → m.id ≡ next_message db
    → uid_taken m.send_uid db.messages ≡ false
    → has_id (λ (u : User). u.id) m.user_id db.users ≡ true
    → has_id (λ (d : Draft). d.id) m.draft_id db.drafts ≡ true
    → insert_message m db ≡ ok (with_message m db)
unfolding insert_message
insert_message-append m db k fresh user draft =
    rw (insert_row-next message_key m db.messages k, fresh, user, draft)
      (rw (k, has_id-next_id message_key db.messages))

insert_message-taken :
    (m : Message) (db : Db)
    → m.id ≡ next_message db
    → uid_taken m.send_uid db.messages ≡ true
    → insert_message m db ≡ raise constraint_unique
unfolding insert_message
insert_message-taken m db k taken = rw (taken) (rw (k, has_id-next_id message_key db.messages))

find_row-append :
    (k : ℕ) (m : Message) (rows : List Message)
    → m.id ≡ k
    → find_row message_key k rows ≡ none
    → find_row message_key k (rows ++ m ∷ []) ≡ some m
unfolding find_row
find_row-append k m [] e h = ground arith
find_row-append k m (x ∷ xs) e h = ground (arith, find_row-append k m xs e)

-- The user of a draft that stands in a valid database is there.
owner_of :
    (users : List User) (k : ℕ) (drafts : List Draft) (d : Draft)
    → All (HasUser users) drafts
    → find_row (λ (r : Draft). r.id) k drafts ≡ some d
    → HasUser users d
unfolding find_row
owner_of users k [] d h e = cc
owner_of users k (x ∷ xs) d h e = elim (Bool-cases (x.id == k)) [
  | inl hit ↦ let same : x ≡ d = ground arith in rw (← same) (h.0)
  | inr miss ↦ owner_of users k xs d h.1 (rw miss at e)
]

-- A send as the benchmark means it: the draft must be there and saved; a uid that a message has
-- already is logged as a rejected duplicate; otherwise one message copies the draft, and the log
-- has one committed attempt more.
abbrev pub transact_found : ℕ → String → ℕ → Option Draft → Db → Result SendReply × Db
transact_found t uid draft none db = (raise (draft_not_found draft), db)
transact_found t uid draft (some d) db =
    if not (str_eq d.status "saved")
    then (raise (draft_not_saved draft d.status), db)
    else if uid_taken uid db.messages
    then (ok (duplicate uid), with_attempt draft uid duplicate_rejected t db)
    else (
      ok (sent (message_row d uid t (next_message db))),
      with_attempt draft uid committed t (with_message (message_row d uid t (next_message db)) db),
    )

abbrev pub transact : ℕ → String → ℕ → Db → Result SendReply × Db
transact t uid draft db =
    transact_found t uid draft (find_row (λ (d : Draft). d.id) draft db.drafts) db

module _ (t : ℕ) (uid : String) (draft : ℕ) (d : Draft) (db : Db)
    (here : find_row (λ (r : Draft). r.id) draft db.drafts ≡ some d) where
  abbrev row : Message
  row = message_row d uid t (next_message db)

  rejects :
      uid_taken uid db.messages ≡ true
      → commit_or_reject t uid draft db (insert_message row db)
        ≡ (ok (duplicate uid), with_attempt draft uid duplicate_rejected t db)
  unfolding commit_or_reject
  rejects taken =
      rw (insert_message-taken row db refl taken)
        (rw (taken, log_attempt-append draft uid duplicate_rejected t db))

  commits :
      IsValid db
      → uid_taken uid db.messages ≡ false
      → commit_or_reject t uid draft db (insert_message row db)
        ≡ (ok (sent row), with_attempt draft uid committed t (with_message row db))
  unfolding commit_or_reject
  commits v free =
      let drawn : d.id ≡ draft = find_row-id (λ (r : Draft). r.id) draft db.drafts d here in
      rw
        (insert_message-append row db refl free (owner_of db.users draft db.drafts d v.owners here)
          (rw drawn (has_id-find_row (λ (r : Draft). r.id) draft db.drafts d here)))
        (rw (log_attempt-append draft uid committed t (with_message row db)) (
          rw (
            find_row-append (next_message db) row db.messages refl
              (find_row-next_id message_key db.messages))))

-- `send_message` is that transaction, on every database that db.py can leave.
pub send_message-eq-transact :
    (t : ℕ) (fresh : String) (draft : ℕ) (given : Option String) (db : Db)
    → IsValid db
    → send_message t fresh draft given db ≡ transact t (chosen_uid fresh given) draft db
unfolding send_message
send_message-eq-transact t fresh draft given db v =
    go (find_row (λ (d : Draft). d.id) draft db.drafts) refl
  where
    uid : String
    uid = chosen_uid fresh given

    go :
        (o : Option Draft)
        → find_row (λ (d : Draft). d.id) draft db.drafts ≡ o
        → send_found t uid draft o db ≡ transact_found t uid draft o db
    go none e = refl
    go (some d) e = elim (Bool-cases (str_eq d.status "saved")) [
      | inr no_save ↦ rw no_save
      | inl save ↦ elim (Bool-cases (uid_taken uid db.messages)) [
        | inl taken ↦ rw (save, taken) (rejects t uid draft d db e taken)
        | inr free ↦ rw (save, free) (commits t uid draft d db e v free)
      ]
    ]
