-- ===== src/Db/Committed.antt =====
-- `send_message` of db.py keeps the database valid.
use mathlib.Core.List.{append-nil}
use browserbench.Prelude.{
  ℕ, String, ◌≡◌, refl, ap, ◌∙◌, inl, inr, true, false, Option, none, some, List, [], ◌∷◌, ◌++◌,
  arith, str_eq, eq_iff, Bool-cases, All-append,
}
use browserbench.Table.{
  next_id, find_row, IsAscending, insert_row-IsAscending, has_id-next_id, find_row-id,
  insert_row-next,
}
use browserbench.Db.Schema.{uid_taken, Draft, Attempt, Db, Outcome, committed, duplicate_rejected}
use browserbench.Db.Send.{chosen_uid, message_row, send_message}
use browserbench.Db.Invariant.{
  message_keys-append, committed_keys-append, HasDistinctUids-append, IsCopy, IsValid,
}
use browserbench.Db.Commit.{
  message_key, next_message, attempt_row, with_attempt, with_message, transact_found, transact,
  send_message-eq-transact,
}

with_attempt-ordered :
    (draft : ℕ) (uid : String) (o : Outcome) (t : ℕ) (rows : List Attempt)
    → IsAscending (λ (a : Attempt). a.id) 0 rows
    → IsAscending
        (λ (a : Attempt). a.id)
        0
        (rows ++ attempt_row draft uid o t (next_id (λ (a : Attempt). a.id) rows) ∷ [])
with_attempt-ordered draft uid o t rows h =
    let row = attempt_row draft uid o t (next_id (λ (a : Attempt). a.id) rows) in
    rw (← insert_row-next (λ (a : Attempt). a.id) row rows refl) (
      insert_row-IsAscending (λ (a : Attempt). a.id) 0 row rows (omega arith)
        (has_id-next_id (λ (a : Attempt). a.id) rows) h)

rejected-IsValid :
    (t : ℕ) (uid : String) (draft : ℕ) (db : Db)
    → IsValid db
    → IsValid (with_attempt draft uid duplicate_rejected t db)
rejected-IsValid t uid draft db v = record {
  drafts_ordered = v.drafts_ordered;
  messages_ordered = v.messages_ordered;
  attempts_ordered =
      with_attempt-ordered draft uid duplicate_rejected t db.send_attempts v.attempts_ordered;
  statuses = v.statuses;
  owners = v.owners;
  distinct_uids = v.distinct_uids;
  copies = v.copies;
  audited = rw (committed_keys-append, append-nil) v.audited;
}

committed-IsValid :
    (t : ℕ) (uid : String) (draft : ℕ) (d : Draft) (db : Db)
    → find_row (λ (r : Draft). r.id) draft db.drafts ≡ some d
    → str_eq d.status "saved" ≡ true
    → uid_taken uid db.messages ≡ false
    → IsValid db
    → IsValid (
        with_attempt draft uid committed t
          (with_message (message_row d uid t (next_message db)) db))
committed-IsValid t uid draft d db here saved free v =
    let row = message_row d uid t (next_message db) in
    let drawn : d.id ≡ draft = find_row-id (λ (r : Draft). r.id) draft db.drafts d here in
    record {
      drafts_ordered = v.drafts_ordered;
      messages_ordered = rw (← insert_row-next message_key row db.messages refl) (
          insert_row-IsAscending message_key 0 row db.messages (omega arith)
            (has_id-next_id message_key db.messages) v.messages_ordered);
      attempts_ordered =
          with_attempt-ordered draft uid committed t db.send_attempts v.attempts_ordered;
      statuses = v.statuses;
      owners = v.owners;
      distinct_uids = HasDistinctUids-append db.messages row free v.distinct_uids;
      copies = All-append (IsCopy db.drafts) db.messages (row ∷ []) v.copies (
        record {
          source = d;
          found = ap (λ k. find_row (λ (r : Draft). r.id) k db.drafts) drawn ∙ here;
          saved = (eq_iff d.status "saved").0 saved;
          same_user = refl;
          same_subject = refl;
          same_body = refl;
        },
        tt,
      );
      audited = rw (committed_keys-append, message_keys-append, v.audited, drawn);
    }

transact-IsValid :
    (t : ℕ) (uid : String) (draft : ℕ) (db : Db) → IsValid db → IsValid (transact t uid draft db).1
transact-IsValid t uid draft db v = go (find_row (λ (d : Draft). d.id) draft db.drafts) refl
  where
    go :
        (o : Option Draft)
        → find_row (λ (d : Draft). d.id) draft db.drafts ≡ o
        → IsValid (transact_found t uid draft o db).1
    go none e = v
    go (some d) e = elim (Bool-cases (str_eq d.status "saved")) [
      | inr no_save ↦ rw no_save v
      | inl save ↦ elim (Bool-cases (uid_taken uid db.messages)) [
        | inl taken ↦ rw (save, taken) (rejected-IsValid t uid draft db v)
        | inr free ↦ rw (save, free) (committed-IsValid t uid draft d db e save free v)
      ]
    ]

pub send_message-IsValid :
    (t : ℕ) (fresh : String) (draft : ℕ) (given : Option String) (db : Db)
    → IsValid db
    → IsValid (send_message t fresh draft given db).1
send_message-IsValid t fresh draft given db v =
    rw (send_message-eq-transact t fresh draft given db v)
      (transact-IsValid t (chosen_uid fresh given) draft db v)
