-- ===== src/Db/History.antt =====
-- Runs of the handlers of db.py, in any order, from a database that `reset` has left.
use browserbench.Prelude.{
  ℕ, String, ◌≡◌, refl, ap, true, false, Option, none, some, List, [], ◌∷◌, ◌++◌, arith, str_eq,
  eq_iff,
}
use browserbench.Table.{next_id, find_row}
use browserbench.Db.Schema.{uid_taken, insert_draft, Draft, Db}
use browserbench.Db.Drafts.{
  reset, draft_row, chosen_id, inserted, seed_draft, created, create_draft, save_draft,
}
use browserbench.Db.Send.{chosen_uid, message_row, send_message}
use browserbench.Db.Invariant.{uid_taken-append, IsValid}
use browserbench.Db.Keeps.{
  seed_draft-IsValid, create_draft-IsValid, save_draft-IsValid, reset-IsValid,
}
use browserbench.Db.Commit.{next_message, transact_found, transact, send_message-eq-transact}
use browserbench.Db.Committed.{send_message-IsValid}

-- A call of a handler, with what the clock and `uuid4` answer.
pub data Call : Type 0 where
  seed : (t : ℕ) (subject body status : String) (user_id : ℕ) (draft_id : Option ℕ) → Call
  create : (t user_id : ℕ) (subject body status : String) → Call
  save : (t draft_id : ℕ) → Call
  send : (t : ℕ) (fresh : String) (draft_id : ℕ) (send_uid : Option String) → Call

-- The database that the call leaves.
unfoldable pub perform : Call → Db → Db
perform (seed t s b st u k) db = (seed_draft t s b st u k db).1
perform (create t u s b st) db = (create_draft t u s b st db).1
perform (save t k) db = (save_draft t k db).1
perform (send t fresh k uid) db = (send_message t fresh k uid db).1

unfoldable pub perform_all : List Call → Db → Db
perform_all [] db = db
perform_all (c ∷ cs) db = perform_all cs (perform c db)

pub perform-IsValid : (c : Call) (db : Db) → IsValid db → IsValid (perform c db)
unfolding perform
perform-IsValid (seed t s b st u k) db v = seed_draft-IsValid t s b st u k db v
perform-IsValid (create t u s b st) db v = create_draft-IsValid t u s b st db v
perform-IsValid (save t k) db v = save_draft-IsValid t k db v
perform-IsValid (send t fresh k uid) db v = send_message-IsValid t fresh k uid db v

pub perform_all-IsValid : (cs : List Call) (db : Db) → IsValid db → IsValid (perform_all cs db)
unfolding perform_all
perform_all-IsValid [] db v = v
perform_all-IsValid (c ∷ cs) db v = perform_all-IsValid cs (perform c db) (perform-IsValid c db v)

-- Whatever calls the fixture serves after a reset, whether they return or raise: keys ascend in
-- every table, every status is allowed and every owner exists, no two messages share a send uid,
-- every message copies a saved draft, and the committed attempts of the log are the messages, in
-- order.
pub history-IsValid :
    (name : String) (cs : List Call) (db : Db) → IsValid (perform_all cs (reset name db))
history-IsValid name cs db = perform_all-IsValid cs (reset name db) (reset-IsValid name db)

inserted-messages :
    (k : ℕ) (d : Draft) (db : Db) → (inserted k db (insert_draft d db)).1.messages ≡ db.messages
unfolding insert_draft
inserted-messages k d db = ground arith

created-messages :
    (k : ℕ) (d : Draft) (db : Db) → (created k db (insert_draft d db)).1.messages ≡ db.messages
unfolding insert_draft
created-messages k d db = ground arith

transact-keeps_taken :
    (t : ℕ) (uid : String) (draft : ℕ) (taken : String) (o : Option Draft) (db : Db)
    → uid_taken taken db.messages ≡ true
    → uid_taken taken (transact_found t uid draft o db).1.messages ≡ true
transact-keeps_taken t uid draft taken none db h = h
transact-keeps_taken t uid draft taken (some d) db h =
    ground
      (arith, uid_taken-append taken db.messages (message_row d uid t (next_message db) ∷ []), h)

pub perform-send :
    (t : ℕ) (fresh : String) (k : ℕ) (given : Option String) (db : Db)
    → IsValid db
    → perform (send t fresh k given) db ≡ (transact t (chosen_uid fresh given) k db).1
unfolding perform
perform-send t fresh k given db v = ap (λ p. p.1) (send_message-eq-transact t fresh k given db v)

perform-send-keeps_taken :
    (t : ℕ) (fresh : String) (k : ℕ) (given : Option String) (uid : String) (db : Db)
    → IsValid db
    → uid_taken uid db.messages ≡ true
    → uid_taken uid (perform (send t fresh k given) db).messages ≡ true
perform-send-keeps_taken t fresh k given uid db v h = rw (perform-send t fresh k given db v) (
    transact-keeps_taken t (chosen_uid fresh given) k uid
      (find_row (λ (d : Draft). d.id) k db.drafts) db h)

-- A committed uid stays committed.
pub perform-keeps_taken :
    (c : Call) (uid : String) (db : Db)
    → IsValid db
    → uid_taken uid db.messages ≡ true
    → uid_taken uid (perform c db).messages ≡ true
unfolding perform seed_draft create_draft save_draft
perform-keeps_taken (seed t s b st u k) uid db v h =
    rw (inserted-messages (chosen_id k db) (draft_row (chosen_id k db) u s b st t) db) h
perform-keeps_taken (create t u s b st) uid db v h =
    let k = next_id (λ (d : Draft). d.id) db.drafts in
    rw (created-messages k (draft_row k u s b st t) db) h
perform-keeps_taken (save t k) uid db v h = h
perform-keeps_taken (send t fresh k given) uid db v h =
    perform-send-keeps_taken t fresh k given uid db v h

pub perform_all-keeps_taken :
    (cs : List Call) (uid : String) (db : Db)
    → IsValid db
    → uid_taken uid db.messages ≡ true
    → uid_taken uid (perform_all cs db).messages ≡ true
unfolding perform_all
perform_all-keeps_taken [] uid db v h = h
perform_all-keeps_taken (c ∷ cs) uid db v h =
    perform_all-keeps_taken cs uid (perform c db) (perform-IsValid c db v)
      (perform-keeps_taken c uid db v h)

-- A send under a uid that is taken adds no message.
taken_adds_none :
    (t : ℕ) (uid : String) (k : ℕ) (o : Option Draft) (db : Db)
    → uid_taken uid db.messages ≡ true
    → (transact_found t uid k o db).1.messages ≡ db.messages
taken_adds_none t uid k none db h = refl
taken_adds_none t uid k (some d) db h = ground (arith, h)

-- A retry that repeats the uid of a committed message adds no message, whatever calls stand between
-- the two and whichever draft it names.
pub retry_idempotent :
    (cs : List Call) (t : ℕ) (fresh uid : String) (k : ℕ) (db : Db)
    → IsValid db
    → str_eq uid "" ≡ false
    → uid_taken uid db.messages ≡ true
    → (perform (send t fresh k (some uid)) (perform_all cs db)).messages
      ≡ (perform_all cs db).messages
retry_idempotent cs t fresh uid k db v filled taken =
    let later = perform_all cs db in
    let known : chosen_uid fresh (some uid) ≡ uid = unfold chosen_uid in rw filled in
    rw (perform-send t fresh k (some uid) later (perform_all-IsValid cs db v), known)
      (taken_adds_none t uid k (find_row (λ (d : Draft). d.id) k later.drafts) later
        (perform_all-keeps_taken cs uid db v taken))

-- A retry that mints a new uid is not protected: every call of a send of a saved draft under a uid
-- that no message has appends one message more, a copy of the draft.
pub fresh_retry_duplicates :
    (t : ℕ) (fresh : String) (k : ℕ) (d : Draft) (db : Db)
    → IsValid db
    → find_row (λ (r : Draft). r.id) k db.drafts ≡ some d
    → d.status ≡ "saved"
    → uid_taken fresh db.messages ≡ false
    → (perform (send t fresh k none) db).messages
      ≡ db.messages ++ message_row d fresh t (next_message db) ∷ []
fresh_retry_duplicates t fresh k d db v here saved free =
    let known : chosen_uid fresh none ≡ fresh = unfold chosen_uid in refl in
    rw (perform-send t fresh k none db v, known, here)
      (ground (arith, saved, free, (eq_iff d.status "saved").1 saved))
