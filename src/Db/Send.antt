-- ===== src/Db/Send.antt =====
-- `new_send_uid` and `send_message` of db.py.
use browserbench.Prelude.{ℕ, String, not, Option, none, some, str_eq, if◌then◌else◌}
use Prim.Native.String.{slice}
use browserbench.Table.{next_id, find_row}
use browserbench.Db.Schema.{
  uid_taken, insert_message, log_attempt, Draft, Message, Db, committed, duplicate_rejected,
  draft_not_found, draft_not_saved, constraint_unique, assertion, Result, ok, raise,
}

-- `digest` stands for the hexadecimal SHA-256 of the seed, `fresh` for `uuid.uuid4().hex`; both are
-- cut to 32 characters.
unfoldable pub new_send_uid : (digest : String → String) (fresh : String) → Option String → String
new_send_uid digest fresh none = slice fresh 0 32
new_send_uid digest fresh (some seed) = slice (digest seed) 0 32

pub data SendReply : Type 0 where
  sent : Message → SendReply
  duplicate : String → SendReply

-- send_uid or new_send_uid()
unfoldable pub chosen_uid : (fresh : String) → Option String → String
chosen_uid fresh none = fresh
chosen_uid fresh (some uid) = if str_eq uid "" then fresh else uid

abbrev pub message_row : Draft → String → ℕ → ℕ → Message
message_row d uid t k = record {
  id = k;
  user_id = d.user_id;
  draft_id = d.id;
  subject = d.subject;
  body = d.body;
  send_uid = uid;
  sent_at = t;
}

-- The reply to a committed insert, with the row that is selected back.
abbrev pub confirm : Option Message → Result SendReply
confirm (some m) = ok (sent m)
confirm none = raise assertion

-- The INSERT of a saved draft and its `except sqlite3.IntegrityError`: only a UNIQUE hit with a
-- colliding row becomes a rejected duplicate, any other failure is rolled back and raised again.
unfoldable pub commit_or_reject : ℕ → String → ℕ → Db → Result Db → Result SendReply × Db
unfolding log_attempt uid_taken
commit_or_reject t uid draft_id db (ok db') =
    let k = next_id (λ (m : Message). m.id) db.messages in
    let final = log_attempt draft_id uid committed t db' in
    (confirm (find_row (λ (m : Message). m.id) k final.messages), final)
commit_or_reject t uid draft_id db (raise constraint_unique) =
    if uid_taken uid db.messages
    then (ok (duplicate uid), log_attempt draft_id uid duplicate_rejected t db)
    else (raise constraint_unique, db)
commit_or_reject t uid draft_id db (raise e) = (raise e, db)

unfoldable pub send_found : ℕ → String → ℕ → Option Draft → Db → Result SendReply × Db
send_found t uid draft_id none db = (raise (draft_not_found draft_id), db)
send_found t uid draft_id (some d) db =
    if not (str_eq d.status "saved")
    then (raise (draft_not_saved draft_id d.status), db)
    else (let k = next_id (λ (m : Message). m.id) db.messages in
        commit_or_reject t uid draft_id db (insert_message (message_row d uid t k) db))

unfoldable pub send_message :
    (t : ℕ) (fresh : String) (draft_id : ℕ) (send_uid : Option String) → Db → Result SendReply × Db
unfolding send_found
send_message t fresh draft_id send_uid db =
    send_found t (chosen_uid fresh send_uid) draft_id
      (find_row (λ (d : Draft). d.id) draft_id db.drafts) db
