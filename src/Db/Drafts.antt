-- ===== src/Db/Drafts.antt =====
-- Set-up and the draft handlers of db.py. `t` is what `_now()` returns. A handler gives its result
-- and the database that it leaves; a connection closed by an exception has committed nothing.
use browserbench.Prelude.{ℕ, String, Option, none, some, List, [], ◌∷◌, if◌then◌else◌, is_empty}
use browserbench.Table.{next_id, find_row, insert_row, update_row}
use browserbench.Db.Schema.{
  empty_schema, insert_draft, User, Draft, Db, draft_not_found, Result, ok, raise,
}

abbrev pub user_row : List User → String → User
user_row rows name = record { id = next_id (λ (u : User). u.id) rows; name = name }

-- `CREATE TABLE IF NOT EXISTS` keeps the tables that stand.
unfoldable pub init_db : Option String → Db → Db
init_db none db = db
init_db (some name) db =
    if is_empty db.users
    then record db { users = insert_row (λ (u : User). u.id) (user_row db.users name) db.users }
    else db

unfoldable pub reset : String → Db → Db
reset name _ = record empty_schema { users = user_row [] name ∷ [] }

abbrev pub draft_row : ℕ → ℕ → String → String → String → ℕ → Draft
draft_row id user_id subject body status t = record {
  id = id;
  user_id = user_id;
  subject = subject;
  body = body;
  status = status;
  created_at = t;
  updated_at = t;
}

-- The key that is given, or the next one.
abbrev pub chosen_id : Option ℕ → Db → ℕ
chosen_id none db = next_id (λ (d : Draft). d.id) db.drafts
chosen_id (some k) db = k

-- The state after a statement that may raise, with the key of the new row.
abbrev pub inserted : ℕ → Db → Result Db → Result ℕ × Db
inserted k db (ok db') = (ok k, db')
inserted k db (raise e) = (raise e, db)

unfoldable pub seed_draft :
    (t : ℕ) (subject body status : String) (user_id : ℕ) (draft_id : Option ℕ) → Db → Result ℕ × Db
unfolding insert_draft
seed_draft t subject body status user_id draft_id db =
    let k = chosen_id draft_id db in
    inserted k db (insert_draft (draft_row k user_id subject body status t) db)

-- The row that the handler selects back after its commit.
abbrev pub created : ℕ → Db → Result Db → Result (Option Draft) × Db
created k db (ok db') = (ok (find_row (λ (d : Draft). d.id) k db'.drafts), db')
created k db (raise e) = (raise e, db)

unfoldable pub create_draft :
    (t : ℕ) (user_id : ℕ) (subject body status : String) → Db → Result (Option Draft) × Db
unfolding insert_draft
create_draft t user_id subject body status db =
    let k = next_id (λ (d : Draft). d.id) db.drafts in
    created k db (insert_draft (draft_row k user_id subject body status t) db)

abbrev pub mark_saved : ℕ → Draft → Draft
mark_saved t d = record d { status = "saved"; updated_at = t }

abbrev pub found_draft : ℕ → Option Draft → Result Draft
found_draft k none = raise (draft_not_found k)
found_draft k (some d) = ok d

unfoldable pub save_draft : (t : ℕ) (draft_id : ℕ) → Db → Result Draft × Db
save_draft t draft_id db =
    let db' : Db = record db {
      drafts = update_row (λ (d : Draft). d.id) draft_id (mark_saved t) db.drafts;
    } in
    (found_draft draft_id (find_row (λ (d : Draft). d.id) draft_id db'.drafts), db')
