-- ===== src/Db/Schema.antt =====
-- The tables of `_SCHEMA`, their constraints, and the exceptions of db.py. Keys are naturals: SQLite
-- counts them from 1, and the frozen definitions give no other. A time is `time.time()` in steps of
-- the clock. Every insert of db.py names a draft, so `messages.draft_id` is never NULL.
use browserbench.Prelude.{ℕ, String, Bool, not, ◌&&◌, ◌||◌, List, [], str_eq, if◌then◌else◌, any}
use browserbench.Table.{next_id, has_id, insert_row}

pub record User : Type 0 where
  pub id : ℕ
  pub name : String

pub record Draft : Type 0 where
  pub id : ℕ
  pub user_id : ℕ
  pub subject : String
  pub body : String
  pub status : String
  pub created_at : ℕ
  pub updated_at : ℕ

pub record Message : Type 0 where
  pub id : ℕ
  pub user_id : ℕ
  pub draft_id : ℕ
  pub subject : String
  pub body : String
  pub send_uid : String
  pub sent_at : ℕ

-- The two values that the column `outcome` is given.
pub data Outcome : Type 0 where
  committed duplicate_rejected : Outcome

pub record Attempt : Type 0 where
  pub id : ℕ
  pub draft_id : ℕ
  pub send_uid : String
  pub outcome : Outcome
  pub created_at : ℕ

pub record Db : Type 0 where
  pub users : List User
  pub drafts : List Draft
  pub messages : List Message
  pub send_attempts : List Attempt

-- The schema with no row.
abbrev pub empty_schema : Db
empty_schema = record { users = []; drafts = []; messages = []; send_attempts = [] }

pub data DbError : Type 0 where
  draft_not_found : ℕ → DbError
  draft_not_saved : ℕ → String → DbError
  constraint_check constraint_foreign_key constraint_primary_key constraint_unique assertion :
      DbError

pub data Result {ℓ} (A : Type ℓ) : Type ℓ where
  ok : A → Result A
  raise : DbError → Result A

-- CHECK (status IN ('new','saved'))
abbrev pub status_allowed : String → Bool
status_allowed s = str_eq s "new" || str_eq s "saved"

-- send_uid TEXT NOT NULL UNIQUE
unfoldable pub uid_taken : String → List Message → Bool
uid_taken uid rows = any (λ m. str_eq m.send_uid uid) rows

-- INSERT INTO drafts: the row constraints, then the foreign key at the end of the statement.
unfoldable pub insert_draft : Draft → Db → Result Db
insert_draft d db =
    if not (status_allowed d.status)
    then raise constraint_check
    else if has_id (λ (r : Draft). r.id) d.id db.drafts
    then raise constraint_primary_key
    else if not (has_id (λ (u : User). u.id) d.user_id db.users)
    then raise constraint_foreign_key
    else ok (record db { drafts = insert_row (λ (r : Draft). r.id) d db.drafts })

-- INSERT INTO messages
unfoldable pub insert_message : Message → Db → Result Db
unfolding uid_taken
insert_message m db =
    if has_id (λ (r : Message). r.id) m.id db.messages
    then raise constraint_primary_key
    else if uid_taken m.send_uid db.messages
    then raise constraint_unique
    else if not (
        has_id (λ (u : User). u.id) m.user_id db.users
        && has_id (λ (d : Draft). d.id) m.draft_id db.drafts)
    then raise constraint_foreign_key
    else ok (record db { messages = insert_row (λ (r : Message). r.id) m db.messages })

-- INSERT INTO send_attempts, a table with no constraint but its key.
unfoldable pub log_attempt : ℕ → String → Outcome → ℕ → Db → Db
log_attempt draft_id uid outcome t db =
    let row : Attempt = record {
      id = next_id (λ (a : Attempt). a.id) db.send_attempts;
      draft_id = draft_id;
      send_uid = uid;
      outcome = outcome;
      created_at = t;
    } in
    record db { send_attempts = insert_row (λ (a : Attempt). a.id) row db.send_attempts }
