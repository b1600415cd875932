-- ===== src/Db/Queries.antt =====
-- The read-only views of db.py.
use mathlib.Core.Option
use browserbench.Prelude.{ℕ, String, Bool, true, false, Option, List, map, ◌==◌, length, filter}
use browserbench.Table.{find_row}
use browserbench.Db.Schema.{
  uid_taken, Draft, Message, Attempt, Db, Outcome, committed, duplicate_rejected,
}

-- The four tables of one transaction, each ordered by its key.
unfoldable pub full_snapshot : Db → Db
full_snapshot db = record {
  users = db.users;
  drafts = db.drafts;
  messages = db.messages;
  send_attempts = db.send_attempts;
}

unfoldable pub count_sent : (user_id : ℕ) → Db → ℕ
count_sent user_id db = length (filter (λ (m : Message). m.user_id == user_id) db.messages)

unfoldable pub messages : Db → List Message
messages db = db.messages

unfoldable pub get_draft : (draft_id : ℕ) → Db → Option Draft
get_draft draft_id db = find_row (λ (d : Draft). d.id) draft_id db.drafts

unfoldable pub get_drafts : Db → List Draft
get_drafts db = db.drafts

unfoldable pub draft_status : (draft_id : ℕ) → Db → Option String
unfolding get_draft
draft_status draft_id db = Option.map (λ d. d.status) (get_draft draft_id db)

unfoldable pub was_sent_once : (send_uid : String) → Db → Bool
unfolding uid_taken
was_sent_once send_uid db = uid_taken send_uid db.messages

abbrev pub is_rejected : Attempt → Bool
is_rejected a = elim a.outcome [ committed ↦ false | duplicate_rejected ↦ true ]

unfoldable pub duplicate_attempts : Db → List Attempt
duplicate_attempts db = filter is_rejected db.send_attempts

unfoldable pub sends : Db → List (ℕ × String × Outcome)
sends db = map (λ (a : Attempt). (a.draft_id, a.send_uid, a.outcome)) db.send_attempts
