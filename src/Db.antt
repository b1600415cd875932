-- ===== src/Db.antt =====
-- btb/app/db.py: the authoritative SQLite database of the message fixture.
mod Schema
mod Drafts
mod Send
mod Queries
pub mod Invariant
pub mod Keeps
pub mod Commit
pub mod Committed
pub mod History
unfoldable pub use Schema.*
unfoldable pub use Drafts.{init_db, reset, seed_draft, create_draft, save_draft}
pub use Drafts.{draft_row, mark_saved, found_draft, created}
unfoldable pub use Send.{new_send_uid, chosen_uid, commit_or_reject, send_message}
pub use Send.{SendReply, sent, duplicate, message_row}
unfoldable pub use Queries.{
  full_snapshot, count_sent, messages, get_draft, get_drafts, draft_status, was_sent_once,
  duplicate_attempts, sends,
}
