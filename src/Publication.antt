-- ===== src/Publication.antt =====
-- btb/harness/repetition.py: how the parent publishes a staged receipt with its artifacts, and how
-- it takes back what it has linked when a call fails.
mod Commit
mod Names
mod Rollback
mod Complete
unfoldable pub use Commit.*
unfoldable pub use Names.*
pub use Rollback.*
pub use Complete.*
