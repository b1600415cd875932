-- ===== src/Score.antt =====
-- btb/oracle/score.py: the evaluation of a run against the complete durable state.
mod Tables
mod Types
mod Contract
mod Forbidden
mod Content
mod ReadChecks
mod SaveChecks
mod SendChecks
mod Headlines
mod Reconcile
mod Evaluate
pub mod Clean
pub mod Rows
pub mod Send
pub mod Monotone
pub mod Exact
pub mod ReadOnly
pub mod SavedOnce
pub mod Verdict
pub mod Outcomes
pub mod Calibrated
pub mod Independence
pub mod Window
unfoldable pub use Types.*
unfoldable pub use Tables.*
unfoldable pub use Contract.*
unfoldable pub use Forbidden.*
unfoldable pub use Content.*
unfoldable pub use ReadChecks.*
unfoldable pub use SaveChecks.*
unfoldable pub use SendChecks.*
unfoldable pub use Headlines.*
unfoldable pub use Reconcile.*
unfoldable pub use Evaluate.*
