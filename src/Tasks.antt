-- ===== src/Tasks.antt =====
-- btb/tasks/runner.py: the task runner, which resets the database to a task's initial state.
mod Definitions
mod Runner
pub mod Prepared
pub use Definitions.*
unfoldable pub use Runner.*
