-- ===== src/Inject.antt =====
-- btb/harness/inject.py: the proxy that forwards a send first, and drops the connection of one
-- verified commit.
mod Upstream
mod State
mod Threads
mod Receipts
pub mod Count
pub mod Flight
pub mod Drops
pub mod Quiet
pub mod Numbers
unfoldable pub use Upstream.*
unfoldable pub use State.*
unfoldable pub use Threads.*
unfoldable pub use Receipts.*
