-- ===== src/Summary.antt =====
-- btb/harness/repetition_summary.py: the counts of a cell, and the publication of the two summaries.
mod Binding
mod Pair
unfoldable pub use Binding.*
unfoldable pub use Pair.*
mod Atomic
pub use Atomic.*
mod Returns
pub use Returns.*
mod Cell
unfoldable pub use Cell.*
mod Balanced
pub use Balanced.*
mod Signature
unfoldable pub use Signature.*
