-- ===== src/Study.antt =====
-- btb/harness/repetition.py: the plan of a repeated study and its execution.
mod Texts
mod Identity
mod Conditions
mod Bindings
mod Matrix
unfoldable pub use Texts.*
unfoldable pub use Identity.*
unfoldable pub use Conditions.*
unfoldable pub use Bindings.*
unfoldable pub use Matrix.*
mod Plan
unfoldable pub use Plan.*
mod Encoding
pub use Encoding.*
mod Rebuilt
pub use Rebuilt.*
mod Fields
mod Accepted
pub use Fields.*
pub use Accepted.*
mod Whole
pub use Whole.*
mod TextOrder
pub use TextOrder.*
mod Schedule
pub use Schedule.*
mod Opened
mod Receipts
unfoldable pub use Opened.*
unfoldable pub use Receipts.*
mod Execution
unfoldable pub use Execution.*
mod Execute
mod Partition
unfoldable pub use Execute.*
pub use Partition.*
mod Bound
pub use Bound.*
mod Unlisted
pub use Unlisted.*
