-- ===== src/Manifest.antt =====
-- btb/harness/manifest.py: the builder of a receipt and how it is written.
mod Builder
mod Writing
mod Traces
unfoldable pub use Traces.*
mod Evidence
mod Actions
mod Once
mod Refused
unfoldable pub use Builder.*
unfoldable pub use Writing.*
unfoldable pub use Actions.*
pub use Once.*
pub use Evidence.*
pub use Refused.*
mod Redacted
pub use Redacted.*
