-- ===== src/Audit.antt =====
-- btb/harness/validate_manifest.py: the second derivation of an evaluation from a receipt.
mod Status
mod Derived
pub mod Terms
pub mod Confirms
pub mod Agrees
unfoldable pub use Status.*
unfoldable pub use Derived.*
