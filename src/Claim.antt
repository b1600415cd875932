-- ===== src/Claim.antt =====
-- btb/oracle/claim.py: the agent's final answer, read strictly.
mod Types
mod Heuristic
mod Parse
pub mod Strict
pub use Types.*
unfoldable pub use Heuristic.*
unfoldable pub use Parse.*
pub mod Accept
