-- ===== src/Navigation.antt =====
-- btb/harness/engine.py: the navigation policy that keeps an agent on the origin of its fixture.
mod Origin
mod Policy
pub mod Inside
unfoldable pub use Origin.*
unfoldable pub use Policy.*
