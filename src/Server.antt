-- ===== src/Server.antt =====
-- btb/app/server.py: the HTTP routes of the message fixture over its database.
mod Routes
pub mod Guard
pub mod Serve
pub mod Atomic
unfoldable pub use Routes.*
