-- ===== src/Table.antt =====
-- An SQLite rowid table of btb/app/db.py: rows in ascending order of their INTEGER PRIMARY KEY,
-- so that `SELECT * FROM t ORDER BY id` is the list itself.
mod Order
unfoldable pub use Order.*
