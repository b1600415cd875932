-- ===== src/Json.antt =====
-- Python's JSON values as the oracle reads them: frozen task definitions (json.load of the files
-- under btb/tasks/definitions), columns of rows (`dict(row)`) and injection reports.
-- A dict is a list of its items with distinct keys. A float is an integer multiple of 2^-1074, the
-- spacing of the smallest doubles, so every finite double is one of them; NaN and the infinities
-- have no value here.
mod Values
mod Numbers
mod Reflexive
unfoldable pub use Values.*
unfoldable pub use Numbers.*
pub use Reflexive.*
