-- ===== src/Database.antt =====
-- The database of delfin/db/sqlalchemy/api.py as the resource synchronization uses it: rows, the
-- bulk operations on a table, and the calls for each model.
-- An identifier (uuid, native id, storage id) is only compared, so it is a number. A table is a
-- list of rows; what a query returns is in the order that the database gives it.
mod Rows
mod Session
pub mod Lookup
pub mod Permuted
pub mod Sorting
pub mod SortParams
pub mod Paging
pub mod Pages
pub mod Bulk
mod Hardware
mod Files
mod Hosts
mod Tests
unfoldable pub use Rows.*
unfoldable pub use Session.*
unfoldable pub use Hardware.*
unfoldable pub use Files.*
unfoldable pub use Hosts.*
