-- ===== src/Db.antt =====
-- The tables of prisma/schema.prisma that the modelled code reads and writes, a record for a row
-- and a list of rows for a table. Ids, hashes, e-mails and other texts that the code only compares
-- are numbers, dates are milliseconds, and a nullable column is an option. The columns createdAt and
-- updatedAt, which no modelled operation reads or writes, are left out.
mod Rows
pub mod Queries
pub mod Client
pub mod Retry
pub mod Samples
unfoldable pub use Rows.*
