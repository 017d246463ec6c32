-- ===== src/Accounts.antt =====
-- The roles, status and deletion of accounts: libs/features/admin and libs/features/users.
pub mod Admin
pub mod Deletion
pub mod Finalize
pub mod ProfileImages
pub mod StoredFiles
