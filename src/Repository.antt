-- ===== src/Repository.antt =====
-- internal/repository: the operations of PostgresRepository on the tables.
pub mod Store
pub mod Targets
pub mod Retry
pub mod Dosing
pub mod Pending
pub mod Quota
pub mod Attempts
pub mod Lifecycle
pub mod Queries
pub mod Replies
pub mod Campaigns
pub mod Mappings
pub mod Uploads
