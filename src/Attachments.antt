-- ===== src/Attachments.antt =====
-- VOID0000-api/server/attachments: the lifecycle of an uploaded file, from staging to the message
-- that carries it, and of the stored bytes behind it.
pub mod Rows
pub mod ObjectKeys
pub mod Triggers
pub mod References
pub mod Reserving
pub mod Writing
pub mod Expiring
pub mod Groups
pub mod Reconciling
pub mod Blobs
pub mod Collecting
pub mod Steps
pub mod Safety
pub mod Site
pub mod Lifecycle
pub mod EditPolicy
pub mod Tests
