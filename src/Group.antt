-- ===== src/Group.antt =====
-- Group conversations: who may do what, who belongs, and who owns.
pub mod Permissions
pub mod Rows
pub mod Owners
pub mod Members
pub mod Roles
pub mod Samples
pub mod Tests
