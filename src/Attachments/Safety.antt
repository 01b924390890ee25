-- ===== src/Attachments/Safety.antt =====
-- That the stored bytes of an attachment are never removed while it is there.
pub mod Blobs
pub mod Uploads
pub mod Stages
pub mod Claiming
pub mod History
