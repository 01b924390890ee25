-- ===== src/Attachments/Lifecycle.antt =====
-- The life of one attachment as a state machine, and that every operation moves every row along it.
pub mod Edges
pub mod Statements
pub mod Calls
pub mod Moves
pub mod Phases
pub mod Uploads
pub mod History
pub mod Outcomes
