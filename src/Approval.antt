-- ===== src/Approval.antt =====
-- src/approval.rs: the one-use approval of a call by the user.
pub mod Queue
pub mod Window
