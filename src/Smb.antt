-- ===== src/Smb.antt =====
-- src/smb.rs: the SMB1 messages.
pub mod Wire
pub mod Info
pub mod Frame
pub mod Reply
pub mod Msg
pub mod Trans2
mod Tests
pub mod Codes
pub mod Handle
pub mod Laws
pub mod Collector
