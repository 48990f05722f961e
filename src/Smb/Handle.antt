-- ===== src/Smb/Handle.antt =====
-- `Handle` of src/smb/reply.rs: an open file or directory, as the reply to Create describes it.
use cifs_client_stream.Common.{ℕ, Bool}

-- The flag sets (`oplock`, `disposition`, `attributes`, `file_type`) are their bits.
pub record Handle : Type 0 where
  pub tid : ℕ
  pub fid : ℕ
  pub oplock : ℕ
  pub disposition : ℕ
  pub create_time : ℕ
  pub access_time : ℕ
  pub write_time : ℕ
  pub change_time : ℕ
  pub attributes : ℕ
  pub allocation_size : ℕ
  pub size : ℕ
  pub file_type : ℕ
  pub directory : Bool
