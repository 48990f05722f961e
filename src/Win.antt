-- ===== src/Win.antt =====
-- src/win.rs: the NT status codes.
pub mod Laws
use cifs_client_stream.Common.{ℕ, List, [], ◌∷◌, Option, none, some, ◌==◌, if◌then◌else◌}

-- `enum NTStatus`.
pub data NtStatus : Type 0 where
  success invalid_smb bad_tid bad_command bad_uid non_standard buffer_overflow no_more_files :
      NtStatus
  stopped_on_symlink not_implemented invalid_parameter no_such_device no_such_file : NtStatus
  invalid_device_req more_processing access_denied buffer_too_small name_not_found : NtStatus
  name_collision path_not_found login_failure bad_impersonation io_timeout file_is_directory :
      NtStatus
  not_supported network_name_deleted user_session_deleted network_session_expired : NtStatus
  too_many_uids media_write_protected network_name_not_found directory_not_empty : NtStatus

-- `status as u32`: the discriminants.
unfoldable pub code : NtStatus → ℕ
code success = 0x00000000
code invalid_smb = 0x00010002
code bad_tid = 0x00050002
code bad_command = 0x00160002
code bad_uid = 0x005b0002
code non_standard = 0x00fb0002
code buffer_overflow = 0x80000005
code no_more_files = 0x80000006
code stopped_on_symlink = 0x8000002d
code not_implemented = 0xc0000002
code invalid_parameter = 0xc000000d
code no_such_device = 0xc000000e
code no_such_file = 0xc000000f
code invalid_device_req = 0xc0000010
code more_processing = 0xc0000016
code access_denied = 0xc0000022
code buffer_too_small = 0xc0000023
code name_not_found = 0xc0000034
code name_collision = 0xc0000035
code path_not_found = 0xc000003a
code login_failure = 0xc000006d
code bad_impersonation = 0xc00000a5
code io_timeout = 0xc00000b5
code file_is_directory = 0xc00000ba
code not_supported = 0xc00000bb
code network_name_deleted = 0xc00000c9
code user_session_deleted = 0xc0000203
code network_session_expired = 0xc000035c
code too_many_uids = 0xc000205a
code media_write_protected = 0xc00000a2
code network_name_not_found = 0xc00000cc
code directory_not_empty = 0xc0000101

-- The variants in the order of their declaration.
abbrev pub all_statuses : List NtStatus
all_statuses =
    success ∷ invalid_smb ∷ bad_tid ∷ bad_command ∷ bad_uid ∷ non_standard ∷ buffer_overflow
    ∷ no_more_files ∷ stopped_on_symlink ∷ not_implemented ∷ invalid_parameter ∷ no_such_device
    ∷ no_such_file ∷ invalid_device_req ∷ more_processing ∷ access_denied ∷ buffer_too_small
    ∷ name_not_found ∷ name_collision ∷ path_not_found ∷ login_failure ∷ bad_impersonation
    ∷ io_timeout ∷ file_is_directory ∷ not_supported ∷ network_name_deleted ∷ user_session_deleted
    ∷ network_session_expired ∷ too_many_uids ∷ media_write_protected ∷ network_name_not_found
    ∷ directory_not_empty ∷ []

-- The first of the listed variants whose discriminant is `n`.
unfoldable pub find_status : ℕ → List NtStatus → Option NtStatus
find_status n [] = none
find_status n (s ∷ ss) = if code s == n then some s else find_status n ss

-- `NTStatus::try_from(n)`, which `TryFromPrimitive` derives from the discriminants.
unfoldable pub try_from : ℕ → Option NtStatus
unfolding find_status code
try_from n = find_status n all_statuses
