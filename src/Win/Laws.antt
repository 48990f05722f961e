-- ===== src/Win/Laws.antt =====
-- The codes of src/win.rs: `try_from` inverts the discriminants.
use cifs_client_stream.Common.{ℕ, ◌≡◌, refl, List, [], ◌∷◌, some, arith}
use cifs_client_stream.Win.{NtStatus, code, find_status, try_from, all_statuses}
use cifs_client_stream.Win

find_status-code :
    (n : ℕ) (ss : List NtStatus) (s : NtStatus) → find_status n ss ≡ some s → code s ≡ n
unfolding find_status
find_status-code n [] s h = cc
find_status-code n (x ∷ ss) s h = ground (arith, find_status-code n ss s)

pub try_from-eq_some : (n : ℕ) (s : NtStatus) → try_from n ≡ some s → code s ≡ n
unfolding try_from
try_from-eq_some n s h = find_status-code n all_statuses s h

pub try_from-code : (s : NtStatus) → try_from (code s) ≡ some s
unfolding try_from
try_from-code Win.NtStatus.success = refl
try_from-code Win.NtStatus.invalid_smb = refl
try_from-code Win.NtStatus.bad_tid = refl
try_from-code Win.NtStatus.bad_command = refl
try_from-code Win.NtStatus.bad_uid = refl
try_from-code Win.NtStatus.non_standard = refl
try_from-code Win.NtStatus.buffer_overflow = refl
try_from-code Win.NtStatus.no_more_files = refl
try_from-code Win.NtStatus.stopped_on_symlink = refl
try_from-code Win.NtStatus.not_implemented = refl
try_from-code Win.NtStatus.invalid_parameter = refl
try_from-code Win.NtStatus.no_such_device = refl
try_from-code Win.NtStatus.no_such_file = refl
try_from-code Win.NtStatus.invalid_device_req = refl
try_from-code Win.NtStatus.more_processing = refl
try_from-code Win.NtStatus.access_denied = refl
try_from-code Win.NtStatus.buffer_too_small = refl
try_from-code Win.NtStatus.name_not_found = refl
try_from-code Win.NtStatus.name_collision = refl
try_from-code Win.NtStatus.path_not_found = refl
try_from-code Win.NtStatus.login_failure = refl
try_from-code Win.NtStatus.bad_impersonation = refl
try_from-code Win.NtStatus.io_timeout = refl
try_from-code Win.NtStatus.file_is_directory = refl
try_from-code Win.NtStatus.not_supported = refl
try_from-code Win.NtStatus.network_name_deleted = refl
try_from-code Win.NtStatus.user_session_deleted = refl
try_from-code Win.NtStatus.network_session_expired = refl
try_from-code Win.NtStatus.too_many_uids = refl
try_from-code Win.NtStatus.media_write_protected = refl
try_from-code Win.NtStatus.network_name_not_found = refl
try_from-code Win.NtStatus.directory_not_empty = refl
