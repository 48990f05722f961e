-- ===== src/Smb/Codes.antt =====
-- The command and status codes of an SMB header (src/smb/info.rs), and the errors of the message
-- layer (src/smb/error.rs).
use cifs_client_stream.Common.{
  ℕ, String, Bool, true, false, List, [], ◌∷◌, Option, none, some, ◌==◌, if◌then◌else◌, Result, ok,
  err,
}
use cifs_client_stream.Win
use cifs_client_stream.Win.{NtStatus}

-- `enum Cmd`.
pub data Cmd : Type 0 where
  close read transact2 tree_disconnect negotiate session_setup tree_connect create no_command : Cmd

-- `cmd as u8`.
unfoldable pub code : Cmd → ℕ
code close = 0x04
code read = 0x2e
code transact2 = 0x32
code tree_disconnect = 0x71
code negotiate = 0x72
code session_setup = 0x73
code tree_connect = 0x75
code create = 0xa2
code no_command = 0xff

abbrev pub all_cmds : List Cmd
all_cmds =
    close ∷ read ∷ transact2 ∷ tree_disconnect ∷ negotiate ∷ session_setup ∷ tree_connect ∷ create
    ∷ no_command ∷ []

unfoldable pub find_cmd : ℕ → List Cmd → Option Cmd
find_cmd n [] = none
find_cmd n (c ∷ cs) = if code c == n then some c else find_cmd n cs

-- `smb::Error`.
pub data SmbError : Type 0 where
  invalid_header invalid_data : SmbError
  invalid_command : ℕ → SmbError
  no_dialect need_security_ext reply_expected : SmbError
  create_packet reassemble unsupported : String → SmbError

-- `Cmd::try_from(n)`, with `From<TryFromPrimitiveError<Cmd>> for Error`.
unfoldable pub try_from : ℕ → Result SmbError Cmd
unfolding find_cmd code
try_from n = elim (find_cmd n all_cmds) [ some c ↦ ok c | none ↦ err (invalid_command n) ]

-- `enum Status`.
pub data Status : Type 0 where
  known : NtStatus → Status
  unknown : ℕ → Status

-- `From<u32> for Status`.
unfoldable pub status_of : ℕ → Status
unfolding Win.try_from
status_of n = elim (Win.try_from n) [ some s ↦ known s | none ↦ unknown n ]

-- `From<Status> for u32`.
unfoldable pub status_code : Status → ℕ
unfolding Win.code
status_code (known s) = Win.code s
status_code (unknown n) = n

-- `Status::is_success`, and `is_failure`.
pub is_success : Status → Bool
is_success (known NtStatus.success) = true
is_success _ = false

pub is_failure : Status → Bool
is_failure s = if is_success s then false else true
