-- ===== src/Ffi/Listing.antt =====
-- Listings through the C interface (src/ffi.rs): what is asked for, and the JSON text for the caller.
pub mod Laws
use cifs_client_stream.Common.{
  ℕ, ◌++◌, List, [], ◌∷◌, Option, none, some, Bool, ◌==◌, ◌&&◌, ◌||◌, if◌then◌else◌, min, Run, done,
  fails, panics, and_then,
}
use cifs_client_stream.Media.{MediaEntry}
use cifs_client_stream.Media.Names.{Name, same_name, trim_start, trim_end}
use cifs_client_stream.Ntlm.Auth.{Auth}
use cifs_client_stream.Stream.Buffer.{is_nil}
use cifs_client_stream.Ffi.Text.{codes, string_into_raw}
use cifs_client_stream.Ffi.Json.{format_list_json, json_error}

-- `normalize_max_entries`, with its two constants.
unfoldable pub normalize_max_entries : ℕ → ℕ
normalize_max_entries max_entries = if max_entries == 0 then 30 else min max_entries 100

-- `trim_end_matches('/')`, and `list_pattern`.
unfoldable pub trim_slashes : Name → Name
trim_slashes [] = []
trim_slashes (c ∷ cs) =
    let rest = trim_slashes cs in if c == 0x2f && is_nil rest then [] else c ∷ rest

unfoldable pub list_pattern : Name → Name
unfolding trim_slashes
list_pattern path =
    let trimmed = trim_end (trim_start path) in
    if is_nil trimmed || same_name trimmed (codes "/")
    then codes "*"
    else trim_slashes trimmed ++ codes "/*"

-- `auth_for_host`.
unfoldable pub auth_for_host : Name → Name → Name → Option Auth
auth_for_host host user password =
    if is_nil user
    then none
    else some
        (record { user = user; workstation = codes "APEXTVOS"; domain = host; password = password })

-- The end of `cifs_client_stream_smb_list_json` and of `cifs_client_stream_session_list_json`: an error
-- and a caught panic become a JSON text too, and `string_into_raw` is not under `catch_unwind`.
unfoldable pub reply_json : {E : Type 0} → Name → Run Name Name → Run E Name
reply_json operation (done message) = string_into_raw message
reply_json operation (fails message) = string_into_raw (json_error operation message)
reply_json operation panics = string_into_raw (json_error operation (codes "Rust panic was caught"))

-- `run_session_list_json` behind the listing.
unfoldable pub session_list_json :
    {E : Type 0} → Name → Name → Name → ℕ → ℕ → Run Name (List MediaEntry) → Run E Name
unfolding reply_json normalize_max_entries
session_list_json host share path max_entries elapsed_ms listing =
    reply_json (codes "session_list_json") (
      and_then listing λ entries. done (
        format_list_json host share path entries (normalize_max_entries max_entries) none
          (some elapsed_ms)))

-- `run_smb_list_json` behind the listing, with the warning of the unmount.
unfoldable pub smb_list_json :
    {E : Type 0}
    → Name
    → Name
    → Name
    → ℕ
    → ℕ
    → Option Name
    → Run Name (List MediaEntry)
    → Run E Name
unfolding reply_json normalize_max_entries
smb_list_json host share path max_entries elapsed_ms umount_warning listing =
    reply_json (codes "smb_list_json") (
      and_then listing λ entries. done (
        format_list_json host share path entries (normalize_max_entries max_entries) umount_warning
          (some elapsed_ms)))
