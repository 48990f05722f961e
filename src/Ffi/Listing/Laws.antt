-- ===== src/Ffi/Listing/Laws.antt =====
-- The caller always gets a JSON text.
use cifs_client_stream.Common.{ℕ, ◌≡◌, List, Option, none, some, Run, done, fails, panics}
use cifs_client_stream.Media.{MediaEntry}
use cifs_client_stream.Media.Names.{Name}
use cifs_client_stream.Ffi.Text.{codes}
use cifs_client_stream.Ffi.Json.{format_list_json, json_error}
use cifs_client_stream.Ffi.Json.Printable.{
  Printable, json_error-Printable, format_list_json-Printable, to_caller,
}
use cifs_client_stream.Ffi.Listing.{
  reply_json, session_list_json, smb_list_json, normalize_max_entries,
}

-- The caller gets a text without control characters.
pub record GetsText {E : Type 0} (r : Run E Name) : Type 0 where
  reply : Name
  given : r ≡ done reply
  printable : Printable reply

error-GetsText :
    {E : Type 0} (operation message : Name)
    → GetsText {E = E} (reply_json operation (fails message))
unfolding reply_json
error-GetsText operation message = record {
  reply = json_error operation message;
  given = to_caller _ (json_error-Printable operation message);
  printable = json_error-Printable operation message;
}

-- Whatever names the server sends, and whether the listing succeeds, fails or panics, both JSON
-- listings return to their caller: they give a text without a control character, so without the NUL at
-- which `string_into_raw` panics.
pub list_json-GetsText :
    {E : Type 0} (host share path : Name) (max ms : ℕ) (warning : Option Name)
    (listing : Run Name (List MediaEntry))
    → GetsText {E = E} (session_list_json host share path max ms listing)
      × GetsText {E = E} (smb_list_json host share path max ms warning listing)
unfolding session_list_json smb_list_json reply_json
list_json-GetsText host share path max ms warning (done entries) =
    let shown = normalize_max_entries max in
    let one = format_list_json-Printable host share path entries shown none (some ms) in
    let two = format_list_json-Printable host share path entries shown warning (some ms) in
    (
      record {
        reply = format_list_json host share path entries shown none (some ms);
        given = to_caller _ one;
        printable = one;
      },
      record {
        reply = format_list_json host share path entries shown warning (some ms);
        given = to_caller _ two;
        printable = two;
      },
    )
list_json-GetsText host share path max ms warning (fails message) = (
  error-GetsText (codes "session_list_json") message,
  error-GetsText (codes "smb_list_json") message,
)
list_json-GetsText host share path max ms warning panics = (
  error-GetsText (codes "session_list_json") (codes "Rust panic was caught"),
  error-GetsText (codes "smb_list_json") (codes "Rust panic was caught"),
)
