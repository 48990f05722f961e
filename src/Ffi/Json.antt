-- ===== src/Ffi/Json.antt =====
-- The JSON of the C interface (src/ffi.rs).
pub mod Laws
pub mod Printable
use cifs_client_stream.Common.{
  ℕ, zero, suc, ◌+◌, ◌/◌, ◌%◌, ◌++◌, List, [], ◌∷◌, Option, none, some, Bool, true, false, ltb, leb,
  ◌==◌, if◌then◌else◌, min, length, take,
}
use cifs_client_stream.Media.{MediaEntry, is_folder, is_audio, is_video}
use cifs_client_stream.Media.Names.{Name, trim_start, trim_end}
use cifs_client_stream.Stream.Buffer.{is_nil}
use cifs_client_stream.Ffi.Text.{codes, decimal}

-- A hexadecimal digit in lower case.
abbrev pub hex_digit : ℕ → ℕ
hex_digit d = if ltb d 10 then 48 + d else 87 + d

-- What `push_json_string` writes for a character.
unfoldable pub escape : ℕ → Name
escape c =
    if c == 0x22
    then 0x5c ∷ 0x22 ∷ []
    else if c == 0x5c
    then 0x5c ∷ 0x5c ∷ []
    else if c == 0x0a
    then 0x5c ∷ 0x6e ∷ []
    else if c == 0x0d
    then 0x5c ∷ 0x72 ∷ []
    else if c == 0x09
    then 0x5c ∷ 0x74 ∷ []
    else if leb c 0x1f
    then 0x5c ∷ 0x75 ∷ 0x30 ∷ 0x30 ∷ hex_digit (c / 16) ∷ hex_digit (c % 16) ∷ []
    else c ∷ []

unfoldable pub push_escaped : Name → Name → Name
push_escaped out [] = out
push_escaped out (c ∷ cs) = push_escaped (out ++ escape c) cs

-- `push_json_string`.
unfoldable pub push_json_string : Name → Name → Name
unfolding push_escaped
push_json_string out value = push_escaped (out ++ 0x22 ∷ []) value ++ 0x22 ∷ []

-- `entry_kind` and `normalize_display_path`.
unfoldable pub entry_kind : MediaEntry → Name
entry_kind entry =
    if is_folder entry
    then codes "folder"
    else if is_audio entry
    then codes "audio"
    else if is_video entry
    then codes "video"
    else codes "media"

unfoldable pub normalize_display_path : Name → Name
normalize_display_path path =
    let trimmed = trim_end (trim_start path) in if is_nil trimmed then codes "/" else trimmed

-- A member of an object that is a text, with what stands before it, and one that is a number.
unfoldable pub push_text : Name → Name → Name → Name
unfolding push_json_string
push_text out key value = push_json_string (out ++ key) value

unfoldable pub push_number : Name → Name → ℕ → Name
push_number out key value = (out ++ key) ++ decimal value

abbrev pub push_some_number : Name → Name → Option ℕ → Name
push_some_number out key none = out
push_some_number out key (some n) = push_number out key n

abbrev pub push_some_text : Name → Name → Option Name → Name
push_some_text out key none = out
push_some_text out key (some text) = push_text out key text

-- The loop over the entries.
unfoldable pub push_entry : Name → MediaEntry → Name
unfolding push_text push_number entry_kind
push_entry out entry =
    push_number
      (push_text (push_text (out ++ codes "{") (codes "\"name\":") entry.name) (codes ",\"kind\":")
        (entry_kind entry))
      (codes ",\"size\":") entry.size
    ++ codes "}"

unfoldable pub push_entries : Bool → Name → List MediaEntry → Name
unfolding push_entry
push_entries first out [] = out
push_entries first out (e ∷ es) =
    push_entries false (push_entry (if first then out else out ++ codes ",") e) es

-- `format_list_json`.
unfoldable pub format_list_json :
    Name → Name → Name → List MediaEntry → ℕ → Option Name → Option ℕ → Name
unfolding push_text push_number push_entries normalize_display_path
format_list_json host share path entries max_entries umount_warning elapsed_ms =
    let head =
      push_number
        (push_number
          (push_text
            (push_text (push_text (codes "{\"status\":\"ok\"") (codes ",\"host\":") host)
              (codes ",\"share\":") share)
            (codes ",\"path\":") (normalize_display_path path))
          (codes ",\"entries_total\":") (length entries))
        (codes ",\"entries_returned\":") (min (length entries) max_entries) in
    let timed = push_some_number head (codes ",\"elapsed_ms\":") elapsed_ms in
    let warned = push_some_text timed (codes ",\"umount_warning\":") umount_warning in
    push_entries true (warned ++ codes ",\"entries\":[") (take max_entries entries) ++ codes "]}"

-- `json_error`.
unfoldable pub json_error : Name → Name → Name
unfolding push_text
json_error operation message =
    push_text (push_text (codes "{\"status\":\"error\"") (codes ",\"operation\":") operation)
      (codes ",\"message\":") message
    ++ codes "}"
