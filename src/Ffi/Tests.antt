-- ===== src/Ffi/Tests.antt =====
-- A text that needs escapes, and a listing whose name has a NUL.
use cifs_client_stream.Common.{◌≡◌, ◌+◌, ◌++◌, [], ◌∷◌, none, some, done, drop, length}
use cifs_client_stream.Media.{MediaEntry, audio}
use cifs_client_stream.Media.Names.{Name}
use cifs_client_stream.Ffi.Text.{codes}
use cifs_client_stream.Ffi.Json.{push_json_string}
use cifs_client_stream.Ffi.Json.Laws.{plain, read_string, push_json_string_roundtrip}
use cifs_client_stream.Ffi.Listing.{session_list_json, smb_list_json}
use cifs_client_stream.Ffi.Listing.Laws.{GetsText, list_json-GetsText}

-- A quote, a backslash, a line feed, a control character and an accented letter.
abbrev marks : Name
marks = 0x22 ∷ 0x5c ∷ 0x0a ∷ 0x1f ∷ 0xe9 ∷ []

push_json_string_roundtrip_example :
    read_string plain
      (drop (length (codes "k:") + 1) (push_json_string (codes "k:") marks ++ codes ",1"))
    ≡ some (marks, codes ",1")
push_json_string_roundtrip_example = push_json_string_roundtrip (codes "k:") marks (codes ",1")

abbrev track : MediaEntry
track = record { name = 0x61 ∷ 0 ∷ codes ".mp3"; size = 12; kind = audio }

list_json-GetsText_example :
    GetsText {E = Name}
      (session_list_json (codes "nas") (codes "music") (codes "/") 0 7 (done (track ∷ [])))
    × GetsText {E = Name}
        (smb_list_json (codes "nas") (codes "music") (codes "/") 0 7 none (done (track ∷ [])))
list_json-GetsText_example =
    list_json-GetsText (codes "nas") (codes "music") (codes "/") 0 7 none (done (track ∷ []))
