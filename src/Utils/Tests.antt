-- ===== src/Utils/Tests.antt =====
-- A text with a character beyond 16 bits, and times.
use cifs_client_stream.Common.{ℕ, ◌≡◌, true, ◌≤◌, refl, [], ◌∷◌, ◌++◌, arith, ok, done}
use cifs_client_stream.Smb.Wire.Plain.{plain, plain-IsWire}
use cifs_client_stream.Utils.Unicode.{
  encode_utf16le_0, as_bytes, parse_utf16le_0, parse_str_0, is_char,
}
use cifs_client_stream.Utils.Unicode.Laws.Terminated.{IsText, parse_0-encode}

is_letter : (c : ℕ) → is_char c ≡ true → 1 ≤ c → IsText c
is_letter c h l = (h, λ e. absurd (omega (arith, e, l)))

parse_0-encode_example :
    (parse_utf16le_0 plain (encode_utf16le_0 (97 ∷ 0x1f600 ∷ []) ++ 1 ∷ [])
      ≡ done (ok (97 ∷ 0x1f600 ∷ []), 1 ∷ []))
    × (parse_str_0 plain (as_bytes (97 ∷ 0x1f600 ∷ []) ++ 0 ∷ 1 ∷ [])
        ≡ done (ok (97 ∷ 0x1f600 ∷ []), 1 ∷ []))
parse_0-encode_example =
    parse_0-encode plain plain-IsWire (97 ∷ 0x1f600 ∷ []) (1 ∷ [])
      (is_letter 97 refl (omega arith), (is_letter 0x1f600 refl (omega arith), tt))
