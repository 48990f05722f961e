-- ===== src/Utils/Unicode.antt =====
-- The texts of src/utils.rs. A text is the list of its characters (Unicode scalar values).
pub mod Laws
use cifs_client_stream.Common.{
  ℕ, zero, suc, ◌+◌, ◌-◌, ◌*◌, ◌/◌, ◌%◌, List, [], ◌∷◌, ◌++◌, map, length, Option, none, some, Bool,
  true, false, ◌&&◌, ◌||◌, not, ltb, leb, ◌==◌, if◌then◌else◌, Result, ok, err, Run, done, fails,
  panics, and_then,
}
use cifs_client_stream.Stream.Buffer.{Bytes}
use cifs_client_stream.Media.Names.{Name}
use cifs_client_stream.Smb.Codes.{SmbError, invalid_data}
use cifs_client_stream.Smb.Wire.{Wire, Reading, ◌>>=◌, pure, get_u8, get_u16_le}
use cifs_client_stream.Smb.Wire.Plain.{le_bytes}

-- `char`: a code point that is not a surrogate.
abbrev pub is_char : ℕ → Bool
is_char c = ltb c 0xd800 || (leb 0xe000 c && ltb c 0x110000)

-- `str::encode_utf16` on a character.
unfoldable pub utf16_units : ℕ → List ℕ
utf16_units c =
    if ltb c 0x10000
    then c ∷ []
    else (0xd800 + (c - 0x10000) / 0x400) ∷ (0xdc00 + (c - 0x10000) % 0x400) ∷ []

unfoldable pub encode_utf16 : Name → List ℕ
encode_utf16 [] = []
encode_utf16 (c ∷ cs) = utf16_units c ++ encode_utf16 cs

unfoldable pub le_units : List ℕ → Bytes
le_units [] = []
le_units (u ∷ us) = le_bytes 2 u ++ le_units us

-- `encode_utf16le` and `encode_utf16le_0`.
unfoldable pub encode_utf16le : Name → Bytes
encode_utf16le msg = le_units (encode_utf16 msg)

unfoldable pub encode_utf16le_0 : Name → Bytes
encode_utf16le_0 msg = encode_utf16le msg ++ 0 ∷ 0 ∷ []

-- `char::decode_utf16`: a unit is a character, the first half of a pair, or an error; `high` is the
-- first half that waits for the second.
pub data Unit16 : Type 0 where
  bad : Unit16
  waits : ℕ → Unit16
  emits : ℕ → Unit16

unfoldable pub classify : Option ℕ → ℕ → Unit16
classify none u =
    if ltb u 0xd800 || leb 0xe000 u then emits u else (if ltb u 0xdc00 then waits u else bad)
classify (some high) u =
    if leb 0xdc00 u && ltb u 0xe000
    then emits (0x10000 + (high - 0xd800) * 0x400 + (u - 0xdc00))
    else bad

abbrev pub push_char : ℕ → Run SmbError Name → Run SmbError Name
push_char c (done cs) = done (c ∷ cs)
push_char c (fails e) = fails e
push_char c panics = panics

-- `collect` of the decoded units, up to the first error; a unit that is `none` panics when it is
-- taken. The error is the one that `?` makes of it.
unfoldable pub decode_utf16 : Option ℕ → List (Option ℕ) → Run SmbError Name
decode_utf16 none [] = done []
decode_utf16 (some high) [] = fails invalid_data
decode_utf16 high (none ∷ us) = panics
decode_utf16 high (some u ∷ us) = elim (classify high u) [
  | bad ↦ fails invalid_data
  | waits h ↦ decode_utf16 (some h) us
  | emits c ↦ push_char c (decode_utf16 none us)
]

-- The units of `decode_utf16le`: `raw[i + 1]` is out of bounds behind an odd number of bytes.
unfoldable pub units_of : Bytes → List (Option ℕ)
units_of [] = []
units_of (a ∷ []) = none ∷ []
units_of (a ∷ b ∷ bs) = some (a + 256 * b) ∷ units_of bs

-- `decode_utf16le`.
unfoldable pub decode_utf16le : Bytes → Run SmbError Name
decode_utf16le raw = decode_utf16 none (units_of raw)

-- The bytes of a text: UTF-8.
unfoldable pub utf8_bytes : ℕ → Bytes
utf8_bytes c =
    if ltb c 0x80
    then c ∷ []
    else (if ltb c 0x800
        then (0xc0 + c / 64) ∷ (0x80 + c % 64) ∷ []
        else (if ltb c 0x10000
            then (0xe0 + c / 4096) ∷ (0x80 + c / 64 % 64) ∷ (0x80 + c % 64) ∷ []
            else (0xf0 + c / 262144)
              ∷ (0x80 + c / 4096 % 64)
              ∷ (0x80 + c / 64 % 64)
              ∷ (0x80 + c % 64)
              ∷ []))

unfoldable pub as_bytes : Name → Bytes
as_bytes [] = []
as_bytes (c ∷ cs) = utf8_bytes c ++ as_bytes cs

-- `String::from_utf8`: the rest of a character has `left` bytes, and the character is at least
-- `least`.
pub record Partial : Type 0 where
  pub left : ℕ
  pub value : ℕ
  pub least : ℕ

pub data Byte8 : Type 0 where
  bad : Byte8
  waits : Partial → Byte8
  emits : ℕ → Byte8

abbrev pub is_between : ℕ → ℕ → ℕ → Bool
is_between low high b = leb low b && leb b high

unfoldable pub first_byte : ℕ → Byte8
first_byte b =
    if ltb b 0x80
    then Byte8.emits b
    else (if is_between 0xc2 0xdf b
        then Byte8.waits (record { left = 1; value = b - 0xc0; least = 0x80 })
        else (if is_between 0xe0 0xef b
            then Byte8.waits (record { left = 2; value = b - 0xe0; least = 0x800 })
            else (if is_between 0xf0 0xf4 b
                then Byte8.waits (record { left = 3; value = b - 0xf0; least = 0x10000 })
                else Byte8.bad)))

unfoldable pub next_byte : Partial → ℕ → Byte8
next_byte p b =
    let value = p.value * 64 + (b - 0x80) in
    if not (is_between 0x80 0xbf b)
    then Byte8.bad
    else (if ltb 1 p.left
        then Byte8.waits (record { left = p.left - 1; value = value; least = p.least })
        else (if leb p.least value && is_char value then Byte8.emits value else Byte8.bad))

abbrev pub classify8 : Option Partial → ℕ → Byte8
classify8 none b = first_byte b
classify8 (some p) b = next_byte p b

abbrev pub push8 : ℕ → Option Name → Option Name
push8 c none = none
push8 c (some cs) = some (c ∷ cs)

unfoldable pub from_utf8 : Option Partial → Bytes → Option Name
from_utf8 none [] = some []
from_utf8 (some p) [] = none
from_utf8 p (b ∷ bs) = elim (classify8 p b) [
  | Byte8.bad ↦ none
  | Byte8.waits q ↦ from_utf8 (some q) bs
  | Byte8.emits c ↦ push8 c (from_utf8 none bs)
]

-- `ParseStrError`, and what `?` makes of it.
pub data ParseStrError : Type 0 where
  missing_termination invalid_unicode : ParseStrError

abbrev pub Parsed : Type 0
Parsed = Result ParseStrError Name

abbrev pub parsed : Parsed → Result SmbError Name
parsed (ok name) = ok name
parsed (err e) = err invalid_data

abbrev pub valid8 : Option Name → Parsed
valid8 (some name) = ok name
valid8 none = err invalid_unicode

abbrev pub valid16 : Run SmbError Name → Parsed
valid16 (done name) = ok name
valid16 (fails e) = err invalid_unicode
valid16 panics = err invalid_unicode

module _ (wire : Wire) where
  -- The loop of `parse_str_0`; `left` is the number of bytes that remain.
  unfoldable pub str_loop : ℕ → Bytes → Reading Parsed
  str_loop zero content = pure (err missing_termination)
  str_loop (suc left) content = get_u8 wire >>= λ c.
      if c == 0 then pure (valid8 (from_utf8 none content)) else str_loop left (content ++ c ∷ [])

  -- `parse_str_0`.
  unfoldable pub parse_str_0 : Reading Parsed
  parse_str_0 buffer = str_loop (length buffer) [] buffer

  -- The loop of `parse_utf16le_0`; `left` is the number of units that remain.
  unfoldable pub utf16_loop : ℕ → List ℕ → Reading Parsed
  utf16_loop zero content = pure (err missing_termination)
  utf16_loop (suc left) content = get_u16_le wire >>= λ next.
      if next == 0
      then pure (valid16 (decode_utf16 none (map some content)))
      else utf16_loop left (content ++ next ∷ [])

  -- `parse_utf16le_0`.
  unfoldable pub parse_utf16le_0 : Reading Parsed
  parse_utf16le_0 buffer = utf16_loop (length buffer / 2) [] buffer
