-- ===== src/Utils/Unicode/Laws/Terminated.antt =====
-- The zero-terminated texts of src/utils.rs.
use cifs_client_stream.Common.{
  ℕ, zero, suc, ◌+◌, ◌*◌, ◌/◌, ◌<◌, ◌≡◌, ◌≢◌, refl, ap, ◌∙◌, subst, List, [], ◌∷◌, ◌++◌, map,
  append_assoc, append-nil, none, some, true, false, ltb, Bool-cases, inl, inr, ◌==◌, arith, ok,
  done, All, length, length-append,
}
use cifs_client_stream.Stream.Buffer.{Bytes}
use cifs_client_stream.Media.Names.{Name}
use cifs_client_stream.Smb.Wire.{Wire}
use cifs_client_stream.Smb.Wire.Plain.{plain, IsWire, IsWire-plain, le_bytes, read_le}
use cifs_client_stream.Smb.Wire.Laws.{read_le-le_bytes}
use cifs_client_stream.Utils.Unicode.{
  is_char, utf16_units, encode_utf16, le_units, encode_utf16le, encode_utf16le_0, decode_utf16,
  utf16_loop, parse_utf16le_0, valid16, from_utf8, as_bytes, str_loop, parse_str_0, valid8,
  utf8_bytes,
}
use cifs_client_stream.Utils.Unicode.Laws.{
  IsUnit, All-append, All-imp, unit_bounds, decode_utf16-encode_utf16,
}
use cifs_client_stream.Utils.Unicode.Laws.Utf8.{
  one_byte, two_bytes, three_bytes, four_bytes, from_utf8-as_bytes,
}

-- A character other than zero.
abbrev pub IsText : ℕ → Type 0
IsText c = (is_char c ≡ true) × (c ≢ 0)

abbrev IsInner : ℕ → Type 0
IsInner u = IsUnit u × (u ≢ 0)

IsInner-units : (cs : Name) → All IsText cs → All IsInner (encode_utf16 cs)
unfolding encode_utf16
IsInner-units [] h = tt
IsInner-units (c ∷ cs) h =
    All-append IsInner (utf16_units c) (encode_utf16 cs)
      (All-imp _ IsInner (utf16_units c) (λ u x. (x.0, x.1 h.0.1)) (unit_bounds c h.0.0))
      (IsInner-units cs h.1)

not_zero : (u : ℕ) → u ≢ 0 → (u == 0) ≡ false
not_zero u h = ground arith

read_le_byte : (b : ℕ) (rest : Bytes) → read_le 1 (b ∷ rest) ≡ some (b, rest)
unfolding read_le
read_le_byte b rest = let e : b + 256 * 0 ≡ b = omega arith in ap (λ v. some (v, rest)) e

read_le_zero : (rest : Bytes) → read_le 2 (0 ∷ 0 ∷ rest) ≡ some (0, rest)
unfolding read_le
read_le_zero rest = refl

utf16_loop_lem :
    (us content : List ℕ) (rest : Bytes) (left : ℕ)
    → All IsInner us
    → length us < left
    → utf16_loop plain left content (le_units us ++ 0 ∷ 0 ∷ rest)
      ≡ done (valid16 (decode_utf16 none (map some (content ++ us))), rest)
unfolding utf16_loop le_units
utf16_loop_lem us content rest zero h l = absurd (omega (arith, l))
utf16_loop_lem [] content rest (suc left) h l =
    rw (read_le_zero rest, append-nil content, utf16_loop) refl
utf16_loop_lem (u ∷ us) content rest (suc left) h l =
    rw
      (
        append_assoc,
        read_le-le_bytes 2 u (le_units us ++ 0 ∷ 0 ∷ rest) (omega (arith, h.0.0)),
        not_zero u h.0.1,
      )
      (rw (append_assoc content (u ∷ []) us) at
        (utf16_loop_lem us (content ++ u ∷ []) rest left h.1 (omega (arith, l))))

length-le_units : (us : List ℕ) → length (le_units us) ≡ 2 * length us
unfolding le_units le_bytes
length-le_units [] = refl
length-le_units (u ∷ us) = omega (arith, length-le_units us)

terminated_utf16 :
    (cs : Name) (rest : Bytes)
    → All IsText cs
    → parse_utf16le_0 plain (encode_utf16le_0 cs ++ rest) ≡ done (ok cs, rest)
unfolding parse_utf16le_0 encode_utf16le_0 encode_utf16le
terminated_utf16 cs rest h =
    let us = encode_utf16 cs in
    let whole : encode_utf16le_0 cs ++ rest ≡ le_units us ++ 0 ∷ 0 ∷ rest =
      append_assoc (le_units us) (0 ∷ 0 ∷ []) rest in
    let size : length us < length (le_units us ++ 0 ∷ 0 ∷ rest) / 2 =
      omega (arith, length-append (le_units us) (0 ∷ 0 ∷ rest), length-le_units us) in
    let chars : All (λ c. is_char c ≡ true) cs = All-imp IsText _ cs (λ c x. x.0) h in
    let decoded : decode_utf16 none (map some us) ≡ done cs = decode_utf16-encode_utf16 cs chars in
    rw (whole) (
      utf16_loop_lem us [] rest _ (IsInner-units cs h) size
      ∙ ap (λ r. done (valid16 r, rest)) decoded)

str_loop_lem :
    (bs content rest : Bytes) (left : ℕ)
    → All (λ b. b ≢ 0) bs
    → length bs < left
    → str_loop plain left content (bs ++ 0 ∷ rest)
      ≡ done (valid8 (from_utf8 none (content ++ bs)), rest)
unfolding str_loop
str_loop_lem bs content rest zero h l = absurd (omega (arith, l))
str_loop_lem [] content rest (suc left) h l =
    rw (read_le_byte 0 rest, append-nil content, str_loop) refl
str_loop_lem (b ∷ bs) content rest (suc left) h l =
    rw (read_le_byte b (bs ++ 0 ∷ rest), not_zero b h.0, str_loop)
      (rw (append_assoc content (b ∷ []) bs) at
        (str_loop_lem bs (content ++ b ∷ []) rest left h.1 (omega (arith, l))))

utf8_nonzero : (c : ℕ) → c ≢ 0 → All (λ b. b ≢ 0) (utf8_bytes c)
utf8_nonzero c h = elim (Bool-cases (ltb c 0x80)) [
  | inl a ↦ rw (one_byte c (ground arith)) (h, tt)
  | inr a ↦ elim (Bool-cases (ltb c 0x800)) [
    | inl b ↦
        rw (two_bytes c (ground arith) (ground arith)) (λ z. omega arith, (λ z. omega arith, tt))
    | inr b ↦ elim (Bool-cases (ltb c 0x10000)) [
      | inl d ↦
          rw (three_bytes c (ground arith) (ground arith))
            (λ z. omega arith, (λ z. omega arith, (λ z. omega arith, tt)))
      | inr d ↦
          rw (four_bytes c (ground arith))
            (λ z. omega arith, (λ z. omega arith, (λ z. omega arith, (λ z. omega arith, tt))))
    ]
  ]
]

as_bytes_nonzero : (cs : Name) → All IsText cs → All (λ b. b ≢ 0) (as_bytes cs)
unfolding as_bytes
as_bytes_nonzero [] h = tt
as_bytes_nonzero (c ∷ cs) h =
    All-append _ (utf8_bytes c) (as_bytes cs) (utf8_nonzero c h.0.1) (as_bytes_nonzero cs h.1)

terminated_utf8 :
    (cs : Name) (rest : Bytes)
    → All IsText cs
    → parse_str_0 plain (as_bytes cs ++ 0 ∷ rest) ≡ done (ok cs, rest)
unfolding parse_str_0
terminated_utf8 cs rest h =
    let size : length (as_bytes cs) < length (as_bytes cs ++ 0 ∷ rest) =
      omega (arith, length-append (as_bytes cs) (0 ∷ rest)) in
    let chars : All (λ c. is_char c ≡ true) cs = All-imp IsText _ cs (λ c x. x.0) h in
    str_loop_lem (as_bytes cs) [] rest _ (as_bytes_nonzero cs h) size
    ∙ ap (λ o. done (valid8 o, rest)) (from_utf8-as_bytes cs chars)

-- A text of characters other than zero, with a zero behind it, is read back up to the zero, in
-- UTF-8 and in UTF-16, and what follows is left in the buffer.
pub parse_0-encode :
    (wire : Wire)
    → IsWire wire
    → (cs : Name) (rest : Bytes) → All IsText cs
    → (parse_utf16le_0 wire (encode_utf16le_0 cs ++ rest) ≡ done (ok cs, rest))
      × (parse_str_0 wire (as_bytes cs ++ 0 ∷ rest) ≡ done (ok cs, rest))
parse_0-encode wire w cs rest h =
    subst
      (λ v.
        (parse_utf16le_0 v (encode_utf16le_0 cs ++ rest) ≡ done (ok cs, rest))
        × (parse_str_0 v (as_bytes cs ++ 0 ∷ rest) ≡ done (ok cs, rest)))
      (IsWire-plain wire w) (terminated_utf16 cs rest h, terminated_utf8 cs rest h)
