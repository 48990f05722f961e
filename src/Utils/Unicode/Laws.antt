-- ===== src/Utils/Unicode/Laws.antt =====
-- The texts of src/utils.rs: what is encoded is decoded again.
pub mod Utf8
pub mod Terminated
use mathlib.Core.List.{map-append}
use cifs_client_stream.Common.{
  ℕ, ◌+◌, ◌-◌, ◌*◌, ◌/◌, ◌%◌, ◌≤◌, ◌<◌, ◌≡◌, ◌≢◌, refl, ap, ◌∙◌, sym, List, [], ◌∷◌, ◌++◌, map,
  append_assoc, append-nil, Option, none, some, Bool, true, false, ltb, leb, Bool-cases, inl, inr,
  arith, done, panics, All, length, Run, fails,
}
use cifs_client_stream.Stream.Buffer.{Bytes}
use cifs_client_stream.Media.Names.{Name}
use cifs_client_stream.Smb.Codes.{SmbError}
use cifs_client_stream.Smb.Wire.Plain.{le_bytes}
use cifs_client_stream.Utils.Unicode.{
  is_char, utf16_units, encode_utf16, le_units, encode_utf16le, classify, emits, waits, bad,
  push_char, decode_utf16, units_of, decode_utf16le, Unit16,
}

-- The unit of each half.
classify_single : (u : ℕ) → is_char u ≡ true → u < 0x10000 → classify none u ≡ emits u
unfolding classify
classify_single u h small = ground arith

units_single : (c : ℕ) → c < 0x10000 → utf16_units c ≡ c ∷ []
unfolding utf16_units
units_single c h = ground arith

-- The halves of a pair.
abbrev pub high_half : ℕ → ℕ
high_half c = 0xd800 + (c - 0x10000) / 0x400

abbrev pub low_half : ℕ → ℕ
low_half c = 0xdc00 + (c - 0x10000) % 0x400

units_pair : (c : ℕ) → 0x10000 ≤ c → utf16_units c ≡ high_half c ∷ low_half c ∷ []
unfolding utf16_units
units_pair c h = ground arith

classify_high :
    (c : ℕ) → 0x10000 ≤ c → c < 0x110000 → classify none (high_half c) ≡ waits (high_half c)
unfolding classify
classify_high c h small = ground arith

classify_low :
    (c : ℕ) → 0x10000 ≤ c → c < 0x110000 → classify (some (high_half c)) (low_half c) ≡ emits c
unfolding classify
classify_low c h small = ground arith

decode_char :
    (c : ℕ) (us : List (Option ℕ))
    → is_char c ≡ true
    → decode_utf16 none (map some (utf16_units c) ++ us) ≡ push_char c (decode_utf16 none us)
unfolding decode_utf16
decode_char c us h = elim (Bool-cases (ltb c 0x10000)) [
  | inl small ↦
      rw (units_single c (ground arith), decode_utf16, classify_single c h (ground arith)) refl
  | inr large ↦
      rw
        (
          units_pair c (ground arith),
          decode_utf16,
          classify_high c (ground arith) (ground arith),
          classify_low c (ground arith) (ground arith),
        )
        refl
]

abbrev push_chars : Name → Run SmbError Name → Run SmbError Name
push_chars [] r = r
push_chars (c ∷ cs) r = push_char c (push_chars cs r)

push_chars_done : (cs : Name) → push_chars cs (done []) ≡ done cs
push_chars_done [] = refl
push_chars_done (c ∷ cs) = ap (push_char c) (push_chars_done cs)

push_chars_panics : (cs : Name) → push_chars cs panics ≡ panics
push_chars_panics [] = refl
push_chars_panics (c ∷ cs) = ap (push_char c) (push_chars_panics cs)

decode_text :
    (cs : Name) (us : List (Option ℕ))
    → All (λ c. is_char c ≡ true) cs
    → decode_utf16 none (map some (encode_utf16 cs) ++ us) ≡ push_chars cs (decode_utf16 none us)
unfolding encode_utf16
decode_text [] us h = refl
decode_text (c ∷ cs) us h =
    ap (decode_utf16 none) (
      ap (λ l. l ++ us) (map-append some (utf16_units c) (encode_utf16 cs))
      ∙ append_assoc (map some (utf16_units c)) (map some (encode_utf16 cs)) us)
    ∙ decode_char c (map some (encode_utf16 cs) ++ us) h.0
    ∙ ap (push_char c) (decode_text cs us h.1)

pub decode_utf16-encode_utf16 :
    (cs : Name)
    → All (λ c. is_char c ≡ true) cs
    → decode_utf16 none (map some (encode_utf16 cs)) ≡ done cs
unfolding decode_utf16
decode_utf16-encode_utf16 cs h =
    ap (decode_utf16 none) (sym (append-nil (map some (encode_utf16 cs))))
    ∙ decode_text cs [] h
    ∙ push_chars_done cs

-- The units of a text fit two bytes, and none is zero in a text without a zero character.
pub unit_bounds :
    (c : ℕ) → is_char c ≡ true → All (λ u. (u < 65536) × ((c ≢ 0) → u ≢ 0)) (utf16_units c)
unit_bounds c h = elim (Bool-cases (ltb c 0x10000)) [
  | inl small ↦ rw (units_single c (ground arith)) ((ground arith, λ z. z), tt)
  | inr large ↦
      rw (units_pair c (ground arith))
        ((ground arith, λ z. omega arith), ((omega arith, λ z. omega arith), tt))
]

-- Units that fit two bytes, all but a zero one, and the bytes of the units.
abbrev pub IsUnit : ℕ → Type 0
IsUnit u = u < 65536

units_of-le_units :
    (us : List ℕ) (bs : Bytes)
    → All IsUnit us
    → units_of (le_units us ++ bs) ≡ map some us ++ units_of bs
unfolding units_of le_units le_bytes
units_of-le_units [] bs h = refl
units_of-le_units (u ∷ us) bs h =
    let e : u % 256 + 256 * (u / 256 % 256) ≡ u = omega (arith, h.0) in
    ap (λ v. some v ∷ units_of (le_units us ++ bs)) e
    ∙ ap (λ l. some u ∷ l) (units_of-le_units us bs h.1)

pub All-append : (P : ℕ → Type 0) (xs ys : List ℕ) → All P xs → All P ys → All P (xs ++ ys)
All-append P [] ys h g = g
All-append P (x ∷ xs) ys h g = (h.0, All-append P xs ys h.1 g)

pub All-imp : (P Q : ℕ → Type 0) (xs : List ℕ) → ((x : ℕ) → P x → Q x) → All P xs → All Q xs
All-imp P Q [] f h = tt
All-imp P Q (x ∷ xs) f h = (f x h.0, All-imp P Q xs f h.1)

encode_utf16_units : (cs : Name) → All (λ c. is_char c ≡ true) cs → All IsUnit (encode_utf16 cs)
unfolding encode_utf16
encode_utf16_units [] h = tt
encode_utf16_units (c ∷ cs) h =
    All-append IsUnit (utf16_units c) (encode_utf16 cs)
      (All-imp _ IsUnit (utf16_units c) (λ u x. x.0) (unit_bounds c h.0))
      (encode_utf16_units cs h.1)

-- A text of characters is decoded from the bytes that it is encoded as.
pub decode_utf16le-encode_utf16le :
    (cs : Name) → All (λ c. is_char c ≡ true) cs → decode_utf16le (encode_utf16le cs) ≡ done cs
unfolding decode_utf16le encode_utf16le units_of decode_utf16
decode_utf16le-encode_utf16le cs h =
    ap (λ l. decode_utf16 none (units_of l)) (sym (append-nil (le_units (encode_utf16 cs))))
    ∙ ap (decode_utf16 none) (
        units_of-le_units (encode_utf16 cs) [] (encode_utf16_units cs h)
        ∙ append-nil (map some (encode_utf16 cs)))
    ∙ decode_utf16-encode_utf16 cs h

-- Where one more byte stands behind the bytes of a text, `decode_utf16le` panics.
pub decode_utf16le_odd :
    (cs : Name) (b : ℕ)
    → All (λ c. is_char c ≡ true) cs
    → decode_utf16le (encode_utf16le cs ++ b ∷ []) ≡ panics
unfolding decode_utf16le encode_utf16le decode_utf16 units_of
decode_utf16le_odd cs b h =
    ap (decode_utf16 none) (units_of-le_units (encode_utf16 cs) (b ∷ []) (encode_utf16_units cs h))
    ∙ decode_text cs (none ∷ []) h
    ∙ push_chars_panics cs
