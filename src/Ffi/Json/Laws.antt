-- ===== src/Ffi/Json/Laws.antt =====
-- The JSON that the C interface writes can be read, and goes to the caller.
use cifs_client_stream.Common.{
  ℕ, zero, suc, ◌+◌, ◌-◌, ◌*◌, ◌/◌, ◌%◌, ◌<◌, ◌≤◌, ◌≡◌, refl, sym, ap, ◌∙◌, [], ◌∷◌, ◌++◌, Option,
  none, some, Bool, true, false, ◌&&◌, ◌||◌, ltb, leb, ◌==◌, if◌then◌else◌, arith, append_assoc,
  append-nil, drop, length, length-append, drop-append_self, Bool-cases, inl, inr,
}
use cifs_client_stream.Media.Names.{Name}
use cifs_client_stream.Ffi.Json.{hex_digit, escape, push_escaped, push_json_string}

-- A reader of the text behind an opening quote, after RFC 8259: where it stands in an escape.
pub data Place : Type 0 where
  plain escaped : Place
  hex : ℕ → ℕ → Place

abbrev is_hex : ℕ → Bool
is_hex c = (leb 48 c && leb c 57) || (leb 97 c && leb c 102)

abbrev hex_value : ℕ → ℕ
hex_value c = if leb c 57 then c - 48 else c - 87

-- The characters that a backslash can stand before, but `u`.
unescape : ℕ → Option ℕ
unescape c =
    if c == 0x22
    then some 0x22
    else if c == 0x5c
    then some 0x5c
    else if c == 0x2f
    then some 0x2f
    else if c == 0x62
    then some 0x08
    else if c == 0x66
    then some 0x0c
    else if c == 0x6e
    then some 0x0a
    else if c == 0x72
    then some 0x0d
    else if c == 0x74
    then some 0x09
    else none

abbrev put_char : ℕ → Option (Name × Name) → Option (Name × Name)
put_char c none = none
put_char c (some (text, rest)) = some (c ∷ text, rest)

abbrev put_some : Option ℕ → Option (Name × Name) → Option (Name × Name)
put_some none later = none
put_some (some c) later = put_char c later

next_place : Place → ℕ → Place
next_place plain c = if c == 0x5c then escaped else plain
next_place escaped c = if c == 0x75 then hex 3 0 else plain
next_place (hex zero v) c = plain
next_place (hex (suc left) v) c = hex left (v * 16 + hex_value c)

emit : Place → ℕ → Name → Option (Name × Name) → Option (Name × Name)
unfolding unescape
emit plain c rest later =
    if c == 0x22
    then some ([], rest)
    else if c == 0x5c
    then later
    else if ltb c 0x20
    then none
    else put_char c later
emit escaped c rest later = if c == 0x75 then later else put_some (unescape c) later
emit (hex zero v) c rest later = if is_hex c then put_char (v * 16 + hex_value c) later else none
emit (hex (suc left) v) c rest later = if is_hex c then later else none

unfoldable pub read_string : Place → Name → Option (Name × Name)
unfolding next_place emit
read_string place [] = none
read_string place (c ∷ cs) = emit place c cs (read_string (next_place place c) cs)

same : (c n : ℕ) → (c == n) ≡ true → c ≡ n
same c n e = ground arith

hex_digit_lem : (d : ℕ) → d < 16 → (is_hex (hex_digit d) ≡ true) × (hex_value (hex_digit d) ≡ d)
hex_digit_lem d h = (ground arith, ground arith)

-- A control character is read back from its two digits.
read_control :
    (c : ℕ) (xs : Name)
    → c ≤ 0x1f
    → read_string plain (0x5c ∷ 0x75 ∷ 0x30 ∷ 0x30 ∷ hex_digit (c / 16) ∷ hex_digit (c % 16) ∷ xs)
      ≡ put_char c (read_string plain xs)
unfolding read_string next_place emit
read_control c xs h =
    let high = hex_digit_lem (c / 16) (omega arith) in
    let low = hex_digit_lem (c % 16) (omega arith) in
    rw (high.0, low.0, high.1, low.1) (ap (λ v. put_char v (read_string plain xs)) (omega arith))

read_plain :
    (c : ℕ) (xs : Name)
    → c == 0x22 ≡ false
    → c == 0x5c ≡ false
    → leb c 0x1f ≡ false
    → read_string plain (c ∷ xs) ≡ put_char c (read_string plain xs)
unfolding read_string next_place emit
read_plain c xs quote slash high =
    let printable : ltb c 0x20 ≡ false = ground arith in rw (quote, slash, printable) refl

read_escape :
    (c : ℕ) (xs : Name) → read_string plain (escape c ++ xs) ≡ put_char c (read_string plain xs)
unfolding read_string escape next_place emit unescape
read_escape c xs = elim (Bool-cases (c == 0x22)) [
  | inl e ↦ rw (same c 0x22 e) refl
  | inr quote ↦ elim (Bool-cases (c == 0x5c)) [
    | inl e ↦ rw (same c 0x5c e) refl
    | inr slash ↦ elim (Bool-cases (c == 0x0a)) [
      | inl e ↦ rw (same c 0x0a e) refl
      | inr newline ↦ elim (Bool-cases (c == 0x0d)) [
        | inl e ↦ rw (same c 0x0d e) refl
        | inr line ↦ elim (Bool-cases (c == 0x09)) [
          | inl e ↦ rw (same c 0x09 e) refl
          | inr tab ↦ elim (Bool-cases (leb c 0x1f)) [
            | inl e ↦ rw (quote, slash, newline, line, tab, e) (read_control c xs (ground arith))
            | inr e ↦ rw (quote, slash, newline, line, tab, e) (read_plain c xs quote slash e)
          ]
        ]
      ]
    ]
  ]
]

escape_all : Name → Name
unfolding escape
escape_all [] = []
escape_all (c ∷ cs) = escape c ++ escape_all cs

push_chars_lem : (out cs : Name) → push_escaped out cs ≡ out ++ escape_all cs
unfolding push_escaped escape_all
push_chars_lem out [] = sym (append-nil out)
push_chars_lem out (c ∷ cs) =
    push_chars_lem (out ++ escape c) cs ∙ append_assoc out (escape c) (escape_all cs)

read_escape_all :
    (cs rest : Name) → read_string plain (escape_all cs ++ 0x22 ∷ rest) ≡ some (cs, rest)
unfolding escape_all read_string next_place emit
read_escape_all [] rest = refl
read_escape_all (c ∷ cs) rest =
    rw
      (
        append_assoc (escape c) (escape_all cs) (0x22 ∷ rest),
        read_escape c (escape_all cs ++ 0x22 ∷ rest),
        read_escape_all cs rest,
      )
      refl

-- What `push_json_string` writes behind a text is a quote and a string that a JSON reader reads as
-- the value, and the reader leaves what comes behind.
pub push_json_string_roundtrip :
    (out value rest : Name)
    → read_string plain (drop (length out + 1) (push_json_string out value ++ rest))
      ≡ some (value, rest)
unfolding push_json_string
push_json_string_roundtrip out value rest =
    let opened = out ++ 0x22 ∷ [] in
    let behind = escape_all value ++ 0x22 ∷ rest in
    let whole : (push_escaped opened value ++ 0x22 ∷ []) ++ rest ≡ opened ++ behind =
      rw (push_chars_lem opened value, append_assoc (opened ++ escape_all value) (0x22 ∷ []) rest)
        (append_assoc opened (escape_all value) (0x22 ∷ rest)) in
    let long : length out + 1 ≡ length opened = sym (length-append out (0x22 ∷ [])) in
    rw (whole, long, drop-append_self opened behind) (read_escape_all value rest)
