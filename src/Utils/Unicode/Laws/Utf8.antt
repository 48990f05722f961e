-- ===== src/Utils/Unicode/Laws/Utf8.antt =====
-- UTF-8 as src/utils.rs uses it: `as_bytes` and `String::from_utf8`.
use cifs_client_stream.Common.{
  ℕ, suc, ◌+◌, ◌-◌, ◌*◌, ◌/◌, ◌%◌, ◌≤◌, ◌<◌, ◌≡◌, refl, ap, ◌∙◌, [], ◌∷◌, ◌++◌, none, some, true,
  ltb, Bool-cases, inl, inr, arith, All,
}
use cifs_client_stream.Stream.Buffer.{Bytes}
use cifs_client_stream.Media.Names.{Name}
use cifs_client_stream.Utils.Unicode.{
  is_char, utf8_bytes, as_bytes, first_byte, next_byte, from_utf8, push8, Partial, Byte8,
}

abbrev pub part : ℕ → ℕ → ℕ → Partial
part left value least = record { left = left; value = value; least = least }

pub one_byte : (c : ℕ) → c < 0x80 → utf8_bytes c ≡ c ∷ []
unfolding utf8_bytes
one_byte c h = ground arith

first_of_one : (c : ℕ) → c < 0x80 → first_byte c ≡ Byte8.emits c
unfolding first_byte
first_of_one c h = ground arith

pub two_bytes :
    (c : ℕ) → 0x80 ≤ c → c < 0x800 → utf8_bytes c ≡ (0xc0 + c / 64) ∷ (0x80 + c % 64) ∷ []
unfolding utf8_bytes
two_bytes c h g = ground arith

pub three_bytes :
    (c : ℕ)
    → 0x800 ≤ c
    → c < 0x10000
    → utf8_bytes c ≡ (0xe0 + c / 4096) ∷ (0x80 + c / 64 % 64) ∷ (0x80 + c % 64) ∷ []
unfolding utf8_bytes
three_bytes c h g = ground arith

pub four_bytes :
    (c : ℕ)
    → 0x10000 ≤ c
    → utf8_bytes c
      ≡ (0xf0 + c / 262144) ∷ (0x80 + c / 4096 % 64) ∷ (0x80 + c / 64 % 64) ∷ (0x80 + c % 64) ∷ []
unfolding utf8_bytes
four_bytes c h = ground arith

first_of_two : (n : ℕ) → 2 ≤ n → n < 32 → first_byte (0xc0 + n) ≡ Byte8.waits (part 1 n 0x80)
unfolding first_byte
first_of_two n h g = let e : 0xc0 + n - 0xc0 ≡ n = omega arith in ground (arith, e)

first_of_three : (n : ℕ) → n < 16 → first_byte (0xe0 + n) ≡ Byte8.waits (part 2 n 0x800)
unfolding first_byte
first_of_three n g = let e : 0xe0 + n - 0xe0 ≡ n = omega arith in ground (arith, e)

first_of_four : (n : ℕ) → n < 5 → first_byte (0xf0 + n) ≡ Byte8.waits (part 3 n 0x10000)
unfolding first_byte
first_of_four n g = let e : 0xf0 + n - 0xf0 ≡ n = omega arith in ground (arith, e)

more :
    (left v least n : ℕ)
    → n < 64
    → next_byte (part (suc (suc left)) v least) (0x80 + n)
      ≡ Byte8.waits (part (suc left) (v * 64 + n) least)
unfolding next_byte
more left v least n g = let e : 0x80 + n - 0x80 ≡ n = omega arith in ground (arith, e)

last :
    (v least n c : ℕ)
    → n < 64
    → v * 64 + n ≡ c
    → least ≤ c
    → is_char c ≡ true
    → next_byte (part 1 v least) (0x80 + n) ≡ Byte8.emits c
unfolding next_byte
last v least n c g e l h = let d : 0x80 + n - 0x80 ≡ n = omega arith in ground (arith, d)

from_utf8_char :
    (c : ℕ) (bs : Bytes)
    → is_char c ≡ true
    → from_utf8 none (utf8_bytes c ++ bs) ≡ push8 c (from_utf8 none bs)
unfolding from_utf8
from_utf8_char c bs h = elim (Bool-cases (ltb c 0x80)) [
  | inl a ↦ rw (one_byte c (ground arith), from_utf8, first_of_one c (ground arith)) refl
  | inr a ↦ elim (Bool-cases (ltb c 0x800)) [
    | inl b ↦
        rw
          (
            two_bytes c (ground arith) (ground arith),
            from_utf8,
            first_of_two (c / 64) (ground arith) (ground arith),
            last (c / 64) 0x80 (c % 64) c (omega arith) (omega arith) (ground arith) h,
          )
          refl
    | inr b ↦ elim (Bool-cases (ltb c 0x10000)) [
      | inl d ↦
          rw
            (
              three_bytes c (ground arith) (ground arith),
              from_utf8,
              first_of_three (c / 4096) (ground arith),
              more 0 (c / 4096) 0x800 (c / 64 % 64) (omega arith),
              last (c / 4096 * 64 + c / 64 % 64) 0x800 (c % 64) c (omega arith) (omega arith)
                  (ground arith) h,
            )
            refl
      | inr d ↦
          rw
            (
              four_bytes c (ground arith),
              from_utf8,
              first_of_four (c / 262144) (ground arith),
              more 1 (c / 262144) 0x10000 (c / 4096 % 64) (omega arith),
              more 0 (c / 262144 * 64 + c / 4096 % 64) 0x10000 (c / 64 % 64) (omega arith),
              last ((c / 262144 * 64 + c / 4096 % 64) * 64 + c / 64 % 64) 0x10000 (c % 64) c
                  (omega arith) (omega arith) (ground arith) h,
            )
            refl
    ]
  ]
]

pub from_utf8-as_bytes :
    (cs : Name) → All (λ c. is_char c ≡ true) cs → from_utf8 none (as_bytes cs) ≡ some cs
unfolding from_utf8 as_bytes
from_utf8-as_bytes [] h = refl
from_utf8-as_bytes (c ∷ cs) h =
    from_utf8_char c (as_bytes cs) h.0 ∙ ap (push8 c) (from_utf8-as_bytes cs h.1)
