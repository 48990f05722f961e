-- ===== src/Smb/Wire.antt =====
-- What the message layer (src/smb) uses of the crates `bytes` and `bitflags`, and the reading of a
-- `Bytes` through its cursor.
pub mod Plain
pub mod Laws
use cifs_client_stream.Common.{
  ℕ, Option, none, some, Bool, true, false, Result, ok, err, Run, done, fails, panics, and_then,
  length, replicate,
}
use cifs_client_stream.Stream.Buffer.{Bytes}
use cifs_client_stream.Smb.Codes.{SmbError}

-- `get_le` and `put_le` stand for `get_u8`, `get_u16_le`, ... and `put_u8`, `put_u16_le`, ... by
-- their width in bytes. Where a read goes beyond the end the crate panics: `none`. `slice` has the
-- bounds of its range; `from_bits_truncate` has the bits of all flags of the set.
pub record Wire : Type 0 where
  pub get_le : ℕ → Bytes → Option (ℕ × Bytes)
  pub advance : ℕ → Bytes → Option Bytes
  pub copy_to_bytes : ℕ → Bytes → Option (Bytes × Bytes)
  pub slice : ℕ → ℕ → Bytes → Option Bytes
  pub put_le : ℕ → ℕ → Bytes → Bytes
  pub put : Bytes → Bytes → Bytes
  pub remaining_mut : Bytes → ℕ
  pub from_bits_truncate : ℕ → ℕ → ℕ

-- A step of a parser on the buffer that it reads from.
abbrev pub Reading {ℓ} : Type ℓ → Type ℓ
Reading A = Bytes → Run SmbError (A × Bytes)

infixl 5 ◌>>=◌ ◌>>◌
abbrev pub ◌>>=◌ {ℓ κ} : {A : Type ℓ} {B : Type κ} → Reading A → (A → Reading B) → Reading B
(first >>= next) buffer = and_then (first buffer) λ r. next r.0 r.1

abbrev pub ◌>>◌ {κ} : {B : Type κ} → Reading (Unit {0}) → Reading B → Reading B
(first >> rest) buffer = and_then (first buffer) λ r. rest r.1

abbrev pub pure {ℓ} : {A : Type ℓ} → A → Reading A
pure a buffer = done (a, buffer)

abbrev pub fail {ℓ} : {A : Type ℓ} → SmbError → Reading A
fail e buffer = fails e

-- `?` on a computation that reads nothing.
abbrev pub lifted {ℓ} : {A : Type ℓ} → Run SmbError A → Reading A
lifted r buffer = and_then r λ a. done (a, buffer)

-- An early return on a condition.
abbrev pub fail_if : Bool → SmbError → Reading (Unit {0})
fail_if true e buffer = fails e
fail_if false e buffer = done (tt, buffer)

-- `?` on a result that reads nothing.
abbrev pub given : {A : Type 0} → Result SmbError A → Reading A
given (ok a) buffer = done (a, buffer)
given (err e) buffer = fails e

-- A parser on a buffer of its own, between the steps on another one, and alone.
abbrev pub within {ℓ} : {A : Type ℓ} → Bytes → Reading A → Reading A
within other m buffer = and_then (m other) λ r. done (r.0, buffer)

abbrev pub on {ℓ} : {A : Type ℓ} → Bytes → Reading A → Run SmbError A
on buffer m = and_then (m buffer) λ r. done r.0

-- `Buf::remaining`.
abbrev pub remaining : Reading ℕ
remaining buffer = done (length buffer, buffer)

-- A call of the cursor, which panics beyond the end.
abbrev pub or_panic {ℓ} : {A : Type ℓ} → Option A → Run SmbError A
or_panic none = panics
or_panic (some a) = done a

abbrev pub skipped : Option Bytes → Run SmbError (Unit {0} × Bytes)
skipped none = panics
skipped (some rest) = done (tt, rest)

module _ (wire : Wire) where
  abbrev pub get_le : ℕ → Reading ℕ
  get_le width buffer = or_panic (wire.get_le width buffer)

  abbrev pub get_u8 : Reading ℕ
  get_u8 = get_le 1

  abbrev pub get_u16_le : Reading ℕ
  get_u16_le = get_le 2

  abbrev pub get_u32_le : Reading ℕ
  get_u32_le = get_le 4

  abbrev pub get_u64_le : Reading ℕ
  get_u64_le = get_le 8

  abbrev pub advance : ℕ → Reading (Unit {0})
  advance n buffer = skipped (wire.advance n buffer)

  abbrev pub copy_to_bytes : ℕ → Reading Bytes
  copy_to_bytes n buffer = or_panic (wire.copy_to_bytes n buffer)

  abbrev pub put_bytes : ℕ → ℕ → Bytes → Bytes
  put_bytes value count buffer = wire.put (replicate count value) buffer
