-- ===== src/Smb/Wire/Plain.antt =====
-- The documented behaviour of the operations of `Wire`, and an instance that has it.
use Prim.Native.Nat.{bit_and}
use cifs_client_stream.Common.{
  ℕ, zero, suc, ◌+◌, ◌-◌, ◌*◌, ◌/◌, ◌%◌, ◌^◌, ◌≡◌, refl, sym, subst, [], ◌∷◌, ◌++◌, Option, none,
  some, ◌&&◌, leb, if◌then◌else◌, length, take, drop,
}
use cifs_client_stream.Stream.Buffer.{Bytes}
use cifs_client_stream.Smb.Wire.{Wire}

-- The little-endian bytes of a number, and the number of the first bytes.
unfoldable pub le_bytes : ℕ → ℕ → Bytes
le_bytes zero x = []
le_bytes (suc n) x = x % 256 ∷ le_bytes n (x / 256)

abbrev pub cons_le : ℕ → Option (ℕ × Bytes) → Option (ℕ × Bytes)
cons_le b none = none
cons_le b (some (v, rest)) = some (b + 256 * v, rest)

unfoldable pub read_le : ℕ → Bytes → Option (ℕ × Bytes)
read_le zero bs = some (0, bs)
read_le (suc n) [] = none
read_le (suc n) (b ∷ bs) = cons_le b (read_le n bs)

unfoldable pub skip : ℕ → Bytes → Option Bytes
skip zero bs = some bs
skip (suc n) [] = none
skip (suc n) (b ∷ bs) = skip n bs

abbrev pub cons_front : ℕ → Option (Bytes × Bytes) → Option (Bytes × Bytes)
cons_front b none = none
cons_front b (some (front, rest)) = some (b ∷ front, rest)

unfoldable pub split : ℕ → Bytes → Option (Bytes × Bytes)
split zero bs = some ([], bs)
split (suc n) [] = none
split (suc n) (b ∷ bs) = cons_front b (split n bs)

unfoldable pub range : ℕ → ℕ → Bytes → Option Bytes
range start end bs =
    if leb start end && leb end (length bs) then some (take (end - start) (drop start bs)) else none

abbrev pub plain : Wire
plain = record {
  get_le = read_le;
  advance = skip;
  copy_to_bytes = split;
  slice = range;
  put_le = λ width x buffer. buffer ++ le_bytes width x;
  put = λ bytes buffer. buffer ++ bytes;
  remaining_mut = λ buffer. 2 ^ 64 - 1 - length buffer;
  from_bits_truncate = λ all bits. bit_and all bits;
}

-- What the crates document of each operation.
pub record IsWire (wire : Wire) : Type 0 where
  pub gets : (width : ℕ) (buffer : Bytes) → wire.get_le width buffer ≡ read_le width buffer
  pub advances : (n : ℕ) (buffer : Bytes) → wire.advance n buffer ≡ skip n buffer
  pub copies : (n : ℕ) (buffer : Bytes) → wire.copy_to_bytes n buffer ≡ split n buffer
  pub slices :
      (start end : ℕ) (buffer : Bytes) → wire.slice start end buffer ≡ range start end buffer
  pub puts_le :
      (width x : ℕ) (buffer : Bytes) → wire.put_le width x buffer ≡ buffer ++ le_bytes width x
  pub puts : (bytes buffer : Bytes) → wire.put bytes buffer ≡ buffer ++ bytes
  pub grows : (buffer : Bytes) → wire.remaining_mut buffer ≡ 2 ^ 64 - 1 - length buffer
  pub truncates : (all bits : ℕ) → wire.from_bits_truncate all bits ≡ bit_and all bits

pub plain-IsWire : IsWire plain
plain-IsWire = record {
  gets = λ width buffer. refl;
  advances = λ n buffer. refl;
  copies = λ n buffer. refl;
  slices = λ start end buffer. refl;
  puts_le = λ width x buffer. refl;
  puts = λ bytes buffer. refl;
  grows = λ buffer. refl;
  truncates = λ all bits. refl;
}

-- Whatever has the documented behaviour is that instance.
pub IsWire-plain : (wire : Wire) → IsWire wire → plain ≡ wire
IsWire-plain wire h = λ i. record {
  get_le = λ width buffer. sym (h.gets width buffer) i;
  advance = λ n buffer. sym (h.advances n buffer) i;
  copy_to_bytes = λ n buffer. sym (h.copies n buffer) i;
  slice = λ start end buffer. sym (h.slices start end buffer) i;
  put_le = λ width x buffer. sym (h.puts_le width x buffer) i;
  put = λ bytes buffer. sym (h.puts bytes buffer) i;
  remaining_mut = λ buffer. sym (h.grows buffer) i;
  from_bits_truncate = λ all bits. sym (h.truncates all bits) i;
}

-- What holds of that instance holds of all that have the documented behaviour.
pub of_plain {ℓ} : (P : Wire → Type ℓ) (wire : Wire) → IsWire wire → P plain → P wire
of_plain P wire h = subst P (IsWire-plain wire h)
