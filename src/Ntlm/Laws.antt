-- ===== src/Ntlm/Laws.antt =====
-- What a packet holds when it is written.
pub mod Buffers
pub mod Init
use cifs_client_stream.Common.{
  ℕ, ◌+◌, ◌-◌, ◌%◌, ◌^◌, ◌<◌, ◌≤◌, ◌≡◌, refl, sym, ap, ap₂, subst, ◌∙◌, List, [], ◌∷◌, ◌++◌, Bool,
  true, false, ltb, leb, length, take, drop, All, Result, ok, err, ◌>>=◌, Run, done, and_then,
  arith, append-nil, append_assoc, length-append, take-append_self, drop-append_self,
}
use cifs_client_stream.Errors.{NtlmError}
use cifs_client_stream.Stream.Buffer.{Bytes}
use cifs_client_stream.Smb.Wire.{Wire}
use cifs_client_stream.Smb.Wire.Plain.{plain, IsWire, of_plain, le_bytes, range}
use cifs_client_stream.Smb.Wire.Laws.{length-le_bytes, read_le-le_bytes}
use cifs_client_stream.Ntlm.{
  Field, PacketEntry, binary, buffer, Packet, entry_len, base_len, append_buffer, parse_field,
  extract, write_field, write_entry, write_entries, to_bytes,
}

-- The numbers of an entry fit the integers that they are written as.
unfoldable pub IsFit : ℕ → PacketEntry → Type 0
IsFit offset (binary v) = Unit {0}
IsFit offset (buffer field) =
    (field.length < 2 ^ 16) × (field.capacity < 2 ^ 16) × (offset + field.position < 2 ^ 32)

abbrev pub IsWritable : Packet → Type 0
IsWritable p = All (IsFit (base_len p.entries)) p.entries

unfoldable pub field_bytes : ℕ → Field → Bytes
field_bytes offset field =
    le_bytes 2 field.length ++ (le_bytes 2 field.capacity ++ le_bytes 4 (offset + field.position))

unfoldable pub entry_bytes : ℕ → PacketEntry → Bytes
unfolding field_bytes
entry_bytes offset (binary v) = v
entry_bytes offset (buffer field) = field_bytes offset field

unfoldable pub entries_bytes : ℕ → List PacketEntry → Bytes
unfolding entry_bytes
entries_bytes offset [] = []
entries_bytes offset (e ∷ es) = entry_bytes offset e ++ entries_bytes offset es

pub length-entry_bytes :
    (offset : ℕ) (e : PacketEntry) → length (entry_bytes offset e) ≡ entry_len e
unfolding entry_len entry_bytes field_bytes le_bytes
length-entry_bytes offset (binary v) = refl
length-entry_bytes offset (buffer field) = refl

pub length-entries_bytes :
    (offset : ℕ) (es : List PacketEntry) → length (entries_bytes offset es) ≡ base_len es
unfolding entries_bytes base_len
length-entries_bytes offset [] = refl
length-entries_bytes offset (e ∷ es) = omega (
  arith,
  length-append (entry_bytes offset e) (entries_bytes offset es),
  length-entry_bytes offset e,
  length-entries_bytes offset es,
)

pub entries_bytes-append :
    (offset : ℕ) (es fs : List PacketEntry)
    → entries_bytes offset (es ++ fs) ≡ entries_bytes offset es ++ entries_bytes offset fs
unfolding entries_bytes
entries_bytes-append offset [] fs = refl
entries_bytes-append offset (e ∷ es) fs =
    ap (λ l. entry_bytes offset e ++ l) (entries_bytes-append offset es fs)
    ∙ sym (append_assoc (entry_bytes offset e) (entries_bytes offset es) (entries_bytes offset fs))

module _ (nc : NtlmError) where
  write_entry_lem :
      (offset : ℕ) (e : PacketEntry) (out : Bytes)
      → IsFit offset e
      → write_entry plain nc offset e out ≡ ok (out ++ entry_bytes offset e)
  unfolding IsFit write_entry write_field entry_bytes field_bytes
  write_entry_lem offset (binary v) out fit = refl
  write_entry_lem offset (buffer field) out fit =
      let small : (offset + field.position) % 2 ^ 64 ≡ offset + field.position =
        omega (arith, fit.2) in
      let l : ltb field.length (256 ^ 2) ≡ true = ground (arith, fit.0) in
      let c : ltb field.capacity (256 ^ 2) ≡ true = ground (arith, fit.1) in
      let p : ltb (offset + field.position) (256 ^ 4) ≡ true = ground (arith, fit.2) in
      rw (l, c, small, p)
        (ap ok (
          append_assoc (out ++ le_bytes 2 field.length) (le_bytes 2 field.capacity)
            (le_bytes 4 (offset + field.position))
          ∙ append_assoc out (le_bytes 2 field.length)
              (le_bytes 2 field.capacity ++ le_bytes 4 (offset + field.position))))

  write_entries_lem :
      (offset : ℕ) (es : List PacketEntry) (out : Bytes)
      → All (IsFit offset) es
      → write_entries plain nc offset es out ≡ ok (out ++ entries_bytes offset es)
  unfolding write_entries entries_bytes
  write_entries_lem offset [] out fit = ap ok (sym (append-nil out))
  write_entries_lem offset (e ∷ es) out fit = rw (write_entry_lem offset e out fit.0) (
      write_entries_lem offset es (out ++ entry_bytes offset e) fit.1
      ∙ ap ok (append_assoc out (entry_bytes offset e) (entries_bytes offset es)))

  pub to_bytes-plain :
      (p : Packet)
      → IsWritable p
      → to_bytes plain nc p ≡ ok (entries_bytes (base_len p.entries) p.entries ++ p.extra)
  unfolding to_bytes
  to_bytes-plain p fit = rw (write_entries_lem (base_len p.entries) p.entries [] fit) refl

-- A field is read back from its bytes.
pub parse_field_lem :
    (offset : ℕ) (field : Field) (rest : Bytes)
    → IsFit offset (buffer field)
    → parse_field plain (field_bytes offset field ++ rest)
      ≡ done (
        record {
          length = field.length;
          capacity = field.capacity;
          position = offset + field.position;
        },
        rest,
      )
unfolding IsFit parse_field field_bytes
parse_field_lem offset field rest fit =
    let position = le_bytes 4 (offset + field.position) in
    rw
      (
        append_assoc (le_bytes 2 field.length) (le_bytes 2 field.capacity ++ position) rest,
        append_assoc (le_bytes 2 field.capacity) position rest,
        read_le-le_bytes 2 field.length (le_bytes 2 field.capacity ++ (position ++ rest)) fit.0,
        read_le-le_bytes 2 field.capacity (position ++ rest) fit.1,
        read_le-le_bytes 4 (offset + field.position) rest fit.2,
      )
      refl

-- Bytes between two others are cut out at their place.
pub extract_lem :
    (field : Field) (front content back out : Bytes)
    → field.length ≡ length content
    → field.position ≡ length front
    → out ≡ front ++ (content ++ back)
    → length front + length content < 2 ^ 64
    → extract plain field out ≡ done content
unfolding extract range
extract_lem field front content back out same place eq small =
    let whole : length (front ++ (content ++ back))
        ≡ length front + (length content + length back) =
      length-append front (content ++ back)
      ∙ ap (λ n. length front + n) (length-append content back) in
    let end : (length front + length content) % 2 ^ 64 ≡ length front + length content =
      omega arith in
    let before : leb (length front) (length front + length content) ≡ true = ground arith in
    let inside : leb (length front + length content) (length (front ++ (content ++ back))) ≡ true =
      ground (arith, whole) in
    let size : length front + length content - length front ≡ length content = omega arith in
    rw
      (
        eq,
        same,
        place,
        end,
        before,
        inside,
        size,
        drop-append_self front (content ++ back),
        take-append_self content back,
      )
      refl
