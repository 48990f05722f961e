-- ===== src/Ntlm/Laws/Buffers.antt =====
-- A buffer of a packet is found again in the message.
use cifs_client_stream.Common.{
  ℕ, ◌+◌, ◌≡◌, refl, sym, ap, ap₂, subst, ◌∙◌, List, [], ◌∷◌, ◌++◌, length, drop, All, ok, Run,
  done, and_then, arith, append_assoc, length-append, drop-append_self,
}
use cifs_client_stream.Errors.{NtlmError}
use cifs_client_stream.Stream.Buffer.{Bytes}
use cifs_client_stream.Smb.Wire.{Wire}
use cifs_client_stream.Smb.Wire.Plain.{plain, IsWire, of_plain}
use cifs_client_stream.Ntlm.Laws.{
  IsFit, IsWritable, field_bytes, entry_bytes, entries_bytes, length-entry_bytes,
  length-entries_bytes, entries_bytes-append, to_bytes-plain, parse_field_lem, extract_lem,
}
use cifs_client_stream.Ntlm.{
  Field, PacketEntry, buffer, Packet, entry_len, base_len, append_buffer, parse_field, extract,
  to_bytes,
}

-- The field at a place of a message, and its data, as `ChallengeMsg::parse` reads them.
unfoldable pub field_at : Wire → ℕ → Bytes → Run NtlmError Bytes
unfolding parse_field extract
field_at wire at out = and_then (parse_field wire (drop at out)) λ r. extract wire r.0 out

-- A packet to which more was appended.
abbrev pub extended : List PacketEntry → Bytes → Packet → Packet
extended later tail p = record { entries = p.entries ++ later; extra = p.extra ++ tail }

All-right : (P : PacketEntry → Type 0) (es fs : List PacketEntry) → All P (es ++ fs) → All P fs
All-right P [] fs h = h
All-right P (e ∷ es) fs h = All-right P es fs h.1

base_len-append : (es fs : List PacketEntry) → base_len (es ++ fs) ≡ base_len es + base_len fs
unfolding base_len
base_len-append [] fs = omega arith
base_len-append (e ∷ es) fs = omega (arith, base_len-append es fs)

-- The bytes of a message before, at and behind one of its fields.
field_at_lem :
    (offset : ℕ) (before after : Bytes) (field : Field) (extra content tail : Bytes)
    → IsFit offset (buffer field)
    → field.length ≡ length content
    → field.position ≡ length extra
    → offset ≡ length before + (8 + length after)
    → field_at plain
        (length before)
        (before ++ (field_bytes offset field ++ (after ++ (extra ++ (content ++ tail)))))
      ≡ done content
unfolding field_at IsFit entry_len entry_bytes
field_at_lem offset before after field extra content tail fit same place total =
    let bytes = field_bytes offset field in
    let front = before ++ (bytes ++ (after ++ extra)) in
    let inner : bytes ++ (after ++ (extra ++ (content ++ tail)))
        ≡ (bytes ++ (after ++ extra)) ++ (content ++ tail) =
      ap (λ l. bytes ++ l) (sym (append_assoc after extra (content ++ tail)))
      ∙ sym (append_assoc bytes (after ++ extra) (content ++ tail)) in
    let out_eq : before ++ (bytes ++ (after ++ (extra ++ (content ++ tail))))
        ≡ front ++ (content ++ tail) =
      ap (λ l. before ++ l) inner
      ∙ sym (append_assoc before (bytes ++ (after ++ extra)) (content ++ tail)) in
    let eight : length bytes ≡ 8 = length-entry_bytes offset (buffer field) in
    let long : offset + field.position ≡ length front = omega (
      arith,
      length-append before (bytes ++ (after ++ extra)),
      length-append bytes (after ++ extra),
      length-append after extra,
      eight,
      total,
      place,
    ) in
    rw
      (
        drop-append_self before (bytes ++ (after ++ (extra ++ (content ++ tail)))),
        parse_field_lem offset field (after ++ (extra ++ (content ++ tail))) fit,
      )
      (extract_lem (record field { position = offset + field.position }) front content tail _ same
        long out_eq (omega (arith, long, fit.0, fit.2, same)))

unfoldable FieldWritten :
    (nc : NtlmError) (later : List PacketEntry) (content tail : Bytes) (p : Packet) → Wire → Type 0
unfolding append_buffer
FieldWritten nc later content tail p wire =
    (out : Bytes) × (to_bytes wire nc (extended later tail (append_buffer content p)) ≡ ok out)
    × (field_at wire (base_len p.entries) out ≡ done content)

FieldWritten-plain :
    (nc : NtlmError) (later : List PacketEntry) (content tail : Bytes) (p : Packet)
    → IsWritable (extended later tail (append_buffer content p))
    → FieldWritten nc later content tail p plain
unfolding append_buffer IsFit base_len entry_len entries_bytes entry_bytes FieldWritten
FieldWritten-plain nc later content tail p fit =
    let q = extended later tail (append_buffer content p) in
    let offset = base_len q.entries in
    let field : Field = record {
      length = length content;
      capacity = length content;
      position = length p.extra;
    } in
    let before = entries_bytes offset p.entries in
    let after = entries_bytes offset later in
    let bytes = field_bytes offset field in
    let split : q.entries ≡ p.entries ++ (buffer field ∷ later) =
      append_assoc p.entries (buffer field ∷ []) later in
    let fits = subst (All (IsFit offset)) split fit in
    let total : offset ≡ length before + (8 + length after) = omega (
      arith,
      ap base_len split,
      base_len-append p.entries (buffer field ∷ later),
      length-entries_bytes offset p.entries,
      length-entries_bytes offset later,
    ) in
    let entries_eq : entries_bytes offset q.entries ≡ before ++ (bytes ++ after) =
      ap (entries_bytes offset) split
      ∙ entries_bytes-append offset p.entries (buffer field ∷ later) in
    let out_eq : entries_bytes offset q.entries ++ q.extra
        ≡ before ++ (bytes ++ (after ++ (p.extra ++ (content ++ tail)))) =
      ap₂ (λ x y. x ++ y) entries_eq (append_assoc p.extra content tail)
      ∙ append_assoc before (bytes ++ after) (p.extra ++ (content ++ tail))
      ∙ ap (λ l. before ++ l) (append_assoc bytes after (p.extra ++ (content ++ tail))) in
    let out = before ++ (bytes ++ (after ++ (p.extra ++ (content ++ tail)))) in
    let read =
      field_at_lem offset before after field p.extra content tail
        (All-right (IsFit offset) p.entries (buffer field ∷ later) fits).0 refl refl total in
    (
      out,
      to_bytes-plain nc q fit ∙ ap ok out_eq,
      subst (λ n. field_at plain n out ≡ done content) (length-entries_bytes offset p.entries) read,
    )

-- Where all numbers of a packet fit their integers, the packet is written, and the data of a buffer is
-- read back through the field at its place, whatever was appended before and after it.
pub to_bytes-field_at :
    (wire : Wire) (nc : NtlmError) (later : List PacketEntry) (content tail : Bytes) (p : Packet)
    → IsWire wire
    → IsWritable (extended later tail (append_buffer content p))
    → (out : Bytes) × (to_bytes wire nc (extended later tail (append_buffer content p)) ≡ ok out)
      × (field_at wire (base_len p.entries) out ≡ done content)
unfolding append_buffer FieldWritten
to_bytes-field_at wire nc later content tail p is_wire fit =
    of_plain (FieldWritten nc later content tail p) wire is_wire
      (FieldWritten-plain nc later content tail p fit)
