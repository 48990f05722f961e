-- ===== src/Ntlm.antt =====
-- The layout of NTLM messages (src/ntlm/buffer.rs, src/ntlm/packet.rs, src/ntlm/init.rs): fields of
-- eight bytes that point to data behind the fixed part of a message, and the first message.

pub mod Laws
pub mod Challenge
pub mod Auth
pub mod Tests
use cifs_client_stream.Common.{
  ℕ, ◌+◌, ◌%◌, ◌^◌, Bool, true, false, List, [], ◌∷◌, ◌++◌, Option, none, some, ltb, if◌then◌else◌,
  length, Result, ok, err, ◌>>=◌, Run, done, panics, and_then,
}
use cifs_client_stream.Errors.{NtlmError}
use cifs_client_stream.Media.Names.{Name}
use cifs_client_stream.Stream.Buffer.{Bytes}
use cifs_client_stream.Smb.Wire.{Wire, put_bytes}
use cifs_client_stream.Utils.Unicode.{as_bytes, encode_utf16le}

-- `Buffer`.
pub record Field : Type 0 where
  pub length : ℕ
  pub capacity : ℕ
  pub position : ℕ

pub data PacketEntry : Type 0 where
  binary : Bytes → PacketEntry
  buffer : Field → PacketEntry

pub record Packet : Type 0 where
  pub entries : List PacketEntry
  pub extra : Bytes

-- `PacketEntry::len`.
unfoldable pub entry_len : PacketEntry → ℕ
entry_len (binary v) = length v
entry_len (buffer field) = 8

unfoldable pub base_len : List PacketEntry → ℕ
unfolding entry_len
base_len [] = 0
base_len (e ∷ es) = entry_len e + base_len es

-- `Packet::new`.
abbrev pub new_packet : Packet
new_packet = record { entries = []; extra = [] }

unfoldable pub append_binary : Bytes → Packet → Packet
append_binary v p = record p { entries = p.entries ++ binary v ∷ [] }

unfoldable pub append_buffer : Bytes → Packet → Packet
append_buffer content p =
    let field : Field = record {
      length = length content;
      capacity = length content;
      position = length p.extra;
    } in
    record { entries = p.entries ++ buffer field ∷ []; extra = p.extra ++ content }

unfoldable pub append_string : Name → Bool → Packet → Packet
unfolding append_buffer
append_string msg true p = append_buffer (encode_utf16le msg) p
append_string msg false p = append_buffer (as_bytes msg) p

-- `NTLMSSP_MAGIC` and the numbers of the messages.
abbrev pub ntlmssp_magic : Bytes
ntlmssp_magic = 78 ∷ 84 ∷ 76 ∷ 77 ∷ 83 ∷ 83 ∷ 80 ∷ 0 ∷ []

abbrev pub ntlm_msg_init : ℕ
ntlm_msg_init = 1

abbrev pub ntlm_msg_challenge : ℕ
ntlm_msg_challenge = 2

abbrev pub ntlm_revision : ℕ
ntlm_revision = 15

pub record Version : Type 0 where
  pub major : ℕ
  pub minor : ℕ
  pub build : ℕ

-- `Version::default`.
abbrev pub default_version : Version
default_version = record { major = 5; minor = 0; build = 2195 }

pub record Origin : Type 0 where
  pub workstation : Name
  pub domain : Name

pub record InitMsg : Type 0 where
  pub flags : ℕ
  pub origin : Option Origin
  pub version : Option Version

-- `InitMsg::new`.
abbrev pub new_init : ℕ → InitMsg
new_init flags = record { flags = flags; origin = none; version = none }

abbrev pub set_origin : Name → Name → InitMsg → InitMsg
set_origin domain workstation msg = record msg {
  origin = some (record { workstation = workstation; domain = domain });
}

abbrev pub set_version : ℕ → ℕ → ℕ → InitMsg → InitMsg
set_version major minor build msg = record msg {
  version = some (record { major = major; minor = minor; build = build });
}

abbrev pub set_default_version : InitMsg → InitMsg
set_default_version msg = record msg { version = some default_version }

unfoldable pub put_origin : Option Origin → Packet → Packet
unfolding append_buffer
put_origin none p = p
put_origin (some origin) p =
    append_buffer (as_bytes origin.workstation) (append_buffer (as_bytes origin.domain) p)

module _ (wire : Wire) where
  -- A call of the cursor, which panics beyond the end.
  abbrev pub or_panic {ℓ} : {A : Type ℓ} → Option A → Run NtlmError A
  or_panic none = panics
  or_panic (some a) = done a

  -- `Buffer::parse`.
  unfoldable pub parse_field : Bytes → Run NtlmError (Field × Bytes)
  parse_field bytes = and_then (or_panic (wire.get_le 2 bytes)) λ l.
      and_then (or_panic (wire.get_le 2 l.1)) λ c.
        and_then (or_panic (wire.get_le 4 c.1))
          λ p. done (record { length = l.0; capacity = c.0; position = p.0 }, p.1)

  -- `Buffer::extract`.
  unfoldable pub extract : Field → Bytes → Run NtlmError Bytes
  extract field bytes =
      or_panic (wire.slice field.position ((field.position + field.length) % 2 ^ 64) bytes)

  -- `Version::as_bytes`.
  unfoldable pub version_bytes : Version → Bytes
  version_bytes v = wire.put_le 1 ntlm_revision (
      put_bytes wire 0 3 (wire.put_le 2 v.build (wire.put_le 1 v.minor (wire.put_le 1 v.major []))))

  unfoldable pub put_version : Option Version → Packet → Packet
  unfolding append_binary version_bytes
  put_version none p = p
  put_version (some v) p = append_binary (version_bytes v) p

  -- The packet that `InitMsg::to_bytes` builds. `append_u32` appends the bytes that `put_u32_le` does.
  unfoldable pub init_packet : InitMsg → Packet
  unfolding append_binary put_origin put_version
  init_packet msg = put_version msg.version (
      put_origin msg.origin (
        append_binary (wire.put_le 4 msg.flags []) (
          append_binary (wire.put_le 4 ntlm_msg_init []) (append_binary ntlmssp_magic new_packet))))

  -- `numeric_conversion` is the error that `From<TryFromIntError>` makes, with the library's text.
  module _ (numeric_conversion : NtlmError) where
    abbrev pub try_into : ℕ → ℕ → Result NtlmError ℕ
    try_into width x = if ltb x (256 ^ width) then ok x else err numeric_conversion

    -- `Buffer::write`.
    unfoldable pub write_field : Field → ℕ → Bytes → Result NtlmError Bytes
    write_field field offset out = do
      length ← try_into 2 field.length
      capacity ← try_into 2 field.capacity
      position ← try_into 4 ((offset + field.position) % 2 ^ 64)
      ok (wire.put_le 4 position (wire.put_le 2 capacity (wire.put_le 2 length out)))

    unfoldable pub write_entry : ℕ → PacketEntry → Bytes → Result NtlmError Bytes
    unfolding write_field
    write_entry offset (binary v) out = ok (wire.put v out)
    write_entry offset (buffer field) out = write_field field offset out

    unfoldable pub write_entries : ℕ → List PacketEntry → Bytes → Result NtlmError Bytes
    unfolding write_entry
    write_entries offset [] out = ok out
    write_entries offset (e ∷ es) out = write_entry offset e out >>= write_entries offset es

    -- `Packet::to_bytes`.
    unfoldable pub to_bytes : Packet → Result NtlmError Bytes
    unfolding base_len write_entries
    to_bytes p = do out ← write_entries (base_len p.entries) p.entries []; ok (wire.put p.extra out)

    -- `InitMsg::to_bytes`.
    unfoldable pub init_bytes : InitMsg → Result NtlmError Bytes
    unfolding init_packet to_bytes
    init_bytes msg = to_bytes (init_packet msg)
