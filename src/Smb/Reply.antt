-- ===== src/Smb/Reply.antt =====
-- The replies to the client's commands (src/smb/reply.rs): what each `create` reads of the counted
-- parameter and data.
pub mod Laws
use cifs_client_stream.Common.{
  ℕ, ◌+◌, ◌%◌, List, [], ◌∷◌, Option, none, some, Bool, true, false, not, ltb, leb, ◌==◌,
  if◌then◌else◌, length, get_elem?, Result, ok, err, Run, done, fails, panics, and_then,
}
use cifs_client_stream.Stream.Buffer.{Bytes}
use cifs_client_stream.Media.Names.{Name}
use cifs_client_stream.Smb.Codes.{
  Cmd, SmbError, invalid_data, invalid_header, no_dialect, unsupported,
}
use cifs_client_stream.Smb.Handle.{Handle}
use cifs_client_stream.Smb.Info.{Info, has_flag, flag_unicode}
use cifs_client_stream.Smb.Frame.{Reply, ReplyCtx, is_some}
use cifs_client_stream.Smb.Wire.{
  Wire, Reading, ◌>>=◌, ◌>>◌, pure, given, fail_if, remaining, within, on, get_u8, get_u16_le,
  get_u32_le, get_u64_le, advance, copy_to_bytes,
}
use cifs_client_stream.Utils.{Chrono, decode_windows_time}
use cifs_client_stream.Utils.Unicode.{parse_str_0, parse_utf16le_0, parsed, as_bytes}

-- All flags of a set: `Capabilities` of src/smb/common.rs, the others of src/win.rs.
abbrev pub capabilities_all : ℕ
capabilities_all = 0xe281f3ff

abbrev pub dir_access_all : ℕ
dir_access_all = 0xf31f01ff

abbrev pub ext_file_attr_all : ℕ
ext_file_attr_all = 0xbf0009b7

abbrev pub oplock_all : ℕ
oplock_all = 0x03

abbrev pub disposition_all : ℕ
disposition_all = 0x07

abbrev pub resource_all : ℕ
resource_all = 0x0007

-- `SMB_SUPPORTED_DIALECTS`: NT LM 0.12.
abbrev pub supported_dialects : List Name
supported_dialects = (0x4e ∷ 0x54 ∷ 0x20 ∷ 0x4c ∷ 0x4d ∷ 0x20 ∷ 0x30 ∷ 0x2e ∷ 0x31 ∷ 0x32 ∷ []) ∷ []

-- `ServerSetup`.
pub record ServerSetup (chrono : Chrono) : Type 0 where
  pub dialect : ℕ
  pub security_mode : ℕ
  pub max_mpx_count : ℕ
  pub max_number_vcs : ℕ
  pub max_buffer_size : ℕ
  pub max_raw_size : ℕ
  pub session_key : ℕ
  pub capabilities : ℕ
  pub system_time : chrono.Date
  pub timezone : ℕ
  pub challenge : Bytes

-- `SessionSetup`.
pub record SessionSetup : Type 0 where
  pub guest_mode : Bool
  pub uid : ℕ
  pub security_blob : Bytes

-- `Share`.
pub record Share : Type 0 where
  pub access_rights : Option ℕ
  pub guest_rights : Option ℕ
  pub service : Name
  pub filesystem : Name
  pub tid : ℕ

-- `Handle::create`, the match on the last byte.
abbrev pub is_directory : ℕ → Result SmbError Bool
is_directory b = if b == 0 then ok false else (if b == 1 then ok true else err invalid_data)

module _ (wire : Wire) where
  -- `ServerSetup::create` behind its first check.
  unfoldable pub read_setup : (chrono : Chrono) → Bytes → Reading (ServerSetup chrono)
  read_setup chrono content = do
    dialect ← get_u16_le wire
    fail_if (dialect == 0xffff) no_dialect
    fail_if (not (is_some (get_elem? supported_dialects dialect))) invalid_header
    security_mode ← get_u8 wire
    max_mpx_count ← get_u16_le wire
    max_number_vcs ← get_u16_le wire
    max_buffer_size ← get_u32_le wire
    max_raw_size ← get_u32_le wire
    session_key ← get_u32_le wire
    capabilities ← get_u32_le wire
    system_time ← get_u64_le wire
    timezone ← get_u16_le wire
    challenge_length ← get_u8 wire
    fail_if (ltb (length content) challenge_length) invalid_data
    challenge ← within content (copy_to_bytes wire challenge_length)
    pure (record {
      dialect = dialect;
      security_mode = security_mode;
      max_mpx_count = max_mpx_count;
      max_number_vcs = max_number_vcs;
      max_buffer_size = max_buffer_size;
      max_raw_size = max_raw_size;
      session_key = session_key;
      capabilities = wire.from_bits_truncate capabilities_all capabilities;
      system_time = decode_windows_time chrono system_time;
      timezone = timezone;
      challenge = challenge;
    })

  -- `ServerSetup::create`.
  unfoldable pub create_server_setup :
      (chrono : Chrono) → ReplyCtx → Run SmbError (ServerSetup chrono)
  create_server_setup chrono ctx = on ctx.parameter (
      fail_if (ltb (length ctx.parameter) 17)
        (unsupported "negotiate header with too few parameter")
      >> read_setup chrono ctx.content)

  -- The length of the blob, where the parameter has one.
  abbrev pub blob_length : Bool → Reading ℕ
  blob_length true = get_u16_le wire
  blob_length false = pure 0

  -- `SessionSetup::create`.
  unfoldable pub create_session_setup : ReplyCtx → Run SmbError SessionSetup
  create_session_setup ctx = on ctx.parameter do
    action ← get_u16_le wire
    left ← remaining
    size ← blob_length (leb 2 left)
    blob ← within ctx.content (copy_to_bytes wire size)
    pure (record { guest_mode = action % 2 == 1; uid = ctx.info.uid; security_blob = blob })

  -- An optional access mask.
  abbrev pub rights : Bool → Reading (Option ℕ)
  rights true =
      get_u32_le wire >>= λ bits. pure (some (wire.from_bits_truncate dir_access_all bits))
  rights false = pure none

  -- One byte of padding, where there is one.
  abbrev pub skip_padding : Bool → Reading (Unit {0})
  skip_padding true = advance wire 1
  skip_padding false = pure tt

  abbrev pub filesystem_name : ℕ → Bool → Reading Name
  filesystem_name service_len true = do
    skip_padding (service_len % 2 == 1)
    name ← parse_utf16le_0 wire
    given (parsed name)
  filesystem_name service_len false = parse_str_0 wire >>= λ name. given (parsed name)

  -- `Share::create`, the data. `service.len()` counts the bytes of the name.
  unfoldable pub share_names : Bool → Reading (Name × Name)
  share_names unicode = do
    service ← parse_str_0 wire
    name ← given (parsed service)
    filesystem ← filesystem_name (length (as_bytes name)) unicode
    pure (name, filesystem)

  -- `Share::create`.
  unfoldable pub create_share : ReplyCtx → Run SmbError Share
  create_share ctx = on ctx.parameter do
    advance wire 2
    left ← remaining
    access_rights ← rights (leb 4 left)
    left ← remaining
    guest_rights ← rights (leb 4 left)
    names ← within ctx.content (share_names (has_flag ctx.info.flags2 flag_unicode))
    pure (record {
      access_rights = access_rights;
      guest_rights = guest_rights;
      service = names.0;
      filesystem = names.1;
      tid = ctx.info.tid;
    })

  -- `Handle::create`.
  unfoldable pub read_handle_words : ℕ → Reading Handle
  read_handle_words tid = do
    oplock ← get_u8 wire
    fid ← get_u16_le wire
    disposition ← get_u32_le wire
    create_time ← get_u64_le wire
    access_time ← get_u64_le wire
    write_time ← get_u64_le wire
    change_time ← get_u64_le wire
    attributes ← get_u32_le wire
    allocation_size ← get_u64_le wire
    size ← get_u64_le wire
    file_type ← get_u16_le wire
    advance wire 2
    kind ← get_u8 wire
    directory ← given (is_directory kind)
    pure (record {
      tid = tid;
      fid = fid;
      oplock = wire.from_bits_truncate oplock_all oplock;
      disposition = wire.from_bits_truncate disposition_all disposition;
      create_time = create_time;
      access_time = access_time;
      write_time = write_time;
      change_time = change_time;
      attributes = wire.from_bits_truncate ext_file_attr_all attributes;
      allocation_size = allocation_size;
      size = size;
      file_type = wire.from_bits_truncate resource_all file_type;
      directory = directory;
    })

  unfoldable pub create_handle : ReplyCtx → Run SmbError Handle
  create_handle ctx = on ctx.parameter (read_handle_words ctx.info.tid)

  -- `Read::create`, the data.
  unfoldable pub read_data : ℕ → Reading Bytes
  read_data size = do
    left ← remaining
    skip_padding (ltb size left)
    left ← remaining
    fail_if (not (left == size)) invalid_data
    copy_to_bytes wire size

  -- `Read::create`.
  unfoldable pub create_read : ReplyCtx → Run SmbError Bytes
  create_read ctx = on ctx.parameter do
    advance wire 2
    advance wire 2
    advance wire 2
    size ← get_u16_le wire
    within ctx.content (read_data size)

  -- The reply types; `Close` and `TreeDisconnect` read nothing.
  abbrev pub server_setup_reply : (chrono : Chrono) → Reply (ServerSetup chrono)
  server_setup_reply chrono = record {
    cmd = Cmd.negotiate;
    andx = false;
    create = create_server_setup chrono;
  }

  abbrev pub session_setup_reply : Reply SessionSetup
  session_setup_reply = record {
    cmd = Cmd.session_setup;
    andx = true;
    create = create_session_setup;
  }

  abbrev pub share_reply : Reply Share
  share_reply = record { cmd = Cmd.tree_connect; andx = true; create = create_share }

  abbrev pub handle_reply : Reply Handle
  handle_reply = record { cmd = Cmd.create; andx = true; create = create_handle }

  abbrev pub read_reply : Reply Bytes
  read_reply = record { cmd = Cmd.read; andx = true; create = create_read }

abbrev pub tree_disconnect_reply : Reply (Unit {0})
tree_disconnect_reply = record { cmd = Cmd.tree_disconnect; andx = false; create = λ ctx. done tt }

abbrev pub close_reply : Reply (Unit {0})
close_reply = record { cmd = Cmd.close; andx = false; create = λ ctx. done tt }
