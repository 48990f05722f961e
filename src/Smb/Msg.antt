-- ===== src/Smb/Msg.antt =====
-- The messages of the client (src/smb/msg.rs): the header fields that each sets, and the parameter
-- and data that its `body` writes.
pub mod Laws
use cifs_client_stream.Common.{
  ℕ, ◌+◌, ◌*◌, ◌/◌, ◌%◌, ◌^◌, List, [], ◌∷◌, Bool, true, false, leb, ◌==◌, if◌then◌else◌, length,
  Run, done, fails,
}
use cifs_client_stream.Stream.Buffer.{Bytes}
use cifs_client_stream.Media.Names.{Name}
use cifs_client_stream.Smb.Codes.{Cmd, create_packet}
use cifs_client_stream.Smb.Handle.{Handle}
use cifs_client_stream.Smb.Info.{Info, has_flag, flag_unicode}
use cifs_client_stream.Smb.Frame.{Message, Written}
use cifs_client_stream.Smb.Reply.{supported_dialects}
use cifs_client_stream.Smb.Wire.{Wire, put_bytes}
use cifs_client_stream.Utils.Unicode.{as_bytes, encode_utf16le, encode_utf16le_0}

-- The default `body` and `fix_header`, and `fix_header` with a share.
abbrev pub no_body : Info → Bytes → Bytes → Written
no_body info parameter content = done (parameter, content)

abbrev pub same_header : Info → Info
same_header info = info

abbrev pub on_share : ℕ → Info → Info
on_share tid info = record info { tid = tid }

-- `SessionSetupMode`: the secret is an array of 24 bytes.
pub data SessionSetupMode : Type 0 where
  classic : (user domain : Name) → (secret : Bytes) → SessionSetupMode
  extended : (blob : Bytes) → SessionSetupMode

-- `SessionSetup` of the messages.
pub record SetupRequest : Type 0 where
  pub max_buffer_size : ℕ
  pub max_mpx_count : ℕ
  pub vc_number : ℕ
  pub session_key : ℕ
  pub capabilities : ℕ
  pub mode : SessionSetupMode

-- `SessionSetup::with_auth`: UNICODE, LARGE_FILES, NT_SMBS, NTSTATUS.
abbrev pub with_auth : Name → Name → Bytes → SetupRequest
with_auth user domain secret = record {
  max_buffer_size = 65535;
  max_mpx_count = 0;
  vc_number = 0;
  session_key = 0;
  capabilities = 0x0000005c;
  mode = classic user domain secret;
}

-- `SessionSetup::with_blob`: those, and EXTENDED_SECURITY.
abbrev pub with_blob : Bytes → SetupRequest
with_blob blob = record {
  max_buffer_size = 65535;
  max_mpx_count = 0;
  vc_number = 0;
  session_key = 0;
  capabilities = 0x8000005c;
  mode = extended blob;
}

-- `TreeConnect`, with the flags of `TreeConnect::new`: EXTENDED_RESPONSE.
pub record TreeConnect : Type 0 where
  pub path : Name
  pub password : Name
  pub flags : ℕ

abbrev pub new_tree_connect : Name → Name → TreeConnect
new_tree_connect path password = record { path = path; password = password; flags = 0x0008 }

-- `Open`; `Open::file_ro` asks for READ, READ_EA and SYNCHRONIZE on a file that is there.
pub record Open : Type 0 where
  pub tid : ℕ
  pub filename : Name
  pub create_flags : ℕ
  pub directory : ℕ
  pub access : ℕ
  pub allocation_size : ℕ
  pub attributes : ℕ
  pub share_access : ℕ
  pub disposition : ℕ
  pub options : ℕ
  pub impersonation : ℕ
  pub security : ℕ

abbrev pub file_ro : ℕ → Name → Open
file_ro tid filename = record {
  tid = tid;
  filename = filename;
  create_flags = 0;
  directory = 0;
  access = 0x00100009;
  allocation_size = 0;
  attributes = 0;
  share_access = 0x00000001;
  disposition = 0x00000001;
  options = 0x00000040;
  impersonation = 0x00000002;
  security = 0;
}

-- `Close` and `Read`, with their constructors from a handle.
pub record Close : Type 0 where
  pub tid : ℕ
  pub fid : ℕ

abbrev pub close_handle : Handle → Close
close_handle file = record { tid = file.tid; fid = file.fid }

pub record Read : Type 0 where
  pub tid : ℕ
  pub fid : ℕ
  pub offset : ℕ
  pub count : ℕ

abbrev pub read_handle_at : Handle → ℕ → ℕ → Read
read_handle_at file offset count = record {
  tid = file.tid;
  fid = file.fid;
  offset = offset;
  count = count;
}

-- `SMB_READ_MIN`.
abbrev pub smb_read_min : ℕ
smb_read_min = 32768

module _ (wire : Wire) where
  -- `Negotiate::body`.
  unfoldable pub put_dialects : List Name → Bytes → Bytes
  put_dialects [] content = content
  put_dialects (d ∷ ds) content =
      put_dialects ds (wire.put_le 1 0x00 (wire.put (as_bytes d) (wire.put_le 1 0x02 content)))

  abbrev pub negotiate_msg : Message
  negotiate_msg = record {
    cmd = Cmd.negotiate;
    andx = false;
    fix_header = same_header;
    body = λ info parameter content. done (parameter, put_dialects supported_dialects content);
  }

  abbrev pub pad_if : Bool → Bytes → Bytes
  pad_if true content = wire.put_le 1 0 content
  pad_if false content = content

  -- `SessionSetup::body`: the os and lanman names are empty.
  abbrev pub put_no_names : Bool → Bytes → Bytes
  put_no_names true content = wire.put_le 2 0 (wire.put_le 2 0 content)
  put_no_names false content = put_bytes wire 0 2 content

  -- The parameter and the data of a mode. An array of 24 bytes always has a length.
  unfoldable pub put_mode : SetupRequest → Info → Bytes → Bytes → SessionSetupMode → Written
  put_mode m info parameter content (classic user domain secret) =
      let unicode = has_flag info.flags2 flag_unicode in
      let p₁ = wire.put_le 2 (length secret) (wire.put_le 2 (length secret) parameter) in
      let p₂ = wire.put_le 4 m.capabilities (wire.put_le 4 0 p₁) in
      let d₁ = wire.put secret (wire.put secret content) in
      let d₂ = pad_if (length d₁ % 2 == 0) d₁ in
      let d₃ = wire.put (encode_utf16le_0 domain) (wire.put (encode_utf16le_0 user) d₂) in
      done (p₂, put_no_names unicode d₃)
  put_mode m info parameter content (extended blob) =
      let unicode = has_flag info.flags2 flag_unicode in
      if leb 65536 (length blob)
      then fails (create_packet "blob in SessionSetup too big")
      else (let p =
            wire.put_le 4 m.capabilities
              (wire.put_le 4 0 (wire.put_le 2 (length blob) parameter)) in
          let d = pad_if (length blob % 2 == 0) (wire.put blob content) in
          done (p, put_no_names unicode d))

  -- `SessionSetup::body`.
  unfoldable pub session_setup_body : SetupRequest → Info → Bytes → Bytes → Written
  session_setup_body m info parameter content =
      let p₁ = wire.put_le 2 m.max_mpx_count (wire.put_le 2 m.max_buffer_size parameter) in
      let p₂ = wire.put_le 4 m.session_key (wire.put_le 2 m.vc_number p₁) in
      put_mode m info p₂ content m.mode

  abbrev pub session_setup_msg : SetupRequest → Message
  session_setup_msg m = record {
    cmd = Cmd.session_setup;
    andx = true;
    fix_header = same_header;
    body = session_setup_body m;
  }

  -- The password as it is sent: an empty one is a single zero.
  abbrev pub password_bytes : Name → Bytes
  password_bytes [] = 0 ∷ []
  password_bytes (c ∷ cs) = as_bytes (c ∷ cs)

  -- `TreeConnect::body`, the path; '?????' stands for any service.
  abbrev pub put_path : Bool → ℕ → Name → Bytes → Bytes
  put_path true password_len path content =
      wire.put_le 2 0 (wire.put (encode_utf16le path) (pad_if (password_len % 2 == 0) content))
  put_path false password_len path content = wire.put_le 1 0 (wire.put (as_bytes path) content)

  unfoldable pub tree_connect_body : TreeConnect → Info → Bytes → Bytes → Written
  tree_connect_body m info parameter content =
      let password = password_bytes m.password in
      if leb 65536 (length password)
      then fails (create_packet "password too long")
      else (let d =
            put_path (has_flag info.flags2 flag_unicode) (length password) m.path
              (wire.put password content) in
          done (
            wire.put_le 2 (length password) (wire.put_le 2 m.flags parameter),
            wire.put_le 1 0 (put_bytes wire 0x3f 5 d),
          ))

  abbrev pub tree_connect_msg : TreeConnect → Message
  tree_connect_msg m = record {
    cmd = Cmd.tree_connect;
    andx = true;
    fix_header = same_header;
    body = tree_connect_body m;
  }

  -- `Open::body`.
  unfoldable pub open_body : Open → Info → Bytes → Bytes → Written
  open_body m info parameter content =
      let name = encode_utf16le_0 m.filename in
      if leb 65536 (length name)
      then fails (create_packet "filename too long")
      else (let p₁ = wire.put_le 2 (length name) (wire.put_le 1 0 parameter) in
          let p₂ =
            wire.put_le 4 m.access (wire.put_le 4 m.directory (wire.put_le 4 m.create_flags p₁)) in
          let p₃ = wire.put_le 4 m.attributes (wire.put_le 8 m.allocation_size p₂) in
          let p₄ = wire.put_le 4 m.disposition (wire.put_le 4 m.share_access p₃) in
          let p₅ = wire.put_le 4 m.impersonation (wire.put_le 4 m.options p₄) in
          done (wire.put_le 1 m.security p₅, wire.put name (wire.put_le 1 0 content)))

  abbrev pub open_msg : Open → Message
  open_msg m = record {
    cmd = Cmd.create;
    andx = true;
    fix_header = on_share m.tid;
    body = open_body m;
  }

  -- `Close::body`: 0 does not update the time of the last change.
  unfoldable pub close_body : Close → Info → Bytes → Bytes → Written
  close_body m info parameter content =
      done (wire.put_le 4 0 (wire.put_le 2 m.fid parameter), content)

  abbrev pub close_msg : Close → Message
  close_msg m = record {
    cmd = Cmd.close;
    andx = false;
    fix_header = on_share m.tid;
    body = close_body m;
  }

  -- `Read::body`.
  unfoldable pub read_body : Read → Info → Bytes → Bytes → Written
  read_body m info parameter content =
      let p₁ = wire.put_le 4 (m.offset % 2 ^ 32) (wire.put_le 2 m.fid parameter) in
      let p₂ = wire.put_le 2 smb_read_min (wire.put_le 2 (m.count % 65536) p₁) in
      let p₃ = wire.put_le 2 0 (wire.put_le 2 0 (wire.put_le 2 (m.count / 65536 % 65536) p₂)) in
      done (wire.put_le 4 (m.offset / 2 ^ 32) p₃, content)

  abbrev pub read_msg : Read → Message
  read_msg m = record {
    cmd = Cmd.read;
    andx = true;
    fix_header = on_share m.tid;
    body = read_body m;
  }

-- `TreeDisconnect`.
abbrev pub tree_disconnect_msg : ℕ → Message
tree_disconnect_msg tid = record {
  cmd = Cmd.tree_disconnect;
  andx = false;
  fix_header = on_share tid;
  body = no_body;
}
