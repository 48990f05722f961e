-- ===== src/Smb/Msg/Laws/Opening.antt =====
-- The message that opens a file (`Open` of src/smb/msg.rs) against what a server reads of it.
use cifs_client_stream.Common.{ℕ, ◌^◌, ◌<◌, ◌≡◌, refl, [], ◌++◌, some, true, All, length, Run}
use cifs_client_stream.Stream.Buffer.{Bytes}
use cifs_client_stream.Media.Names.{Name}
use cifs_client_stream.Smb.Codes.{Cmd, SmbError}
use cifs_client_stream.Smb.Info.{Info}
use cifs_client_stream.Smb.Wire.{
  Wire, Reading, ◌>>=◌, ◌>>◌, pure, given, on, within, get_u8, get_u16_le, get_u32_le, get_u64_le,
  advance,
}
use cifs_client_stream.Smb.Wire.Plain.{le_bytes, skip}
use cifs_client_stream.Smb.Frame.{Reply, ReplyCtx}
use cifs_client_stream.Smb.Msg.{Open}
use cifs_client_stream.Utils.Unicode.{encode_utf16le_0, parse_utf16le_0, parsed}
use cifs_client_stream.Utils.Unicode.Laws.Terminated.{IsText}

-- What a server takes from the words and the data of NtCreateAndX (MS-CIFS 2.2.4.64.1).
abbrev pub serve_name : Wire → Reading Name
serve_name wire = do advance wire 1; name ← parse_utf16le_0 wire; given (parsed name)

abbrev pub serve_open : Wire → ReplyCtx → Run SmbError Open
serve_open wire ctx = on ctx.parameter do
  advance wire 1
  name_length ← get_u16_le wire
  create_flags ← get_u32_le wire
  directory ← get_u32_le wire
  access ← get_u32_le wire
  allocation_size ← get_u64_le wire
  attributes ← get_u32_le wire
  share_access ← get_u32_le wire
  disposition ← get_u32_le wire
  options ← get_u32_le wire
  impersonation ← get_u32_le wire
  security ← get_u8 wire
  filename ← within ctx.content (serve_name wire)
  pure (record {
    tid = ctx.info.tid;
    filename = filename;
    create_flags = create_flags;
    directory = directory;
    access = access;
    allocation_size = allocation_size;
    attributes = attributes;
    share_access = share_access;
    disposition = disposition;
    options = options;
    impersonation = impersonation;
    security = security;
  })

abbrev pub open_server : Wire → Reply Open
open_server wire = record { cmd = Cmd.create; andx = true; create = serve_open wire }

-- The fields fit their widths, and the name its count.
pub record IsOpen (m : Open) : Type 0 where
  pub text : All IsText m.filename
  pub name_short : length (encode_utf16le_0 m.filename) < 65535
  pub flags_small : m.create_flags < 256 ^ 4
  pub directory_small : m.directory < 256 ^ 4
  pub access_small : m.access < 256 ^ 4
  pub allocation_small : m.allocation_size < 256 ^ 8
  pub attributes_small : m.attributes < 256 ^ 4
  pub share_small : m.share_access < 256 ^ 4
  pub disposition_small : m.disposition < 256 ^ 4
  pub options_small : m.options < 256 ^ 4
  pub impersonation_small : m.impersonation < 256 ^ 4
  pub security_small : m.security < 256

abbrev open_words : Open → Bytes
open_words m =
    le_bytes 1 0
    ++ (le_bytes 2 (length (encode_utf16le_0 m.filename))
        ++ (le_bytes 4 m.create_flags
            ++ (le_bytes 4 m.directory
                ++ (le_bytes 4 m.access
                    ++ (le_bytes 8 m.allocation_size
                        ++ (le_bytes 4 m.attributes
                            ++ (le_bytes 4 m.share_access
                                ++ (le_bytes 4 m.disposition
                                    ++ (le_bytes 4 m.options
                                        ++ (le_bytes 4 m.impersonation
                                            ++ (le_bytes 1 m.security ++ [])))))))))))

abbrev open_data : Open → Bytes
open_data m = le_bytes 1 0 ++ encode_utf16le_0 m.filename

pub skip_byte : (x : ℕ) (rest : Bytes) → skip 1 (le_bytes 1 x ++ rest) ≡ some rest
unfolding skip le_bytes
skip_byte x rest = refl
