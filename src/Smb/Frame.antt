-- ===== src/Smb/Frame.antt =====
-- The frame of a message behind its header (src/smb/common.rs, src/smb/msg.rs, src/smb/reply.rs):
-- counted parameter words, the first of them an `AndX` for some commands, and counted data bytes.
pub mod Laws
use cifs_client_stream.Common.{
  ℕ, ◌+◌, ◌*◌, ◌/◌, ◌^◌, List, [], ◌∷◌, ◌++◌, Option, none, some, Bool, true, false, not, ltb, leb,
  ◌==◌, if◌then◌else◌, length, Result, ok, err, Run, done, fails, panics, and_then,
}
use cifs_client_stream.Stream.Buffer.{Bytes}
use cifs_client_stream.Smb.Codes.{Cmd, code, try_from, SmbError, create_packet, unsupported}
use cifs_client_stream.Smb.Info.{Info, smb_header_len}
use cifs_client_stream.Smb.Wire.{
  Wire, Reading, ◌>>=◌, ◌>>◌, pure, given, fail_if, get_u8, get_u16_le, advance, copy_to_bytes,
}

-- `AndX`.
pub record AndX : Type 0 where
  pub cmd : Cmd
  pub offset : ℕ

abbrev pub is_some {ℓ} : {A : Type ℓ} → Option A → Bool
is_some none = false
is_some (some a) = true

-- `AndX::parse` behind its test for the last command.
abbrev pub next_command : ℕ → ℕ → Bool → Reading (Option AndX)
next_command cmd offset true = pure none
next_command cmd offset false =
    given (try_from cmd) >>= λ c. pure (some (record { cmd = c; offset = offset }))

-- What a message writes, or why it does not; `none` in place of a result is a panic.
abbrev pub Written : Type 0
Written = Run SmbError (Bytes × Bytes)

-- `Msg`: its constants, `fix_header`, and `body` on the empty buffers of parameter and data, to
-- which the AndX words have been added.
pub record Message : Type 0 where
  pub cmd : Cmd
  pub andx : Bool
  pub fix_header : Info → Info
  pub body : Info → Bytes → Bytes → Written

-- `ReplyCtx`.
pub record ReplyCtx : Type 0 where
  pub info : Info
  pub parameter : Bytes
  pub content : Bytes
  pub data_offset : ℕ

-- `Reply`: its constants and `create`.
pub record Reply (A : Type 0) : Type 0 where
  pub cmd : Cmd
  pub andx : Bool
  pub create : ReplyCtx → Run SmbError A

module _ (wire : Wire) where
  -- `AndX::parse`.
  unfoldable pub parse_andx : Reading (Option AndX)
  parse_andx = do
    cmd ← get_u8 wire
    advance wire 1
    offset ← get_u16_le wire
    next_command cmd offset (cmd == 0xff)

  -- `AndX::write`.
  unfoldable pub write_andx : AndX → Bytes → Bytes
  write_andx andx buffer =
      wire.put_le 2 andx.offset (wire.put_le 1 0 (wire.put_le 1 (code andx.cmd) buffer))

  abbrev pub no_andx : AndX
  no_andx = record { cmd = Cmd.no_command; offset = 0 }

  abbrev pub andx_words : Bool → Bytes
  andx_words true = write_andx no_andx []
  andx_words false = []

  -- `Msg::write` behind `body`. The parameter count is a u8, the data count a u16.
  unfoldable pub write_frame : Bytes → Bytes × Bytes → Run SmbError Bytes
  write_frame buffer (parameter, content) =
      if leb 256 (length parameter / 2)
      then fails (create_packet "parameter length too big")
      else (if ltb (wire.remaining_mut buffer) (length parameter)
          then fails (create_packet "packet buffer too small for parameter")
          else (let with_parameter =
                wire.put parameter (wire.put_le 1 (length parameter / 2) buffer) in
              if leb 65536 (length content)
              then fails (create_packet "data length too big")
              else (if ltb (wire.remaining_mut with_parameter) (length content)
                  then fails (create_packet "packet buffer too small for data")
                  else done (wire.put content (wire.put_le 2 (length content) with_parameter)))))

  -- `Msg::write`.
  unfoldable pub write : Message → Info → Bytes → Run SmbError Bytes
  write m info buffer = and_then (m.body info (andx_words m.andx) []) (write_frame buffer)

  -- `Reply::parse`: the AndX structure at the front of the parameter.
  abbrev pub check_andx : Bool → Reading (Unit {0})
  check_andx true = parse_andx >>= λ andx.
      fail_if (is_some andx) (unsupported "AndX chaining is currently not supported")
  check_andx false = pure tt

  -- `Reply::parse`, the counted parts of the body; `data_offset` is counted from the header.
  unfoldable pub parse_parts : Info → Reading ReplyCtx
  parse_parts info = do
    parameter_count ← get_u8 wire
    parameter ← copy_to_bytes wire (2 * parameter_count)
    data_count ← get_u16_le wire
    content ← copy_to_bytes wire data_count
    pure (record {
      info = info;
      parameter = parameter;
      content = content;
      data_offset = smb_header_len + 1 + 2 * parameter_count + 2;
    })

  unfoldable pub skip_andx : Bool → ReplyCtx → Run SmbError ReplyCtx
  skip_andx andx ctx =
      and_then (check_andx andx ctx.parameter) λ r. done (record ctx { parameter = r.1 })

  -- `Reply::parse`.
  unfoldable pub parse_body : {A : Type 0} → Reply A → Info → Bytes → Run SmbError A
  parse_body reply info buffer =
      and_then (parse_parts info buffer) λ r. and_then (skip_andx reply.andx r.0) reply.create
