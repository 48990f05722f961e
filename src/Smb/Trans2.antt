-- ===== src/Smb/Trans2.antt =====
-- The messages of SMB_COM_TRANSACTION2 (src/smb/trans2): the commands of a directory search, the
-- message that carries them, and its reply.
pub mod Search
pub mod Laws
pub mod Served
mod Tests
use cifs_client_stream.Common.{
  ℕ, ◌+◌, List, [], ◌∷◌, ◌++◌, Option, none, some, false, leb, if◌then◌else◌, length, Result, ok,
  err, Run, done, fails, panics, and_then,
}
use cifs_client_stream.Stream.Buffer.{Bytes}
use cifs_client_stream.Media.Names.{Name}
use cifs_client_stream.Smb.Codes.{Cmd, SmbError, create_packet, invalid_data}
use cifs_client_stream.Smb.Collector.{Part}
use cifs_client_stream.Smb.Info.{Info, smb_header_len}
use cifs_client_stream.Smb.Frame.{Message, Written, Reply, ReplyCtx}
use cifs_client_stream.Smb.Msg.{on_share}
use cifs_client_stream.Smb.Wire.{
  Wire, Reading, ◌>>=◌, ◌>>◌, pure, given, or_panic, lifted, on, get_u16_le, advance, put_bytes,
}
use cifs_client_stream.Utils.{round_up_4n, fill_up_4n, try_sub}
use cifs_client_stream.Utils.Unicode.{encode_utf16le_0}

-- `SubCmd`: its constants, its parameter and its data, which are never refused.
pub record SubCmd : Type 0 where
  pub setup : ℕ
  pub max_setup_count : ℕ
  pub max_param_count : ℕ
  pub max_data_count : ℕ
  pub parameter : Bytes
  pub content : Bytes

-- `Transact2<T>` of the messages.
pub record Transact2 : Type 0 where
  pub tid : ℕ
  pub subcmd : SubCmd

-- `data_start` of `Transact2::body`, relative to the header.
abbrev pub data_start : ℕ
data_start = smb_header_len + 1 + 30 + 2

unfoldable pub sub_parameter_offset : ℕ
unfolding round_up_4n
sub_parameter_offset = round_up_4n (data_start + 1)

unfoldable pub sub_data_offset : Bytes → ℕ
unfolding round_up_4n sub_parameter_offset
sub_data_offset parameter = round_up_4n (sub_parameter_offset + length parameter)

-- `try_sub` of an offset from the header and the place of the data, with `ok_or`.
abbrev pub ok_or_invalid : Option ℕ → Result SmbError ℕ
ok_or_invalid (some n) = ok n
ok_or_invalid none = err invalid_data

abbrev pub relative : ℕ → ℕ → Result SmbError ℕ
relative offset start = ok_or_invalid (try_sub offset start)

-- The constants of both commands of a search; DIRECTORY_INFO and CLOSE_ON_EOS.
abbrev pub search_command : ℕ → Bytes → SubCmd
search_command setup parameter = record {
  setup = setup;
  max_setup_count = 0;
  max_param_count = 10;
  max_data_count = 65535;
  parameter = parameter;
  content = [];
}

abbrev pub directory_info : ℕ
directory_info = 0x0101

abbrev pub close_on_eos : ℕ
close_on_eos = 0x0002

module _ (wire : Wire) where
  -- `Transact2::body`, the parameter; an offset beyond a u16 panics.
  unfoldable pub put_counts : SubCmd → Bytes → Run SmbError Bytes
  put_counts cmd parameter =
      let p₁ =
        wire.put_le 2 (length cmd.content) (wire.put_le 2 (length cmd.parameter) parameter) in
      let p₂ = wire.put_le 2 cmd.max_data_count (wire.put_le 2 cmd.max_param_count p₁) in
      let p₃ = wire.put_le 1 0 (wire.put_le 1 cmd.max_setup_count p₂) in
      let p₄ = wire.put_le 2 0 (wire.put_le 4 0 (wire.put_le 2 0 p₃)) in
      let p₅ = wire.put_le 2 sub_parameter_offset (wire.put_le 2 (length cmd.parameter) p₄) in
      if leb 65536 (sub_data_offset cmd.parameter)
      then panics
      else (let p₆ =
            wire.put_le 2 (sub_data_offset cmd.parameter) (wire.put_le 2 (length cmd.content) p₅) in
          done (wire.put_le 2 cmd.setup (wire.put_le 1 0 (wire.put_le 1 1 p₆))))

  -- `Transact2::body`, the data: both parts aligned to 4 bytes from the header.
  unfoldable pub put_parts : SubCmd → Bytes → Bytes
  put_parts cmd content =
      let d₁ = wire.put_le 1 0 content in
      let d₂ = put_bytes wire 0 (fill_up_4n (data_start + length d₁)) d₁ in
      let d₃ = wire.put cmd.parameter d₂ in
      wire.put cmd.content (put_bytes wire 0 (fill_up_4n (data_start + length d₃)) d₃)

  -- `Transact2::body`.
  unfoldable pub transact2_body : Transact2 → Info → Bytes → Bytes → Written
  transact2_body m info parameter content =
      if leb 65536 (length m.subcmd.parameter)
      then fails (create_packet "parameter transaction2 sub-command is too large")
      else (if leb 65536 (length m.subcmd.content)
          then fails (create_packet "data of transaction2 sub-command is too large")
          else and_then (put_counts m.subcmd parameter) λ p. done (p, put_parts m.subcmd content))

  abbrev pub transact2_msg : Transact2 → Message
  transact2_msg m = record {
    cmd = Cmd.transact2;
    andx = false;
    fix_header = on_share m.tid;
    body = transact2_body m;
  }

  -- `Transact2::create` of the replies, on the parameter; both slices are of the data.
  unfoldable pub read_part : ReplyCtx → Reading Part
  read_part ctx = do
    total_parameter_count ← get_u16_le wire
    total_data_count ← get_u16_le wire
    advance wire 2
    parameter_count ← get_u16_le wire
    parameter_at ← get_u16_le wire
    parameter_offset ← given (relative parameter_at ctx.data_offset)
    parameter_displacement ← get_u16_le wire
    data_count ← get_u16_le wire
    data_at ← get_u16_le wire
    data_offset ← given (relative data_at ctx.data_offset)
    data_displacement ← get_u16_le wire
    sub_parameter ←
        lifted
          (or_panic (wire.slice parameter_offset (parameter_offset + parameter_count) ctx.content))
    sub_data ← lifted (or_panic (wire.slice data_offset (data_offset + data_count) ctx.content))
    pure (record {
      parameter = sub_parameter;
      parameter_offset = parameter_displacement;
      parameter_total = total_parameter_count;
      bytes = sub_data;
      data_offset = data_displacement;
      data_total = total_data_count;
    })

  -- `Transact2::create`.
  unfoldable pub create_part : ReplyCtx → Run SmbError Part
  create_part ctx = on ctx.parameter (read_part ctx)

  abbrev pub transact2_reply : Reply Part
  transact2_reply = record { cmd = Cmd.transact2; andx = false; create = create_part }

  -- `FindFirst2::new` and `parameter`: `search` is the attributes to look for.
  unfoldable pub find_first2_cmd : Name → ℕ → SubCmd
  find_first2_cmd filename search =
      let p₁ = wire.put_le 2 1024 (wire.put_le 2 search []) in
      let p₂ = wire.put_le 2 directory_info (wire.put_le 2 close_on_eos p₁) in
      search_command 0x0001 (wire.put (encode_utf16le_0 filename) (wire.put_le 4 0 p₂))

  -- `FindNext2::new` and `parameter`.
  unfoldable pub find_next2_cmd : ℕ → Name → SubCmd
  find_next2_cmd sid filename =
      let p₁ = wire.put_le 2 1024 (wire.put_le 2 sid []) in
      let p₂ = wire.put_le 4 0 (wire.put_le 2 directory_info p₁) in
      search_command 0x0002 (wire.put (encode_utf16le_0 filename) (wire.put_le 2 close_on_eos p₂))
