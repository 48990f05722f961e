-- ===== src/Smb/Trans2/Served.antt =====
-- The message of a transaction (`Transact2` of src/smb/trans2/msg.rs) against what a server reads of it.
use cifs_client_stream.Common.{ℕ, ◌+◌, ◌-◌, ◌≤◌, ◌<◌, [], ◌++◌, false, length, Run}
use cifs_client_stream.Stream.Buffer.{Bytes}
use cifs_client_stream.Smb.Codes.{Cmd, SmbError}
use cifs_client_stream.Smb.Info.{Info}
use cifs_client_stream.Smb.Frame.{Reply, ReplyCtx}
use cifs_client_stream.Smb.Wire.{
  Wire, ◌>>=◌, ◌>>◌, pure, or_panic, lifted, on, get_u8, get_u16_le, get_u32_le, advance,
}
use cifs_client_stream.Smb.Wire.Plain.{le_bytes}
use cifs_client_stream.Smb.Trans2.{SubCmd, Transact2, sub_parameter_offset, sub_data_offset}

-- What a server takes from the words and the data of SMB_COM_TRANSACTION2 (MS-CIFS 2.2.4.46.1).
pub record TransactRequest : Type 0 where
  pub tid : ℕ
  pub total_parameter_count : ℕ
  pub total_data_count : ℕ
  pub max_parameter_count : ℕ
  pub max_data_count : ℕ
  pub max_setup_count : ℕ
  pub flags : ℕ
  pub timeout : ℕ
  pub setup_count : ℕ
  pub setup : ℕ
  pub parameter : Bytes
  pub content : Bytes

-- The offsets count from the header, and the data stands at `ctx.data_offset`.
abbrev pub serve_transact2 : Wire → ReplyCtx → Run SmbError TransactRequest
serve_transact2 wire ctx = on ctx.parameter do
  total_parameter_count ← get_u16_le wire
  total_data_count ← get_u16_le wire
  max_parameter_count ← get_u16_le wire
  max_data_count ← get_u16_le wire
  max_setup_count ← get_u8 wire
  advance wire 1
  flags ← get_u16_le wire
  timeout ← get_u32_le wire
  advance wire 2
  parameter_count ← get_u16_le wire
  parameter_at ← get_u16_le wire
  data_count ← get_u16_le wire
  data_at ← get_u16_le wire
  setup_count ← get_u8 wire
  advance wire 1
  setup ← get_u16_le wire
  parameter ← lifted (
      or_panic (
        wire.slice (parameter_at - ctx.data_offset)
          (parameter_at - ctx.data_offset + parameter_count) ctx.content))
  content ← lifted (
      or_panic (
        wire.slice (data_at - ctx.data_offset) (data_at - ctx.data_offset + data_count)
          ctx.content))
  pure (record {
    tid = ctx.info.tid;
    total_parameter_count = total_parameter_count;
    total_data_count = total_data_count;
    max_parameter_count = max_parameter_count;
    max_data_count = max_data_count;
    max_setup_count = max_setup_count;
    flags = flags;
    timeout = timeout;
    setup_count = setup_count;
    setup = setup;
    parameter = parameter;
    content = content;
  })

abbrev pub transact2_server : Wire → Reply TransactRequest
transact2_server wire = record { cmd = Cmd.transact2; andx = false; create = serve_transact2 wire }

-- The request that a sub-command is meant to be: all of it in one message, with one setup word.
abbrev pub request_of : Transact2 → TransactRequest
request_of m = record {
  tid = m.tid;
  total_parameter_count = length m.subcmd.parameter;
  total_data_count = length m.subcmd.content;
  max_parameter_count = m.subcmd.max_param_count;
  max_data_count = m.subcmd.max_data_count;
  max_setup_count = m.subcmd.max_setup_count;
  flags = 0;
  timeout = 0;
  setup_count = 1;
  setup = m.subcmd.setup;
  parameter = m.subcmd.parameter;
  content = m.subcmd.content;
}

-- The constants fit their words, the data's offset fits its word, and both parts one message.
pub record IsTransact2 (m : Transact2) : Type 0 where
  pub parameter_short : length m.subcmd.parameter ≤ 65464
  pub whole_short : length m.subcmd.parameter + length m.subcmd.content ≤ 65529
  pub max_parameter_small : m.subcmd.max_param_count < 65536
  pub max_data_small : m.subcmd.max_data_count < 65536
  pub max_setup_small : m.subcmd.max_setup_count < 256
  pub setup_small : m.subcmd.setup < 65536

abbrev count_words : SubCmd → Bytes
count_words cmd =
    le_bytes 2 (length cmd.parameter)
    ++ (le_bytes 2 (length cmd.content)
        ++ (le_bytes 2 cmd.max_param_count
            ++ (le_bytes 2 cmd.max_data_count
                ++ (le_bytes 1 cmd.max_setup_count
                    ++ (le_bytes 1 0
                        ++ (le_bytes 2 0
                            ++ (le_bytes 4 0
                                ++ (le_bytes 2 0
                                    ++ (le_bytes 2 (length cmd.parameter)
                                        ++ (le_bytes 2 sub_parameter_offset
                                            ++ (le_bytes 2 (length cmd.content)
                                                ++ (le_bytes 2 (sub_data_offset cmd.parameter)
                                                    ++ (le_bytes 1 1
                                                        ++ (le_bytes 1 0
                                                            ++ (le_bytes 2 cmd.setup
                                                            ++ [])))))))))))))))
