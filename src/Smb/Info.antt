-- ===== src/Smb/Info.antt =====
-- The header of a message (src/smb/info.rs). A flag set is its bits.
pub mod Laws
use cifs_client_stream.Common.{
  ℕ, ◌+◌, ◌*◌, ◌/◌, ◌%◌, List, [], ◌∷◌, Bool, true, false, ◌&&◌, not, ltb, ◌==◌, Result, ok, err,
  Run, done, fails,
}
use cifs_client_stream.Stream.Buffer.{Bytes}
use cifs_client_stream.Win.{NtStatus}
use cifs_client_stream.Smb.Codes.{
  Cmd, code, try_from, SmbError, invalid_header, reply_expected, Status, known, status_of,
  status_code,
}
use cifs_client_stream.Smb.Wire.{
  Wire, Reading, ◌>>=◌, ◌>>◌, pure, given, fail, fail_if, remaining, get_u8, get_u16_le, get_u32_le,
  advance, copy_to_bytes, put_bytes,
}

-- `Info`.
pub record Info : Type 0 where
  pub cmd : Cmd
  pub status : Status
  pub flags1 : ℕ
  pub flags2 : ℕ
  pub pid : ℕ
  pub tid : ℕ
  pub uid : ℕ
  pub mid : ℕ

-- `SMB_HEADER_LEN` and `SMB_MAGIC` of src/smb/common.rs.
abbrev pub smb_header_len : ℕ
smb_header_len = 32

abbrev pub smb_magic : Bytes
smb_magic = 0xff ∷ 0x53 ∷ 0x4d ∷ 0x42 ∷ []

-- All flags of `Flags1` and of `Flags2`.
abbrev pub flags1_all : ℕ
flags1_all = 0xff

abbrev pub flags2_all : ℕ
flags2_all = 0xf857

-- `contains` of one flag.
abbrev pub has_flag : ℕ → ℕ → Bool
has_flag bits flag = bits / flag % 2 == 1

abbrev pub flag_reply : ℕ
flag_reply = 0x80

abbrev pub flag_unicode : ℕ
flag_unicode = 0x8000

-- `Info::default`, with the defaults of the flags.
abbrev pub default_info : Cmd → Info
default_info cmd = record {
  cmd = cmd;
  status = known NtStatus.success;
  flags1 = 0x18;
  flags2 = 0xc843;
  pid = 0xfeff;
  tid = 0xffff;
  uid = 0;
  mid = 0;
}

abbrev pub same_bytes : Bytes → Bytes → Bool
same_bytes [] [] = true
same_bytes [] (y ∷ ys) = false
same_bytes (x ∷ xs) [] = false
same_bytes (x ∷ xs) (y ∷ ys) = x == y && same_bytes xs ys

module _ (wire : Wire) where
  -- `Info::parse` behind its first check. `(high << 16) | low` is a sum here.
  unfoldable pub parse_fields : Reading Info
  parse_fields = do
    magic ← copy_to_bytes wire 4
    fail_if (not (same_bytes magic smb_magic)) invalid_header
    raw_cmd ← get_u8 wire
    cmd ← given (try_from raw_cmd)
    raw_status ← get_u32_le wire
    raw_flags1 ← get_u8 wire
    raw_flags2 ← get_u16_le wire
    pid_high ← get_u16_le wire
    advance wire 8
    advance wire 2
    tid ← get_u16_le wire
    pid_low ← get_u16_le wire
    uid ← get_u16_le wire
    mid ← get_u16_le wire
    fail_if (not (has_flag (wire.from_bits_truncate flags1_all raw_flags1) flag_reply))
        reply_expected
    pure (record {
      cmd = cmd;
      status = status_of raw_status;
      flags1 = wire.from_bits_truncate flags1_all raw_flags1;
      flags2 = wire.from_bits_truncate flags2_all raw_flags2;
      pid = pid_high * 65536 + pid_low;
      tid = tid;
      uid = uid;
      mid = mid;
    })

  -- `Info::parse`.
  unfoldable pub parse_info : Reading Info
  parse_info =
      remaining >>= λ left. fail_if (ltb left smb_header_len) invalid_header >> parse_fields

  -- `Info::write`.
  unfoldable pub write_info : Info → Bytes → Bytes
  write_info info buffer =
      let pid_high = info.pid / 65536 % 65536 in
      let pid_low = info.pid % 65536 in
      let b₁ = wire.put smb_magic buffer in
      let b₂ = wire.put_le 1 (code info.cmd) b₁ in
      let b₃ = wire.put_le 4 (status_code info.status) b₂ in
      let b₄ = wire.put_le 1 info.flags1 b₃ in
      let b₅ = wire.put_le 2 info.flags2 b₄ in
      let b₆ = wire.put_le 2 pid_high b₅ in
      let b₇ = put_bytes wire 0 8 b₆ in
      let b₈ = put_bytes wire 0 2 b₇ in
      let b₉ = wire.put_le 2 info.tid b₈ in
      let b₁₀ = wire.put_le 2 pid_low b₉ in
      let b₁₁ = wire.put_le 2 info.uid b₁₀ in wire.put_le 2 info.mid b₁₁
