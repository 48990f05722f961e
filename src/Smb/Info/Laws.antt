-- ===== src/Smb/Info/Laws.antt =====
-- The header against its parser.
use Prim.Native.Nat.{bit_and}
use cifs_client_stream.Common.{
  replicate, ◌+◌, ◌*◌, ◌/◌, ◌%◌, ◌^◌, ◌<◌, ◌≡◌, ◌≢◌, refl, subst, [], ◌++◌, true, false, ltb, arith,
  length, done, panics,
}
use cifs_client_stream.Stream.Buffer.{Bytes}
use cifs_client_stream.Smb.Codes.{
  Cmd, close, read, transact2, tree_disconnect, negotiate, session_setup, tree_connect, create,
  no_command, code, invalid_header, status_of, status_code,
}
use cifs_client_stream.Smb.Laws.{try_from_iff}
use cifs_client_stream.Smb.Wire.{Wire}
use cifs_client_stream.Smb.Wire.Plain.{plain, IsWire, IsWire-plain, of_plain, le_bytes, split, skip}
use cifs_client_stream.Smb.Wire.Laws.{read_le-le_bytes, guarded_lem, taking, Takes}
use cifs_client_stream.Smb.Info.{
  Info, smb_magic, flags1_all, flags2_all, has_flag, flag_reply, parse_fields, parse_info,
  write_info,
}

-- A header that a reply can carry: the fields fit their widths, the flags are known ones with the
-- reply flag among them, and the status is one that its code is read as.
pub record IsReply (info : Info) : Type 0 where
  pub status_small : status_code info.status < 2 ^ 32
  pub status_read : status_of (status_code info.status) ≡ info.status
  pub flags1_known : bit_and flags1_all info.flags1 ≡ info.flags1
  pub flags1_small : info.flags1 < 256
  pub flags2_known : bit_and flags2_all info.flags2 ≡ info.flags2
  pub flags2_small : info.flags2 < 65536
  pub reply : has_flag info.flags1 flag_reply ≡ true
  pub pid_small : info.pid < 2 ^ 32
  pub tid_small : info.tid < 65536
  pub uid_small : info.uid < 65536
  pub mid_small : info.mid < 65536

code_small : (c : Cmd) → code c < 256 ^ 1
unfolding code
code_small close = omega arith
code_small read = omega arith
code_small transact2 = omega arith
code_small tree_disconnect = omega arith
code_small negotiate = omega arith
code_small session_setup = omega arith
code_small tree_connect = omega arith
code_small create = omega arith
code_small no_command = omega arith

-- The bytes of a header, in front of others.
abbrev pub header_bytes : Info → Bytes → Bytes
header_bytes info rest =
    smb_magic
    ++ (le_bytes 1 (code info.cmd)
        ++ (le_bytes 4 (status_code info.status)
            ++ (le_bytes 1 info.flags1
                ++ (le_bytes 2 info.flags2
                    ++ (le_bytes 2 (info.pid / 65536 % 65536)
                        ++ (replicate 8 0
                            ++ (replicate 2 0
                                ++ (le_bytes 2 info.tid
                                    ++ (le_bytes 2 (info.pid % 65536)
                                        ++ (le_bytes 2 info.uid
                                            ++ (le_bytes 2 info.mid ++ rest)))))))))))

write_info_lem :
    (info : Info) (rest : Bytes) → write_info plain info [] ++ rest ≡ header_bytes info rest
unfolding write_info le_bytes
write_info_lem info rest = refl

parse_header :
    (info : Info) (rest : Bytes)
    → IsReply info
    → parse_fields plain (header_bytes info rest) ≡ done (info, rest)
unfolding parse_fields split skip
parse_header info rest h =
    let high : info.pid / 65536 % 65536 < 256 ^ 2 = omega arith in
    let low : info.pid % 65536 < 256 ^ 2 = omega arith in
    let pid : info.pid / 65536 % 65536 * 65536 + info.pid % 65536 ≡ info.pid =
      omega (arith, h.pid_small) in
    rw
      (
        read_le-le_bytes 1 (code info.cmd) _ (code_small info.cmd),
        (try_from_iff (code info.cmd) info.cmd).1 refl,
        read_le-le_bytes 4 (status_code info.status) _ h.status_small,
        read_le-le_bytes 1 info.flags1 _ h.flags1_small,
        read_le-le_bytes 2 info.flags2 _ h.flags2_small,
        read_le-le_bytes 2 (info.pid / 65536 % 65536) _ high,
        read_le-le_bytes 2 info.tid _ h.tid_small,
        read_le-le_bytes 2 (info.pid % 65536) _ low,
        read_le-le_bytes 2 info.uid _ h.uid_small,
        read_le-le_bytes 2 info.mid _ h.mid_small,
        h.flags1_known,
        h.flags2_known,
        h.reply,
        h.status_read,
        pid,
      )
      refl

long_enough : (info : Info) (rest : Bytes) → ltb (length (header_bytes info rest)) 32 ≡ false
unfolding le_bytes
long_enough info rest = ground arith

plain_round_trip :
    (info : Info) (rest : Bytes)
    → IsReply info
    → parse_info plain (write_info plain info [] ++ rest) ≡ done (info, rest)
unfolding parse_info
plain_round_trip info rest h =
    rw (write_info_lem info rest, long_enough info rest) (parse_header info rest h)

-- A header that a reply can carry (its fields fit their widths, its flags are known ones with the
-- reply flag among them, its status is the one that its code stands for) is read back as it was
-- written, up to the bytes behind it, with any buffers that do what their crate documents.
pub parse_info-write_info :
    (wire : Wire)
    → IsWire wire
    → (info : Info) (rest : Bytes) → IsReply info
    → parse_info wire (write_info wire info [] ++ rest) ≡ done (info, rest)
parse_info-write_info wire w info rest h =
    subst (λ v. parse_info v (write_info v info [] ++ rest) ≡ done (info, rest))
      (IsWire-plain wire w) (plain_round_trip info rest h)

plain_fields : Takes 32 (parse_fields plain)
unfolding parse_fields
plain_fields = search taking depth 60

-- `Info::parse` never panics, on any bytes.
pub parse_info_safe :
    (wire : Wire) → IsWire wire → (buffer : Bytes) → parse_info wire buffer ≢ panics
unfolding parse_info
parse_info_safe wire w buffer =
    of_plain (λ wire. parse_info wire buffer ≢ panics) wire w
      (guarded_lem 32 invalid_header (parse_fields plain) buffer plain_fields)

-- A header has 32 bytes.
pub length-write_info : (info : Info) → length (write_info plain info []) ≡ 32
unfolding write_info le_bytes
length-write_info info = refl
