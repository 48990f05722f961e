-- ===== src/Smb/Tests.antt =====
-- Messages and replies at concrete bytes.
use cifs_client_stream.Common.{
  ℕ, ◌≡◌, ◌≢◌, ◌≤◌, ◌<◌, refl, length, [], ◌∷◌, ◌++◌, some, true, false, arith, take, done, fails,
  panics,
}
use cifs_client_stream.Stream.Buffer.{Bytes}
use cifs_client_stream.Win.{NtStatus}
use cifs_client_stream.Smb.Codes.{Cmd, known, invalid_data, status_of, status_code}
use cifs_client_stream.Smb.Info.{Info, parse_info, write_info}
use cifs_client_stream.Smb.Info.Laws.{IsReply, parse_info-write_info}
use cifs_client_stream.Smb.Frame.{andx_words, write, parse_body}
use cifs_client_stream.Smb.Frame.Laws.{frame, parse_body-write}
use cifs_client_stream.Smb.Frame.Laws.Truncated.{parse_body_truncated}
use cifs_client_stream.Smb.Msg
use cifs_client_stream.Smb.Msg.{Open, close_msg, read_msg, file_ro}
use cifs_client_stream.Smb.Reply.{Share, create_read, close_reply}
use cifs_client_stream.Smb.Reply.Laws.Data.{read_ctx, create_read_lem}
use cifs_client_stream.Smb.Wire.Plain.{plain, plain-IsWire, le_bytes}
use cifs_client_stream.Utils.Unicode.{is_char}
use cifs_client_stream.Utils.Unicode.Laws.Terminated.{IsText}

-- The header of a successful reply, with the flags of the source's test.
abbrev header : Info
header = record {
  cmd = Cmd.read;
  status = known NtStatus.success;
  flags1 = 0x98;
  flags2 = 0xc853;
  pid = 65279;
  tid = 7;
  uid = 1;
  mid = 3;
}

header-IsReply : IsReply header
unfolding status_of status_code
header-IsReply = record {
  status_small = omega arith;
  status_read = refl;
  flags1_known = refl;
  flags1_small = omega arith;
  flags2_known = refl;
  flags2_small = omega arith;
  reply = refl;
  pid_small = omega arith;
  tid_small = omega arith;
  uid_small = omega arith;
  mid_small = omega arith;
}

parse_info-write_info_example :
    parse_info plain (write_info plain header [] ++ 1 ∷ 2 ∷ []) ≡ done (header, 1 ∷ 2 ∷ [])
parse_info-write_info_example =
    parse_info-write_info plain plain-IsWire header (1 ∷ 2 ∷ []) header-IsReply

-- The message that closes file 5, and a reply type that gives back what it is given.
abbrev close_five : Msg.Close
close_five = record { tid = 7; fid = 5 }

unpacked :
    Msg.close_body plain close_five header (andx_words plain false) []
    ≡ done (andx_words plain false ++ 5 ∷ 0 ∷ 0 ∷ 0 ∷ 0 ∷ 0 ∷ [], [])
unfolding Msg.close_body le_bytes
unpacked = refl

parse_body-write_example :
    (out : Bytes) × (write plain (close_msg plain close_five) header [] ≡ done out)
    × (parse_body plain close_reply header (out ++ 9 ∷ []) ≡ done tt)
parse_body-write_example =
    parse_body-write plain plain-IsWire (close_msg plain close_five) close_reply header header
      (5 ∷ 0 ∷ 0 ∷ 0 ∷ 0 ∷ 0 ∷ []) [] (9 ∷ []) refl unpacked refl (omega arith) (omega arith)

five : 5 < length (frame (1 ∷ 2 ∷ []) (3 ∷ 4 ∷ 5 ∷ []))
unfolding le_bytes
five = omega arith

parse_body_truncated_example :
    parse_body plain close_reply header (take 5 (frame (1 ∷ 2 ∷ []) (3 ∷ 4 ∷ 5 ∷ []))) ≡ panics
parse_body_truncated_example =
    parse_body_truncated plain plain-IsWire close_reply header (1 ∷ 2 ∷ []) (3 ∷ 4 ∷ 5 ∷ []) 5 refl
      (omega arith) (omega arith) five

-- The read of the source's test: file 0x1234, offset 0x200000001, 0x4000 bytes.
-- A file named ab on share 7.
abbrev open_ab : Open
open_ab = file_ro 7 (97 ∷ 98 ∷ [])

abbrev three : Bytes
three = 1 ∷ 2 ∷ 3 ∷ []

create_read_lem_example :
    (length three ≡ 3
      → (create_read plain (read_ctx header 0 0 0 3 [] three 61) ≡ done three)
        × (create_read plain (read_ctx header 0 0 0 3 [] (0 ∷ 1 ∷ 2 ∷ 3 ∷ []) 61) ≡ done three))
    × (length three ≢ 3
        → length three ≢ 4
        → create_read plain (read_ctx header 0 0 0 3 [] three 61) ≡ fails invalid_data)
create_read_lem_example =
    create_read_lem plain plain-IsWire header 0 0 0 3 [] three 0 61 (omega arith)

-- The disk share of the service A:, on NTFS, with full access.
abbrev disk : Share
disk = record {
  access_rights = some 0x1f01ff;
  guest_rights = some 0;
  service = 65 ∷ 58 ∷ [];
  filesystem = 78 ∷ 84 ∷ 70 ∷ 83 ∷ [];
  tid = 7;
}

is_letter : (c : ℕ) → is_char c ≡ true → 1 ≤ c → IsText c
is_letter c h l = (h, λ e. absurd (omega (arith, e, l)))
