-- ===== src/Client/Commands/Reading.antt =====
-- A read on the wire: the message is always written, and the framed reply is parsed to its data.
use cifs_client_stream.Common.{
  ◌+◌, ◌-◌, ◌/◌, ◌^◌, ◌≤◌, ◌<◌, ◌≡◌, refl, sym, ap, ◌∙◌, [], ◌++◌, append-nil, true, false, ltb,
  leb, arith, length, length-append, Run, done, fails, panics,
}
use cifs_client_stream.Stream.Buffer.{Bytes}
use cifs_client_stream.Win.{NtStatus}
use cifs_client_stream.Smb.Codes.{Cmd, SmbError, known, code}
use cifs_client_stream.Smb.Info.{Info, write_info}
use cifs_client_stream.Smb.Info.Laws.{length-write_info}
use cifs_client_stream.Smb.Frame.{Message, write, write_frame, andx_words, parse_body}
use cifs_client_stream.Smb.Frame.Laws.{parse_body-write, words_length}
use cifs_client_stream.Smb.Msg.{Read, read_msg}
use cifs_client_stream.Smb.Msg
use cifs_client_stream.Smb.Msg.Laws.{plain_body}
use cifs_client_stream.Smb.Reply.{read_reply}
use cifs_client_stream.Smb.Reply.Laws.Data
use cifs_client_stream.Smb.Reply.Laws.Data.{create_read_lem}
use cifs_client_stream.Smb.Wire.{Wire}
use cifs_client_stream.Smb.Wire.Plain.{plain, IsWire, of_plain, le_bytes}
use cifs_client_stream.Client.{PendingReply, parse_reply, status_allowed}
use cifs_client_stream.Client.Commands.{as_reply_type}

-- The bytes of a read and its header.
abbrev pub read_frame : Read → Info → Bytes
read_frame m info =
    let words = andx_words plain true ++ Msg.Laws.read_words m in
    write_info plain info [] ++ le_bytes 1 (length words / 2) ++ words ++ le_bytes 2 0 ++ []

pub plain_read_written :
    (m : Read) (info : Info)
    → write plain (read_msg plain m) info (write_info plain info []) ≡ done (read_frame m info)
unfolding write write_frame
plain_read_written m info =
    let words = andx_words plain true ++ Msg.Laws.read_words m in
    let head = write_info plain info [] in
    let size : length words ≤ 24 = omega (
      arith,
      length-append (andx_words plain true) (Msg.Laws.read_words m),
      Msg.Laws.length-read_words m,
      words_length true,
    ) in
    let count : leb 256 (length words / 2) ≡ false = ground arith in
    let fits : ltb (2 ^ 64 - 1 - length head) (length words) ≡ false =
      ground (arith, length-write_info info) in
    let room : ltb (2 ^ 64 - 1 - length (head ++ le_bytes 1 (length words / 2) ++ words)) 0
        ≡ false =
      ground arith in
    rw (plain_body m info (andx_words plain true), count, fits, room) refl

-- The message Read is written behind its header, whatever it asks for.
pub read_written :
    (wire : Wire)
    → IsWire wire
    → (m : Read) (info : Info)
    → (frame : Bytes) × (write wire (read_msg wire m) info (write_info wire info []) ≡ done frame)
read_written wire w m info =
    of_plain
      (λ wire.
        (frame : Bytes) × (write wire (read_msg wire m) info (write_info wire info [])
          ≡ done frame))
      wire w (read_frame m info, plain_read_written m info)

-- The reply that carries data, framed as the messages are.
abbrev pub data_message : Bytes → Message
data_message d = record {
  cmd = Cmd.read;
  andx = true;
  fix_header = λ info. info;
  body = λ info parameter content. done (parameter ++ Data.read_words 0 0 0 (length d) [], d);
}

abbrev pub IsDataReply : Wire → Bytes → PendingReply → Type 0
IsDataReply wire d p =
    (p.info.cmd ≡ Cmd.read)
    × (p.info.status ≡ known NtStatus.success)
    × (write wire (data_message d) p.info [] ≡ done p.body)

pub done_inj : (a b : Bytes) → Path (Run SmbError Bytes) (done a) (done b) → a ≡ b
done_inj a b e = cc

abbrev pub unwrap : Run SmbError Bytes → Bytes
unwrap (done b) = b
unwrap (fails e) = []
unwrap panics = []

unwrap_done : (r : Run SmbError Bytes) (b : Bytes) → r ≡ done b → r ≡ done (unwrap r)
unwrap_done (done a) b e = refl
unwrap_done (fails x) b e = absurd (cc)
unwrap_done panics b e = absurd (cc)

-- Data that fits a count is always framed.
pub data_written :
    (wire : Wire)
    → IsWire wire
    → (d : Bytes) (info : Info) → length d < 65536
    → write wire (data_message d) info [] ≡ done (unwrap (write wire (data_message d) info []))
data_written wire w d info small =
    let r =
      parse_body-write wire w (data_message d) (read_reply wire) info info
        (Data.read_words 0 0 0 (length d) []) d [] refl refl
        (rw (Data.length-read_words (length d)) refl)
        (omega (arith, Data.length-read_words (length d))) small in
    unwrap_done (write wire (data_message d) info []) r.0 r.1

-- The body of such a reply is parsed to the data.
body_parsed :
    (wire : Wire)
    → IsWire wire
    → (d body : Bytes) (info : Info) → length d < 65536
    → write wire (data_message d) info [] ≡ done body
    → parse_body wire (read_reply wire) info body ≡ done d
body_parsed wire w d body info small written =
    let r =
      parse_body-write wire w (data_message d) (read_reply wire) info info
        (Data.read_words 0 0 0 (length d) []) d [] refl refl
        (rw (Data.length-read_words (length d)) refl)
        (omega (arith, Data.length-read_words (length d))) small in
    let same : r.0 ++ [] ≡ body = append-nil r.0 ∙ done_inj r.0 body (sym r.1 ∙ written) in
    ap (parse_body wire (read_reply wire) info) (sym same)
    ∙ r.2
    ∙ ((create_read_lem wire w info 0 0 0 (length d) [] d 0
          (35 + length (andx_words wire true ++ Data.read_words 0 0 0 (length d) [])) small).0
        refl).0

pub parse_reply-IsDataReply :
    (wire : Wire)
    → IsWire wire
    → (d : Bytes) (p : PendingReply) → length d < 65536
    → IsDataReply wire d p
    → parse_reply (as_reply_type wire (read_reply wire)) p ≡ done d
unfolding parse_reply status_allowed code
parse_reply-IsDataReply wire w d p small h =
    simp (h.0, h.1, body_parsed wire w d p.body p.info small h.2)
