-- ===== src/Smb/Msg/Laws.antt =====
-- The messages of the client against what they are read as: a server's view of the words.
pub mod Opening
use cifs_client_stream.Common.{
  ℕ, zero, suc, ◌+◌, ◌-◌, ◌*◌, ◌/◌, ◌%◌, ◌^◌, ◌≤◌, ◌<◌, ◌≡◌, ◌≢◌, refl, sym, ap, ◌∙◌, List, [], ◌∷◌,
  ◌++◌, append_assoc, append-nil, some, none, Option, Bool, true, false, not, ltb, leb, ◌==◌,
  Bool-cases, inl, inr, arith, length, length-append, ok, Run, done, fails,
}
use cifs_client_stream.Stream.Buffer.{Bytes}
use cifs_client_stream.Media.Names.{Name}
use cifs_client_stream.Smb.Info.{Info}
use cifs_client_stream.Smb.Wire.{
  Wire, Reading, on, ◌>>=◌, ◌>>◌, pure, get_u8, get_u16_le, get_u32_le, get_u64_le, advance,
}
use cifs_client_stream.Smb.Wire.Plain.{
  plain, plain-IsWire, IsWire, of_plain, le_bytes, read_le, split, skip,
}
use cifs_client_stream.Smb.Wire.Laws.{read_le-le_bytes, split-append, length-le_bytes}
use cifs_client_stream.Smb.Msg.{Read, read_msg, read_body, Open, open_body, smb_read_min}
use cifs_client_stream.Smb.Codes.{Cmd, SmbError}
use cifs_client_stream.Smb.Frame.{Reply, ReplyCtx, andx_words, write, parse_body}
use cifs_client_stream.Smb.Frame.Laws.{parse_body-write}
use cifs_client_stream.Smb.Reply.Laws.{skip_word}
use cifs_client_stream.Utils.Unicode.{encode_utf16le_0}

-- What a server takes from the words of Read (MS-CIFS and MS-SMB, ReadAndX): file, offset, count.
abbrev pub ReadWords : Type 0
ReadWords = ℕ × ℕ × ℕ

abbrev pub serve_read : Wire → ReplyCtx → Run SmbError ReadWords
serve_read wire ctx = on ctx.parameter do
  fid ← get_u16_le wire
  offset_low ← get_u32_le wire
  count_low ← get_u16_le wire
  min_count ← get_u16_le wire
  count_high ← get_u16_le wire
  advance wire 2
  advance wire 2
  offset_high ← get_u32_le wire
  pure (fid, offset_high * 2 ^ 32 + offset_low, count_high * 65536 + count_low)

abbrev pub read_server : Wire → Reply ReadWords
read_server wire = record { cmd = Cmd.read; andx = true; create = serve_read wire }

abbrev pub read_words : Read → Bytes
read_words m =
    le_bytes 2 m.fid
    ++ (le_bytes 4 (m.offset % 2 ^ 32)
        ++ (le_bytes 2 (m.count % 65536)
            ++ (le_bytes 2 smb_read_min
                ++ (le_bytes 2 (m.count / 65536 % 65536)
                    ++ (le_bytes 2 0 ++ (le_bytes 2 0 ++ le_bytes 4 (m.offset / 2 ^ 32)))))))

pub plain_body :
    (m : Read) (info : Info) (words : Bytes)
    → read_body plain m info words [] ≡ done (words ++ read_words m, [])
unfolding read_body
plain_body m info words = simp (append_assoc)

plain_serve :
    (m : Read) (info : Info) (content : Bytes) (at : ℕ)
    → m.fid < 65536
    → m.offset < 2 ^ 64
    → m.count < 2 ^ 32
    → serve_read plain
        (record { info = info; parameter = read_words m; content = content; data_offset = at })
      ≡ done (m.fid, m.offset, m.count)
plain_serve m info content at f o c =
    let offset : m.offset / 2 ^ 32 * 2 ^ 32 + m.offset % 2 ^ 32 ≡ m.offset = omega arith in
    let count : m.count / 65536 % 65536 * 65536 + m.count % 65536 ≡ m.count = omega arith in
    rw
      (
        read_le-le_bytes 2 m.fid _ f,
        read_le-le_bytes 4 (m.offset % 2 ^ 32) _ (omega arith),
        read_le-le_bytes 2 (m.count % 65536) _ (omega arith),
        read_le-le_bytes 2 smb_read_min _ (omega arith),
        read_le-le_bytes 2 (m.count / 65536 % 65536) _ (omega arith),
        skip_word 0,
        skip_word 0,
        sym (append-nil (le_bytes 4 (m.offset / 2 ^ 32))),
        read_le-le_bytes 4 (m.offset / 2 ^ 32) [] (omega arith),
        offset,
        count,
      )
      refl

pub length-read_words : (m : Read) → length (read_words m) ≡ 20
unfolding le_bytes
length-read_words m = refl

plain_read :
    (m : Read) (sent received : Info) (rest : Bytes)
    → m.fid < 65536
    → m.offset < 2 ^ 64
    → m.count < 2 ^ 32
    → (out : Bytes) × (write plain (read_msg plain m) sent [] ≡ done out)
      × (parse_body plain (read_server plain) received (out ++ rest)
          ≡ done (m.fid, m.offset, m.count))
plain_read m sent received rest f o c =
    let r =
      parse_body-write plain plain-IsWire (read_msg plain m) (read_server plain) sent received
        (read_words m) [] rest refl (plain_body m sent (andx_words plain true))
        (rw (length-read_words m) refl) (omega (arith, length-read_words m)) (omega arith) in
    (
      r.0,
      r.1,
      r.2 ∙ plain_serve m received [] (35 + length (andx_words plain true ++ read_words m)) f o c,
    )

-- The message Read is written for every file, 64-bit offset and 32-bit count, and the server that
-- reads its words back gets the same file, offset and count.
pub read_served :
    (wire : Wire)
    → IsWire wire
    → (m : Read) (sent received : Info) (rest : Bytes) → m.fid < 65536
    → m.offset < 2 ^ 64
    → m.count < 2 ^ 32
    → (out : Bytes) × (write wire (read_msg wire m) sent [] ≡ done out)
      × (parse_body wire (read_server wire) received (out ++ rest)
          ≡ done (m.fid, m.offset, m.count))
read_served wire w m sent received rest f o c =
    of_plain
      (λ wire.
        (out : Bytes) × (write wire (read_msg wire m) sent [] ≡ done out)
        × (parse_body wire (read_server wire) received (out ++ rest)
            ≡ done (m.fid, m.offset, m.count)))
      wire w (plain_read m sent received rest f o c)
