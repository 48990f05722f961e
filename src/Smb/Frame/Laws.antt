-- ===== src/Smb/Frame/Laws.antt =====
-- A frame that is written against the parser of replies.
pub mod Truncated
use cifs_client_stream.Common.{
  ℕ, zero, suc, ◌+◌, ◌-◌, ◌*◌, ◌/◌, ◌%◌, ◌^◌, ◌≤◌, ◌<◌, ◌≡◌, refl, sym, ap, ◌∙◌, subst, List, [],
  ◌∷◌, ◌++◌, append_assoc, some, none, Option, Bool, true, false, ltb, leb, Bool-cases, inl, inr,
  arith, length, length-append, length-take, min, take, take-append-drop, take-append_right,
  take-append_left, Run, done, panics, and_then,
}
use cifs_client_stream.Stream.Buffer.{Bytes}
use cifs_client_stream.Smb.Info.{Info}
use cifs_client_stream.Smb.Codes.{SmbError, code}
use cifs_client_stream.Smb.Wire.{Wire, or_panic}
use cifs_client_stream.Smb.Wire.Plain.{
  plain, IsWire, IsWire-plain, le_bytes, read_le, cons_le, split, cons_front, skip,
}
use cifs_client_stream.Smb.Wire.Laws.{read_le-le_bytes, split-append, length-le_bytes}
use cifs_client_stream.Smb.Frame.{
  Message, Reply, ReplyCtx, andx_words, write_andx, write_frame, write, parse_andx, parse_parts,
  skip_andx, parse_body,
}

-- The bytes of a frame.
abbrev pub frame : Bytes → Bytes → Bytes
frame parameter content =
    le_bytes 1 (length parameter / 2) ++ parameter ++ le_bytes 2 (length content) ++ content

abbrev pub parts : Info → Bytes → Bytes → Bytes → ReplyCtx
parts info words parameter content = record {
  info = info;
  parameter = parameter;
  content = content;
  data_offset = 35 + length (words ++ parameter);
}

write_frame_lem :
    (parameter content : Bytes)
    → length parameter < 512
    → length content < 65536
    → write_frame plain [] (parameter, content) ≡ done (frame parameter content)
unfolding write_frame
write_frame_lem parameter content short small =
    let words : leb 256 (length parameter / 2) ≡ false = ground arith in
    let fits : ltb (2 ^ 64 - 1 - 0) (length parameter) ≡ false = ground arith in
    let count : leb 65536 (length content) ≡ false = ground arith in
    let room : ltb (2 ^ 64 - 1 - length (le_bytes 1 (length parameter / 2) ++ parameter))
          (length content)
        ≡ false =
      ground (
        arith,
        length-append (le_bytes 1 (length parameter / 2)) parameter,
        length-le_bytes 1 (length parameter / 2),
      ) in
    rw (words, fits, count, room) refl

parse_parts_lem :
    (info : Info) (parameter content rest : Bytes)
    → length parameter % 2 ≡ 0
    → length parameter < 512
    → length content < 65536
    → parse_parts plain info (frame parameter content ++ rest)
      ≡ done (
        record {
          info = info;
          parameter = parameter;
          content = content;
          data_offset = 35 + length parameter;
        },
        rest,
      )
unfolding parse_parts
parse_parts_lem info parameter content rest even short small =
    let k = length parameter / 2 in
    let twice : 2 * k ≡ length parameter = omega arith in
    let offset : 32 + 1 + length parameter + 2 ≡ 35 + length parameter = omega arith in
    let k₁ = le_bytes 1 k in
    let k₂ = le_bytes 2 (length content) in
    rw
      (
        append_assoc (k₁ ++ parameter ++ k₂) content rest,
        append_assoc (k₁ ++ parameter) k₂ (content ++ rest),
        append_assoc k₁ parameter (k₂ ++ (content ++ rest)),
        read_le-le_bytes 1 k (parameter ++ (le_bytes 2 (length content) ++ (content ++ rest)))
            (omega arith),
        twice,
        split-append parameter (le_bytes 2 (length content) ++ (content ++ rest)),
        read_le-le_bytes 2 (length content) (content ++ rest) (omega arith),
        split-append content rest,
        offset,
      )
      refl

skip_words :
    (andx : Bool) (info : Info) (parameter content : Bytes)
    → skip_andx plain andx (parts info [] (andx_words plain andx ++ parameter) content)
      ≡ done (parts info (andx_words plain andx) parameter content)
unfolding skip_andx write_andx le_bytes parse_andx read_le skip code
skip_words true info parameter content = refl
skip_words false info parameter content = refl

pub words_length :
    (andx : Bool) → (length (andx_words plain andx) % 2 ≡ 0) × (length (andx_words plain andx) ≤ 4)
unfolding write_andx le_bytes
words_length true = (refl, omega arith)
words_length false = (refl, omega arith)

plain_frame :
    {A : Type 0} (m : Message) (reply : Reply A) (sent received : Info) (p d rest : Bytes)
    → reply.andx ≡ m.andx
    → m.body sent (andx_words plain m.andx) [] ≡ done (andx_words plain m.andx ++ p, d)
    → length p % 2 ≡ 0
    → length p < 508
    → length d < 65536
    → (out : Bytes) × (write plain m sent [] ≡ done out)
      × (parse_body plain reply received (out ++ rest)
          ≡ reply.create (parts received (andx_words plain m.andx) p d))
unfolding write parse_body
plain_frame m reply sent received p d rest same body even short small =
    let words = andx_words plain m.andx ++ p in
    let size : length words ≡ length (andx_words plain m.andx) + length p =
      length-append (andx_words plain m.andx) p in
    let bound = words_length m.andx in
    (
      frame words d,
      rw (body) (write_frame_lem words d (omega (arith, size, bound)) small),
      rw
          (
            parse_parts_lem received words d rest (omega (arith, size, bound))
                (omega (arith, size, bound)) small,
            same,
            skip_words m.andx received p d,
          )
          refl,
    )

-- Where the body of a message adds `p` to its parameter and `d` to its data, both within their
-- counts, writing the message succeeds, and a reply type with or without AndX like the message gets
-- from what is written exactly `p`, `d` and the place of the data; what follows is ignored.
pub parse_body-write :
    {A : Type 0} (wire : Wire)
    → IsWire wire
    → (m : Message) (reply : Reply A) (sent received : Info) (p d rest : Bytes)
    → reply.andx ≡ m.andx
    → m.body sent (andx_words wire m.andx) [] ≡ done (andx_words wire m.andx ++ p, d)
    → length p % 2 ≡ 0
    → length p < 508
    → length d < 65536
    → (out : Bytes) × (write wire m sent [] ≡ done out)
      × (parse_body wire reply received (out ++ rest)
          ≡ reply.create (parts received (andx_words wire m.andx) p d))
parse_body-write wire w m reply sent received p d rest same body even short small =
    subst
      (λ v.
        m.body sent (andx_words v m.andx) [] ≡ done (andx_words v m.andx ++ p, d)
        → (out : Bytes) × (write v m sent [] ≡ done out)
          × (parse_body v reply received (out ++ rest)
              ≡ reply.create (parts received (andx_words v m.andx) p d)))
      (IsWire-plain wire w)
      (λ e. plain_frame m reply sent received p d rest same e even short small) body
