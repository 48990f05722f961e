-- ===== src/Smb/Trans2/Laws.antt =====
-- Where the parts of a transaction stand in its message, and what its reply is taken apart into.
use cifs_client_stream.Common.{
  ℕ, suc, ◌+◌, ◌-◌, ◌%◌, ◌≤◌, ◌<◌, ◌≡◌, refl, sym, ap, ◌∙◌, [], ◌∷◌, ◌++◌, append_assoc, append-nil,
  some, true, false, leb, ◌&&◌, arith, length, length-append, replicate, length-replicate,
  drop-append_self, take-append_self, ok, done,
}
use cifs_client_stream.Stream.Buffer.{Bytes}
use cifs_client_stream.Smb.Collector.{Part}
use cifs_client_stream.Smb.Info.{Info}
use cifs_client_stream.Smb.Wire.{Wire}
use cifs_client_stream.Smb.Wire.Plain.{plain, IsWire, of_plain, le_bytes, range}
use cifs_client_stream.Smb.Wire.Laws.{read_le-le_bytes}
use cifs_client_stream.Smb.Reply.Laws.{skip_word}
use cifs_client_stream.Smb.Trans2.{
  SubCmd, sub_parameter_offset, sub_data_offset, put_parts, create_part, read_part, relative,
  ok_or_invalid, data_start,
}
use cifs_client_stream.Utils.{round_up_4n, fill_up_4n, try_sub}

-- A slice of the middle of three parts.
range-append :
    (front middle rest : Bytes) (start : ℕ)
    → start ≡ length front
    → range start (start + length middle) (front ++ (middle ++ rest)) ≡ some middle
unfolding range
range-append front middle rest start e =
    let inside : (leb start (start + length middle)
          && leb (start + length middle) (length (front ++ (middle ++ rest))))
        ≡ true =
      ground (arith, length-append front (middle ++ rest), length-append middle rest) in
    let size : start + length middle - start ≡ length middle = omega arith in
    rw (inside, size, e, drop-append_self front (middle ++ rest), take-append_self middle rest) refl

pub offset_facts :
    (parameter : Bytes)
    → (sub_parameter_offset ≡ 68)
      × (sub_data_offset parameter ≡ 68 + length parameter + fill_up_4n (68 + length parameter))
unfolding sub_parameter_offset sub_data_offset round_up_4n fill_up_4n
offset_facts parameter = (refl, omega arith)

aligned : (parameter : Bytes) → (sub_parameter_offset % 4 ≡ 0) × (sub_data_offset parameter % 4 ≡ 0)
unfolding sub_parameter_offset sub_data_offset round_up_4n
aligned parameter = (refl, omega arith)

pub near :
    (parameter : Bytes) → length parameter ≤ 65464 → leb 65536 (sub_data_offset parameter) ≡ false
unfolding sub_parameter_offset sub_data_offset round_up_4n
near parameter h = ground arith

pub put_parts_lem :
    (cmd : SubCmd)
    → put_parts plain cmd []
      ≡ (0 ∷ 0 ∷ 0 ∷ [])
        ++ (cmd.parameter ++ (replicate (fill_up_4n (68 + length cmd.parameter)) 0 ++ cmd.content))
unfolding put_parts le_bytes fill_up_4n
put_parts_lem cmd =
    let e : data_start + suc (suc (suc (length cmd.parameter))) ≡ 68 + length cmd.parameter =
      omega arith in
    ap (λ n. 0 ∷ 0 ∷ 0 ∷ (cmd.parameter ++ replicate (fill_up_4n n) 0 ++ cmd.content)) e
    ∙ ap (λ l. 0 ∷ 0 ∷ 0 ∷ l)
        (append_assoc cmd.parameter (replicate (fill_up_4n (68 + length cmd.parameter)) 0)
          cmd.content)

pub parameter_slice :
    (cmd : SubCmd)
    → range
        (sub_parameter_offset - 65)
        (sub_parameter_offset - 65 + length cmd.parameter)
        (put_parts plain cmd [])
      ≡ some cmd.parameter
parameter_slice cmd =
    let at : sub_parameter_offset - 65 ≡ 3 = omega (arith, (offset_facts cmd.parameter).0) in
    rw (at, put_parts_lem cmd) (range-append (0 ∷ 0 ∷ 0 ∷ []) cmd.parameter _ 3 refl)

pub content_slice :
    (cmd : SubCmd)
    → range
        (sub_data_offset cmd.parameter - 65)
        (sub_data_offset cmd.parameter - 65 + length cmd.content)
        (put_parts plain cmd [])
      ≡ some cmd.content
content_slice cmd =
    let p = cmd.parameter in
    let pad = replicate (fill_up_4n (68 + length p)) 0 in
    let front = (0 ∷ 0 ∷ 0 ∷ []) ++ (p ++ pad) in
    let size : length pad ≡ fill_up_4n (68 + length p) =
      length-replicate (fill_up_4n (68 + length p)) 0 in
    let at : sub_data_offset p - 65 ≡ length front =
      omega (arith, (offset_facts p).1, length-append p pad, size) in
    let whole : put_parts plain cmd [] ≡ front ++ (cmd.content ++ []) =
      put_parts_lem cmd
      ∙ ap (λ l. (0 ∷ 0 ∷ 0 ∷ []) ++ l) (sym (append_assoc p pad cmd.content))
      ∙ ap (λ l. front ++ l) (sym (append-nil cmd.content)) in
    rw (whole) (range-append front cmd.content [] _ at)

-- The parameter and the data of a transaction stand in the data of its message where the message
-- says, 65 bytes behind the header's start, and both offsets are multiples of 4.
pub put_parts_aligned :
    (wire : Wire)
    → IsWire wire
    → (cmd : SubCmd)
    → (sub_parameter_offset % 4 ≡ 0)
      × (sub_data_offset cmd.parameter % 4 ≡ 0)
      × (wire.slice
            (sub_parameter_offset - 65)
            (sub_parameter_offset - 65 + length cmd.parameter)
            (put_parts wire cmd [])
          ≡ some cmd.parameter)
      × (wire.slice
            (sub_data_offset cmd.parameter - 65)
            (sub_data_offset cmd.parameter - 65 + length cmd.content)
            (put_parts wire cmd [])
          ≡ some cmd.content)
put_parts_aligned wire w cmd =
    of_plain
      (λ wire.
        (sub_parameter_offset % 4 ≡ 0)
        × (sub_data_offset cmd.parameter % 4 ≡ 0)
        × (wire.slice (sub_parameter_offset - 65) (sub_parameter_offset - 65 + length cmd.parameter)
              (put_parts wire cmd [])
            ≡ some cmd.parameter)
        × (wire.slice (sub_data_offset cmd.parameter - 65)
              (sub_data_offset cmd.parameter - 65 + length cmd.content) (put_parts wire cmd [])
            ≡ some cmd.content))
      wire w
      ((aligned cmd.parameter).0, (aligned cmd.parameter).1, parameter_slice cmd, content_slice cmd)

-- The parameter words of a transaction's reply.
abbrev pub part_words : Part → ℕ → ℕ → ℕ → Bytes → Bytes
part_words t reserved parameter_at data_at rest =
    le_bytes 2 t.parameter_total
    ++ (le_bytes 2 t.data_total
        ++ (le_bytes 2 reserved
            ++ (le_bytes 2 (length t.parameter)
                ++ (le_bytes 2 parameter_at
                    ++ (le_bytes 2 t.parameter_offset
                        ++ (le_bytes 2 (length t.bytes)
                            ++ (le_bytes 2 data_at ++ (le_bytes 2 t.data_offset ++ rest))))))))

-- Counts, places and displacements fit their words.
pub record IsPart (t : Part) (parameter_at data_at : ℕ) : Type 0 where
  pub parameter_total_small : t.parameter_total < 65536
  pub data_total_small : t.data_total < 65536
  pub parameter_small : length t.parameter < 65536
  pub parameter_at_small : parameter_at < 65536
  pub parameter_offset_small : t.parameter_offset < 65536
  pub bytes_small : length t.bytes < 65536
  pub data_at_small : data_at < 65536
  pub data_offset_small : t.data_offset < 65536

relative_lem : (at start n : ℕ) → at ≡ start + n → relative at start ≡ ok n
unfolding try_sub
relative_lem at start n e =
    let found : try_sub at start ≡ some n = ground arith in ap ok_or_invalid found

plain_part :
    (info : Info) (t : Part) (reserved start : ℕ) (front gap more rest : Bytes)
    → IsPart t (start + length front) (start + (length front + length t.parameter + length gap))
    → create_part plain (record {
      info = info;
      parameter =
          part_words t reserved
            (start + length front)
            (start + (length front + length t.parameter + length gap))
            rest;
      content = front ++ (t.parameter ++ (gap ++ (t.bytes ++ more)));
      data_offset = start;
    })
      ≡ done t
unfolding create_part read_part
plain_part info t reserved start front gap more rest v =
    let parameter_at = start + length front in
    let data_at = start + (length front + length t.parameter + length gap) in
    let whole : front ++ (t.parameter ++ (gap ++ (t.bytes ++ more)))
        ≡ (front ++ (t.parameter ++ gap)) ++ (t.bytes ++ more) =
      sym (
        append_assoc front (t.parameter ++ gap) (t.bytes ++ more)
        ∙ ap (λ l. front ++ l) (append_assoc t.parameter gap (t.bytes ++ more))) in
    let size : length front + length t.parameter + length gap
        ≡ length (front ++ (t.parameter ++ gap)) =
      omega (arith, length-append front (t.parameter ++ gap), length-append t.parameter gap) in
    let second = rw (sym whole) at (
      range-append (front ++ (t.parameter ++ gap)) t.bytes more
        (length front + length t.parameter + length gap) size) in
    rw
      (
        read_le-le_bytes 2 t.parameter_total _ v.parameter_total_small,
        read_le-le_bytes 2 t.data_total _ v.data_total_small,
        skip_word reserved,
        read_le-le_bytes 2 (length t.parameter) _ v.parameter_small,
        read_le-le_bytes 2 parameter_at _ v.parameter_at_small,
        relative_lem parameter_at start (length front) refl,
        read_le-le_bytes 2 t.parameter_offset _ v.parameter_offset_small,
        read_le-le_bytes 2 (length t.bytes) _ v.bytes_small,
        read_le-le_bytes 2 data_at _ v.data_at_small,
        relative_lem data_at start (length front + length t.parameter + length gap) refl,
        read_le-le_bytes 2 t.data_offset rest v.data_offset_small,
        range-append front t.parameter (gap ++ (t.bytes ++ more)) (length front) refl,
        second,
      )
      refl

-- The reply to a transaction is taken apart into the parameter and the data that stand at its
-- offsets, with their displacements and totals, whatever fills the places around them.
pub create_part_lem :
    (wire : Wire)
    → IsWire wire
    → (info : Info) (t : Part) (reserved start : ℕ) (front gap more rest : Bytes)
    → IsPart t (start + length front) (start + (length front + length t.parameter + length gap))
    → create_part wire (record {
      info = info;
      parameter =
          part_words t reserved
            (start + length front)
            (start + (length front + length t.parameter + length gap))
            rest;
      content = front ++ (t.parameter ++ (gap ++ (t.bytes ++ more)));
      data_offset = start;
    })
      ≡ done t
create_part_lem wire w info t reserved start front gap more rest v =
    of_plain
      (λ wire.
        create_part wire (record {
          info = info;
          parameter =
              part_words t reserved (start + length front)
                (start + (length front + length t.parameter + length gap)) rest;
          content = front ++ (t.parameter ++ (gap ++ (t.bytes ++ more)));
          data_offset = start;
        })
        ≡ done t)
      wire w (plain_part info t reserved start front gap more rest v)
