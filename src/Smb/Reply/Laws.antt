-- ===== src/Smb/Reply/Laws.antt =====
-- The replies against the words that they are read from.
pub mod Safe
pub mod Names
pub mod Data
use Prim.Native.Nat.{bit_and}
use cifs_client_stream.Common.{
  ℕ, zero, suc, ◌+◌, ◌-◌, ◌*◌, ◌/◌, ◌%◌, ◌^◌, ◌≤◌, ◌<◌, ◌≡◌, refl, sym, ap, ◌∙◌, subst, List, [],
  ◌∷◌, ◌++◌, append_assoc, some, none, Option, Bool, true, false, not, ltb, leb, ◌==◌, Bool-cases,
  inl, inr, arith, length, length-append, ok, Run, done, fails,
}
use cifs_client_stream.Stream.Buffer.{Bytes}
use cifs_client_stream.Smb.Codes.{SmbError, invalid_data}
use cifs_client_stream.Smb.Handle.{Handle}
use cifs_client_stream.Smb.Info.{Info}
use cifs_client_stream.Smb.Wire.{Wire}
use cifs_client_stream.Smb.Wire.Plain.{plain, IsWire, of_plain, le_bytes, read_le, split, skip}
use cifs_client_stream.Smb.Wire.Laws.{read_le-le_bytes, split-append, length-le_bytes}
use cifs_client_stream.Smb.Frame.{ReplyCtx}
use cifs_client_stream.Smb.Reply.{
  oplock_all, disposition_all, ext_file_attr_all, resource_all, is_directory, create_handle,
  read_handle_words, create_read, read_data, create_session_setup, SessionSetup,
}

abbrev pub directory_byte : Bool → ℕ
directory_byte true = 1
directory_byte false = 0

-- The parameter words of the reply to Create.
abbrev pub handle_words : Handle → ℕ → Bytes → Bytes
handle_words h pipe rest =
    le_bytes 1 h.oplock
    ++ (le_bytes 2 h.fid
        ++ (le_bytes 4 h.disposition
            ++ (le_bytes 8 h.create_time
                ++ (le_bytes 8 h.access_time
                    ++ (le_bytes 8 h.write_time
                        ++ (le_bytes 8 h.change_time
                            ++ (le_bytes 4 h.attributes
                                ++ (le_bytes 8 h.allocation_size
                                    ++ (le_bytes 8 h.size
                                        ++ (le_bytes 2 h.file_type
                                            ++ (le_bytes 2 pipe
                                                ++ (le_bytes 1 (directory_byte h.directory)
                                                    ++ rest))))))))))))

-- The fields fit their widths, and the flags are known ones.
pub record IsHandle (h : Handle) : Type 0 where
  pub oplock_known : bit_and oplock_all h.oplock ≡ h.oplock
  pub disposition_known : bit_and disposition_all h.disposition ≡ h.disposition
  pub attributes_known : bit_and ext_file_attr_all h.attributes ≡ h.attributes
  pub type_known : bit_and resource_all h.file_type ≡ h.file_type
  pub oplock_small : h.oplock < 256
  pub fid_small : h.fid < 65536
  pub disposition_small : h.disposition < 2 ^ 32
  pub create_small : h.create_time < 2 ^ 64
  pub access_small : h.access_time < 2 ^ 64
  pub write_small : h.write_time < 2 ^ 64
  pub change_small : h.change_time < 2 ^ 64
  pub attributes_small : h.attributes < 2 ^ 32
  pub allocation_small : h.allocation_size < 2 ^ 64
  pub size_small : h.size < 2 ^ 64
  pub type_small : h.file_type < 65536

directory_small : (b : Bool) → directory_byte b < 256
directory_small true = omega arith
directory_small false = omega arith

is_directory_lem : (b : Bool) → is_directory (directory_byte b) ≡ ok b
is_directory_lem true = refl
is_directory_lem false = refl

pub skip_word : (x : ℕ) (rest : Bytes) → skip 2 (le_bytes 2 x ++ rest) ≡ some rest
unfolding skip le_bytes
skip_word x rest = refl

plain_handle :
    (info : Info) (h : Handle) (pipe : ℕ) (rest content : Bytes) (at : ℕ)
    → IsHandle h
    → h.tid ≡ info.tid
    → create_handle plain (record {
      info = info;
      parameter = handle_words h pipe rest;
      content = content;
      data_offset = at;
    })
      ≡ done h
unfolding create_handle read_handle_words
plain_handle info h pipe rest content at v t =
    rw
      (
        read_le-le_bytes 1 h.oplock _ v.oplock_small,
        read_le-le_bytes 2 h.fid _ v.fid_small,
        read_le-le_bytes 4 h.disposition _ v.disposition_small,
        read_le-le_bytes 8 h.create_time _ v.create_small,
        read_le-le_bytes 8 h.access_time _ v.access_small,
        read_le-le_bytes 8 h.write_time _ v.write_small,
        read_le-le_bytes 8 h.change_time _ v.change_small,
        read_le-le_bytes 4 h.attributes _ v.attributes_small,
        read_le-le_bytes 8 h.allocation_size _ v.allocation_small,
        read_le-le_bytes 8 h.size _ v.size_small,
        read_le-le_bytes 2 h.file_type _ v.type_small,
        skip_word pipe,
        read_le-le_bytes 1 (directory_byte h.directory) rest (directory_small h.directory),
        is_directory_lem h.directory,
        v.oplock_known,
        v.disposition_known,
        v.attributes_known,
        v.type_known,
        sym t,
      )
      refl

-- The reply to Create is read as the handle that its words describe, whose share is that of the
-- header; the words behind them, the pipe status and the data do not matter.
pub create_handle_lem :
    (wire : Wire)
    → IsWire wire
    → (info : Info) (h : Handle) (pipe : ℕ) (rest content : Bytes) (at : ℕ) → IsHandle h
    → h.tid ≡ info.tid
    → create_handle wire (record {
      info = info;
      parameter = handle_words h pipe rest;
      content = content;
      data_offset = at;
    })
      ≡ done h
create_handle_lem wire w info h pipe rest content at v t =
    of_plain
      (λ wire.
        create_handle wire (record {
          info = info;
          parameter = handle_words h pipe rest;
          content = content;
          data_offset = at;
        })
        ≡ done h)
      wire w (plain_handle info h pipe rest content at v t)
