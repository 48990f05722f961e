-- ===== src/Smb/Trans2/Search.antt =====
-- The entries of a directory and the replies to a directory search (src/smb/common.rs,
-- src/smb/trans2/subreply).
pub mod Laws
pub mod Pages
pub mod Filled
use cifs_client_stream.Common.{
  ℕ, zero, suc, ◌-◌, List, [], ◌∷◌, Bool, true, false, not, ◌&&◌, ltb, leb, ◌==◌, if◌then◌else◌,
  length, Run, done, fails, panics,
}
use cifs_client_stream.Stream.Buffer.{Bytes}
use cifs_client_stream.Media.{DirInfo}
use cifs_client_stream.Smb.Codes.{SmbError, invalid_data}
use cifs_client_stream.Smb.Reply.{ext_file_attr_all}
use cifs_client_stream.Smb.Wire.{
  Wire, Reading, ◌>>=◌, ◌>>◌, pure, fail, fail_if, lifted, remaining, on, within, get_u16_le,
  get_u32_le, get_u64_le, advance, copy_to_bytes,
}
use cifs_client_stream.Utils.{Chrono, decode_windows_time}
use cifs_client_stream.Utils.Unicode.{decode_utf16le}

-- `DirInfo`: its times, and what the directory listings use of it.
pub record DirEntry (chrono : Chrono) : Type 0 where
  pub creation_time : chrono.Date
  pub access_time : chrono.Date
  pub write_time : chrono.Date
  pub change_time : chrono.Date
  pub info : DirInfo

-- `FindFirst2` and `FindNext2` of the replies.
pub record FirstPage (chrono : Chrono) : Type 0 where
  pub sid : ℕ
  pub end : Bool
  pub info : List (DirEntry chrono)

pub record NextPage (chrono : Chrono) : Type 0 where
  pub end : Bool
  pub info : List (DirEntry chrono)

-- The size of an entry: FindFirst2 takes 0 for all that remains, FindNext2 refuses it.
abbrev pub first_size : ℕ → ℕ → Reading ℕ
first_size next_entry left =
    if next_entry == 0
    then pure left
    else (if leb 4 next_entry then pure (next_entry - 4) else fail invalid_data)

abbrev pub next_size : ℕ → ℕ → Reading ℕ
next_size raw_size left = if ltb raw_size 4 then fail invalid_data else pure (raw_size - 4)

module _ (wire : Wire) (chrono : Chrono) where
  -- `DirInfo::parse` behind its first check.
  unfoldable pub read_entry : Reading (DirEntry chrono)
  read_entry = do
    advance wire 4
    creation_time ← get_u64_le wire
    access_time ← get_u64_le wire
    write_time ← get_u64_le wire
    change_time ← get_u64_le wire
    filesize ← get_u64_le wire
    advance wire 8
    attributes ← get_u32_le wire
    filename_length ← get_u32_le wire
    left ← remaining
    fail_if (ltb left filename_length) invalid_data
    raw_filename ← copy_to_bytes wire filename_length
    filename ← lifted (decode_utf16le raw_filename)
    pure (record {
      creation_time = decode_windows_time chrono creation_time;
      access_time = decode_windows_time chrono access_time;
      write_time = decode_windows_time chrono write_time;
      change_time = decode_windows_time chrono change_time;
      info = record {
        filename = filename;
        filesize = filesize;
        attributes = wire.from_bits_truncate ext_file_attr_all attributes;
      };
    })

  -- `DirInfo::parse`.
  unfoldable pub parse_entry : Bytes → Run SmbError (DirEntry chrono)
  parse_entry raw = on raw (remaining >>= λ left. fail_if (ltb left 60) invalid_data >> read_entry)

  -- A turn of the loop behind the size of its entry, and the turns after it.
  unfoldable pub entry_of_size :
      ℕ → Reading (List (DirEntry chrono)) → Reading (List (DirEntry chrono))
  entry_of_size size rest = do
    left ← remaining
    fail_if (ltb left size) invalid_data
    raw_info ← copy_to_bytes wire size
    entry ← lifted (parse_entry raw_info)
    others ← rest
    pure (entry ∷ others)

  -- The loop over the entries, on fuel: each takes more than 4 of the bytes that remain.
  unfoldable pub entries : (ℕ → ℕ → Reading ℕ) → ℕ → Reading (List (DirEntry chrono))
  entries size_of zero = pure []
  entries size_of (suc fuel) = remaining >>= λ left. if left == 0 then pure [] else (do
    fail_if (ltb left 4) invalid_data
    offset ← get_u32_le wire
    left ← remaining
    size ← size_of offset left
    if size == 0 then pure [] else entry_of_size size (entries size_of fuel))

  -- The checks of the number of entries.
  abbrev pub check_count : {A : Type 0} → List A → ℕ → Bool → Reading (Unit {0})
  check_count info count end =
      fail_if (not (length info == count)) invalid_data
      >> fail_if (not end && count == 0) invalid_data

  -- `FindFirst2::parse`.
  unfoldable pub find_first2 : Bytes → Bytes → Run SmbError (FirstPage chrono)
  find_first2 parameter content = on parameter do
    left ← remaining
    fail_if (ltb left 10) invalid_data
    sid ← get_u16_le wire
    count ← get_u16_le wire
    end ← get_u16_le wire
    advance wire 2
    info ← within content (entries first_size (length content))
    check_count info count (not (end == 0))
    pure (record { sid = sid; end = not (end == 0); info = info })

  -- `FindNext2::parse`.
  unfoldable pub find_next2 : Bytes → Bytes → Run SmbError (NextPage chrono)
  find_next2 parameter content = on parameter do
    left ← remaining
    fail_if (ltb left 4) invalid_data
    count ← get_u16_le wire
    end ← get_u16_le wire
    info ← within content (entries next_size (length content))
    check_count info count (not (end == 0))
    pure (record { end = not (end == 0); info = info })
