-- ===== src/Stream/Seek.antt =====
-- `seek_position` and `FileStream` of src/lib.rs.
pub mod Laws
use cifs_client_stream.Common.{ℕ, ◌-◌, ◌^◌, ◌||◌, if◌then◌else◌, Result, ok, err, ◌>>=◌}
use cifs_client_stream.Common.Int.{ℤ, pos, pos_part, ◌+ℤ◌, ltb_ℤ}
use cifs_client_stream.Errors.{Error, internal_error}
use cifs_client_stream.Smb.Handle.{Handle}

-- `std::io::SeekFrom`.
pub data SeekFrom : Type 0 where
  start : ℕ → SeekFrom
  end : ℤ → SeekFrom
  current : ℤ → SeekFrom

-- `next` of `seek_position`; an `i128` holds every sum of a `u64` and an `i64`.
unfoldable pub seek_target : ℕ → ℕ → SeekFrom → ℤ
unfolding ◌+ℤ◌
seek_target size now (start offset) = pos offset
seek_target size now (end offset) = pos size +ℤ offset
seek_target size now (current offset) = pos now +ℤ offset

unfoldable pub seek_position : ℕ → ℕ → SeekFrom → Result Error ℕ
unfolding seek_target
seek_position size now from =
    let next = seek_target size now from in
    if ltb_ℤ next (pos 0) || ltb_ℤ (pos (2 ^ 64 - 1)) next
    then err (internal_error "seek position is out of range")
    else ok (pos_part next)

pub record FileStream : Type 0 where
  pub handle : Handle
  pub position : ℕ

-- `FileStream::new`, `size` and `seek`.
abbrev pub new_stream : Handle → FileStream
new_stream h = record { handle = h; position = 0 }

abbrev pub stream_size : FileStream → ℕ
stream_size f = f.handle.size

unfoldable pub seek_stream : SeekFrom → FileStream → Result Error FileStream
seek_stream from f = do
  p ← seek_position (stream_size f) f.position from
  ok (record f { position = p })
