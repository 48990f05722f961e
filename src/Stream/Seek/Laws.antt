-- ===== src/Stream/Seek/Laws.antt =====
-- Where a seek goes, and when it is refused.
use cifs_client_stream.Common.{ℕ, ◌^◌, ◌<◌, ◌≡◌, ◌↔◌, ok, arith}
use cifs_client_stream.Common.Int.{pos}
use cifs_client_stream.Stream.Seek.{
  SeekFrom, start, FileStream, seek_target, seek_position, seek_stream,
}

-- `seek_position` succeeds exactly if the signed target is a `u64`, and then returns that target.
pub seek_position_iff :
    (size now : ℕ) (from : SeekFrom) (n : ℕ)
    → (seek_position size now from ≡ ok n) ↔ ((seek_target size now from ≡ pos n) × (n < 2 ^ 64))
unfolding seek_position
seek_position_iff size now from n = (λ h. ground arith, λ h. ground arith)

-- A seek from the start to a `u64` position always succeeds.
pub seek_stream_start :
    (f : FileStream) (n : ℕ) → n < 2 ^ 64 → seek_stream (start n) f ≡ ok (record f { position = n })
unfolding seek_stream seek_position
seek_stream_start f n h = ground arith
