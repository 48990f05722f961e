-- ===== src/Ffi/Media.antt =====
-- Reading a media file through the C interface (src/ffi.rs). A pointer is null or leads to what it
-- was made for, as the interface asks of its callers; a session that was closed has no `inner`.
pub mod Laws
pub mod Bounds
use cifs_client_stream.Common.{
  ℕ, zero, suc, ◌+◌, ◌-◌, ◌^◌, ◌++◌, List, [], Option, none, some, Bool, true, false, leb, ltb,
  ◌==◌, if◌then◌else◌, min, length, take, drop, Run, done, fails, panics,
}
use cifs_client_stream.Errors.{Error}
use cifs_client_stream.Smb.Handle.{Handle}
use cifs_client_stream.Smb.Wire.{Wire}
use cifs_client_stream.Stream.Buffer.{Bytes, is_nil}
use cifs_client_stream.Stream.Options.{smb_legacy_read_max}
use cifs_client_stream.Client.Commands.{Cifs, Network, Call, read_at}

-- The messages of the failures, `failed` for that of `format_error`.
pub data MediaError : Type 0 where
  null_media null_buffer closed_handle null_session closed_session : MediaError
  timed_out conversion_failed caught_panic : MediaError
  failed : Error → MediaError

-- `tokio::time::timeout`: whether the timer ends a call on a connection before it returns, and the
-- connection that the abandoned call leaves.
pub record Timer (N : Type 0) : Type 0 where
  pub elapses : ℕ → Call N Bytes → Cifs N → Bool
  pub abandoned : ℕ → Call N Bytes → Cifs N → Cifs N

-- What a step on the connection gives: `none` for no fuel.
abbrev pub MediaCall : Type 0 → Type 0 → Type 0
MediaCall N A = Cifs N → Option (Run MediaError A) × Cifs N

-- `.map_err(format_error)?`, and what follows.
abbrev pub then_bytes :
    {N : Type 0}
    → Option (Run Error Bytes) × Cifs N
    → (Bytes → MediaCall N Bytes)
    → Option (Run MediaError Bytes) × Cifs N
then_bytes (none, c) next = (none, c)
then_bytes (some (fails e), c) next = (some (fails (failed e)), c)
then_bytes (some panics, c) next = (some panics, c)
then_bytes (some (done chunk), c) next = next chunk c

abbrev pub saturating_add_u64 : ℕ → ℕ → ℕ
saturating_add_u64 a b = min (a + b) (2 ^ 64 - 1)

abbrev pub default_timeout_ms : ℕ
default_timeout_ms = 15000

-- `timeout_from_ms`.
unfoldable pub timeout_from_ms : ℕ → ℕ
timeout_from_ms ms = if ms == 0 then default_timeout_ms else ms

-- `CifsClientStreamSession` with its connection, and `CifsClientStreamMedia`.
pub record Session (N : Type 0) : Type 0 where
  pub inner : Option (Cifs N)

pub record Media (N : Type 0) : Type 0 where
  pub session : Option (Session N)
  pub handle : Option Handle
  pub file_size : ℕ

-- What a call of `media_read_at` returns, with the media and the caller's buffer behind it.
pub record ReadOutcome (N A : Type 0) : Type 0 where
  pub result : Option A
  pub media : Option (Media N)
  pub buffer : Option Bytes

-- The result for the caller: the number of bytes, or −1 and the message.
pub data Returned : Type 0 where
  bytes_read : ℕ → Returned
  minus_one : MediaError → Returned

abbrev pub as_returned : Option (Run MediaError ℕ) → Option Returned
as_returned none = none
as_returned (some (done n)) = some (bytes_read n)
as_returned (some (fails e)) = some (minus_one e)
as_returned (some panics) = some (minus_one caught_panic)

-- `ptr::copy_nonoverlapping` to the start of a buffer, and `i64::try_from`.
abbrev pub copy_to_start : Bytes → ℕ → Bytes → Bytes
copy_to_start bytes count buffer = take count bytes ++ drop count buffer

unfoldable pub to_i64 : ℕ → Run MediaError ℕ
to_i64 n = if ltb n (2 ^ 63) then done n else fails conversion_failed

-- The end of `media_read_at_from_c`, behind the read.
unfoldable pub copy_out :
    {N : Type 0}
    → Media N
    → Bytes
    → ℕ
    → Option (Run MediaError Bytes) × Cifs N
    → ReadOutcome N (Run MediaError ℕ)
unfolding to_i64
copy_out {N} media buffer requested (o, c) = behind o
  where
    after : Media N
    after = record media { session = some (record { inner = some c }) }

    behind : Option (Run MediaError Bytes) → ReadOutcome N (Run MediaError ℕ)
    behind none = record { result = none; media = some after; buffer = some buffer }
    behind (some (fails e)) = record {
      result = some (fails e);
      media = some after;
      buffer = some buffer;
    }
    behind (some panics) = record { result = some panics; media = some after; buffer = some buffer }
    behind (some (done bytes)) = record {
      result = some (to_i64 (min (length bytes) requested));
      media = some after;
      buffer = some (copy_to_start bytes (min (length bytes) requested) buffer);
    }

module _ {N : Type 0} (wire : Wire) (network : Network N) (timer : Timer N) (fuel : ℕ) where
  -- A read under the timer.
  unfoldable pub timed_read : ℕ → Handle → ℕ → ℕ → (Bytes → MediaCall N Bytes) → MediaCall N Bytes
  timed_read timeout h cursor count next c =
      let call = read_at wire network fuel h cursor count in
      if timer.elapses timeout call c
      then (some (fails timed_out), timer.abandoned timeout call c)
      else then_bytes (call c) next

  -- The loop of `read_media_handle_at_for_session`: it ends at an empty chunk.
  unfoldable pub read_chunks : ℕ → ℕ → Handle → ℕ → ℕ → Bytes → MediaCall N Bytes
  read_chunks zero timeout h cursor remaining output c = (none, c)
  read_chunks (suc left) timeout h cursor remaining output c =
      if remaining == 0
      then (some (done output), c)
      else if leb (2 ^ 32) (min remaining smb_legacy_read_max)
      then (some (fails conversion_failed), c)
      else timed_read timeout h cursor (min remaining smb_legacy_read_max)
          (λ chunk. λ c₁.
            if is_nil chunk
            then (some (done output), c₁)
            else read_chunks left timeout h (saturating_add_u64 cursor (length chunk))
                (remaining - length chunk) (output ++ chunk) c₁)
          c

  -- `read_media_handle_at_for_session`. A chunk that is not empty takes at least a byte off what
  -- remains, so that the loop turns at most once more than there are bytes.
  unfoldable pub read_media : Handle → ℕ → ℕ → ℕ → MediaCall N Bytes
  read_media h offset requested timeout c =
      if requested == 0
      then (some (done []), c)
      else if leb h.size offset
      then (some (done []), c)
      else let remaining = min requested (h.size - offset) in
        if remaining == 0
        then (some (done []), c)
        else read_chunks (suc remaining) timeout h offset remaining [] c

  -- The guards of `media_read_at_from_c`, behind those of the two pointers and the length.
  abbrev pub read_of :
      Media N
      → Bytes
      → ℕ
      → ℕ
      → ℕ
      → Option Handle
      → Option (Session N)
      → ReadOutcome N (Run MediaError ℕ)
  read_of media buffer offset requested ms none session = record {
    result = some (fails closed_handle);
    media = some media;
    buffer = some buffer;
  }
  read_of media buffer offset requested ms (some h) none = record {
    result = some (fails null_session);
    media = some media;
    buffer = some buffer;
  }
  read_of media buffer offset requested ms (some h) (some session) = on_connection session.inner
    where
      on_connection : Option (Cifs N) → ReadOutcome N (Run MediaError ℕ)
      on_connection none = record {
        result = some (fails closed_session);
        media = some media;
        buffer = some buffer;
      }
      on_connection (some c) =
          copy_out media buffer requested (read_media h offset requested (timeout_from_ms ms) c)

  -- `media_read_at_from_c`.
  unfoldable pub media_read_at_from_c :
      Option (Media N) → ℕ → Option Bytes → ℕ → ℕ → ReadOutcome N (Run MediaError ℕ)
  media_read_at_from_c none offset buffer len ms = record {
    result = some (fails null_media);
    media = none;
    buffer = buffer;
  }
  media_read_at_from_c (some media) offset none len ms = record {
    result = some (fails null_buffer);
    media = some media;
    buffer = none;
  }
  media_read_at_from_c (some media) offset (some buffer) len ms =
      if len == 0
      then record { result = some (done 0); media = some media; buffer = some buffer }
      else read_of media buffer offset len ms media.handle media.session

  -- `cifs_client_stream_media_read_at`, which catches a panic.
  unfoldable pub media_read_at :
      Option (Media N) → ℕ → Option Bytes → ℕ → ℕ → ReadOutcome N Returned
  media_read_at media offset buffer len ms =
      let o = media_read_at_from_c media offset buffer len ms in
      record { result = as_returned o.result; media = o.media; buffer = o.buffer }
