-- ===== src/Stream/Options.antt =====
-- The options of the playback stream (src/lib.rs) and their validation.
pub mod Laws
use cifs_client_stream.Common.{
  ℕ, ◌*◌, ◌/◌, min, String, Option, none, some, Bool, true, false, ltb, ◌==◌, if◌then◌else◌, Result,
  ok, err, ◌>>=◌, ◌>>◌,
}
use cifs_client_stream.Errors.{Error, invalid_config}

-- `SMB_LEGACY_READ_MAX` of src/smb/common.rs, and the defaults at the head of src/lib.rs.
abbrev pub smb_legacy_read_max : ℕ
smb_legacy_read_max = 65534

abbrev pub default_read_ahead_capacity : ℕ
default_read_ahead_capacity = 8 * 1024 * 1024

abbrev pub default_media_initial_buffer_size : ℕ
default_media_initial_buffer_size = 1024 * 1024

abbrev pub default_media_prefill_target_size : ℕ
default_media_prefill_target_size = 2 * 1024 * 1024

abbrev pub default_smb1_pipeline_depth : ℕ
default_smb1_pipeline_depth = 8

pub record StreamOptions : Type 0 where
  pub read_ahead_capacity : ℕ
  pub chunk_size : ℕ

-- `StreamOptions::default`.
abbrev pub default_stream_options : StreamOptions
default_stream_options = record {
  read_ahead_capacity = default_read_ahead_capacity;
  chunk_size = smb_legacy_read_max;
}

-- `StreamOptions::validate`.
unfoldable pub validate_stream : StreamOptions → Result Error (Unit {0})
validate_stream o =
    if ltb (1024 * 1024) o.chunk_size
    then err (invalid_config "stream chunk size must not exceed 1 MiB")
    else if o.read_ahead_capacity == 0
    then err (invalid_config "read-ahead capacity must be greater than zero")
    else if o.chunk_size == 0
    then err (invalid_config "stream chunk size must be greater than zero")
    else ok tt

-- `StreamOptions::new`.
pub new_stream_options : ℕ → ℕ → Result Error StreamOptions
unfolding validate_stream
new_stream_options capacity chunk = do
  let options : StreamOptions = record { read_ahead_capacity = capacity; chunk_size = chunk }
  validate_stream options
  ok options

-- `StreamOptions::effective_chunk_size`.
unfoldable pub effective_chunk_size : StreamOptions → ℕ
effective_chunk_size o = min o.chunk_size smb_legacy_read_max

-- `StreamingWorkerOptions`.
pub record WorkerOptions : Type 0 where
  pub stream_options : StreamOptions
  pub low_watermark : ℕ
  pub high_watermark : ℕ
  pub pipeline_depth : ℕ

-- `StreamingWorkerOptions::default`.
abbrev pub default_worker_options : WorkerOptions
default_worker_options = record {
  stream_options = default_stream_options;
  low_watermark = default_read_ahead_capacity / 4;
  high_watermark = default_read_ahead_capacity;
  pipeline_depth = default_smb1_pipeline_depth;
}

-- What `StreamingWorkerOptions::validate` tests behind the stream options.
unfoldable pub validate_marks : WorkerOptions → Result Error (Unit {0})
validate_marks o =
    if o.high_watermark == 0
    then err (invalid_config "streaming worker high watermark must be greater than zero")
    else if ltb o.high_watermark o.low_watermark
    then err (invalid_config "streaming worker low watermark must not exceed high watermark")
    else if ltb o.stream_options.read_ahead_capacity o.high_watermark
    then err (invalid_config "streaming worker high watermark must not exceed read-ahead capacity")
    else if o.pipeline_depth == 0
    then err (invalid_config "streaming worker pipeline depth must be greater than zero")
    else if ltb 16 o.pipeline_depth
    then err (invalid_config "streaming worker pipeline depth must not exceed 16")
    else ok tt

-- `StreamingWorkerOptions::validate`.
unfoldable pub validate_worker : WorkerOptions → Result Error (Unit {0})
unfolding validate_stream validate_marks
validate_worker o = do validate_stream o.stream_options; validate_marks o

-- `StreamingWorkerOptions::new_with_pipeline_depth`.
pub new_with_pipeline_depth : StreamOptions → ℕ → ℕ → ℕ → Result Error WorkerOptions
unfolding validate_worker
new_with_pipeline_depth s low high depth = do
  let options : WorkerOptions = record {
    stream_options = s;
    low_watermark = low;
    high_watermark = high;
    pipeline_depth = depth;
  }
  validate_worker options
  ok options

-- `StreamingWorkerOptions::new`.
pub new_worker_options : StreamOptions → ℕ → ℕ → Result Error WorkerOptions
unfolding new_with_pipeline_depth
new_worker_options s low high = new_with_pipeline_depth s low high 1

-- `SmbMediaStreamOptions`.
pub record MediaOptions : Type 0 where
  pub worker_options : WorkerOptions
  pub initial_buffer_size : ℕ

-- `SmbMediaStreamOptions::validate`.
pub validate_media : MediaOptions → Result Error (Unit {0})
unfolding validate_worker
validate_media o = do
  validate_worker o.worker_options
  if ltb o.worker_options.high_watermark o.initial_buffer_size
      then err (invalid_config "SMB media stream initial buffer must not exceed high watermark")
      else ok tt

-- `SmbMediaStreamOptions::new`.
pub new_media_options : WorkerOptions → ℕ → Result Error MediaOptions
unfolding validate_media
new_media_options w initial = do
  let options : MediaOptions = record { worker_options = w; initial_buffer_size = initial }
  validate_media options
  ok options

-- `SmbMediaStreamOptions::default`. Its `expect` is the error case here.
pub default_media_options : Result Error MediaOptions
unfolding new_with_pipeline_depth
default_media_options = do
  w ←
      new_with_pipeline_depth default_stream_options default_media_initial_buffer_size
        default_media_prefill_target_size default_smb1_pipeline_depth
  ok (record { worker_options = w; initial_buffer_size = default_media_initial_buffer_size })
