-- ===== src/Stream/Options/Laws.antt =====
-- What the validations of the stream options accept.
use cifs_client_stream.Common.{◌*◌, ◌≤◌, ◌<◌, ◌≡◌, ◌↔◌, ok, arith}
use cifs_client_stream.Stream.Options.{
  StreamOptions, WorkerOptions, MediaOptions, validate_stream, validate_worker, validate_media,
  effective_chunk_size,
}

pub record IsValidStream (o : StreamOptions) : Type 0 where
  pub capacity_pos : 0 < o.read_ahead_capacity
  pub chunk_pos : 0 < o.chunk_size
  pub chunk_le : o.chunk_size ≤ 1024 * 1024

pub record IsValidWorker (o : WorkerOptions) : Type 0 where
  pub stream : IsValidStream o.stream_options
  pub high_pos : 0 < o.high_watermark
  pub low_le_high : o.low_watermark ≤ o.high_watermark
  pub high_le_capacity : o.high_watermark ≤ o.stream_options.read_ahead_capacity
  pub depth_pos : 0 < o.pipeline_depth
  pub depth_le : o.pipeline_depth ≤ 16

pub record IsValidMedia (o : MediaOptions) : Type 0 where
  pub worker : IsValidWorker o.worker_options
  pub initial_le : o.initial_buffer_size ≤ o.worker_options.high_watermark

pub validate_stream_iff : (o : StreamOptions) → (validate_stream o ≡ ok tt) ↔ IsValidStream o
unfolding validate_stream
validate_stream_iff o = (λ h. ground arith, λ v. ground arith)

-- `StreamingWorkerOptions::validate` accepts exactly the options whose marks lie in order below the
-- capacity, with a chunk size from 1 to 1 MiB and a pipeline depth from 1 to 16.
pub validate_worker_iff : (o : WorkerOptions) → (validate_worker o ≡ ok tt) ↔ IsValidWorker o
unfolding validate_worker
validate_worker_iff o = (λ h. ground arith, λ v. ground arith)

-- `SmbMediaStreamOptions::validate` accepts exactly the valid worker options whose high watermark
-- covers the initial buffer.
pub validate_media_iff : (o : MediaOptions) → (validate_media o ≡ ok tt) ↔ IsValidMedia o
unfolding validate_media
validate_media_iff o = (λ h. ground arith, λ v. ground arith)

-- With valid options a read asks for at least one byte and for at most 65534.
pub effective_chunk_size_bounds :
    (o : StreamOptions)
    → IsValidStream o
    → (0 < effective_chunk_size o)
      × (effective_chunk_size o ≤ 65534)
      × (effective_chunk_size o ≤ o.chunk_size)
unfolding effective_chunk_size
effective_chunk_size_bounds o v = omega arith
