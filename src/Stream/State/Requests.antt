-- ===== src/Stream/State/Requests.antt =====
-- Which reads `next_buffered_read_requests` asks for.
use cifs_client_stream.Common.{
  ℕ, zero, suc, ◌+◌, ◌-◌, ◌^◌, ◌≤◌, ◌<◌, ◌≡◌, ◌⊎◌, min, List, [], ◌∷◌, arith, length, All,
}
use cifs_client_stream.Stream.Options.{effective_chunk_size}
use cifs_client_stream.Stream.Options.Laws.{effective_chunk_size_bounds}
use cifs_client_stream.Stream.Buffer.{add64}
use cifs_client_stream.Stream.Buffer.Queue.{contents}
use cifs_client_stream.Stream.State.{
  Request, WorkerState, request_len, plan, next_buffered_read_requests,
}
use cifs_client_stream.Stream.State.Invariant.{Inv}

abbrev pub total : List Request → ℕ
total [] = 0
total (r ∷ rs) = r.len + total rs

-- The requests follow one another from `position` on, with no gap and no overlap.
abbrev pub Contiguous : ℕ → List Request → Type 0
Contiguous position [] = Unit {0}
Contiguous position (r ∷ rs) = (r.offset ≡ position) × Contiguous (position + r.len) rs

-- At most `room` contiguous requests from `position` on, of 1 to `chunk` bytes each, for at most
-- `free` bytes of the `left` that the file still has; with fewer requests they ask for all of them.
pub record Plan (room chunk free left position : ℕ) (rs : List Request) : Type 0 where
  pub contiguous : Contiguous position rs
  pub sized : All (λ r. (0 < r.len) × (r.len ≤ chunk)) rs
  pub few : length rs ≤ room
  pub within_free : total rs ≤ free
  pub within_file : total rs ≤ left
  pub filling : (length rs ≡ room) ⊎ (total rs ≡ min free left)

plan-Plan :
    (room goal chunk size buffered position : ℕ)
    → 0 < chunk
    → buffered ≤ position
    → size < 2 ^ 64
    → Plan room chunk
        (goal - buffered)
        (size - position)
        position
        (plan room goal chunk size buffered position)
unfolding plan
plan-Plan zero goal chunk size buffered position pos le small = omega arith
plan-Plan (suc room) goal chunk size buffered position pos le small =
    let len = request_len (goal - buffered) chunk (size - position) in
    ground (arith, plan-Plan room goal chunk size (add64 buffered len) (add64 position len))

-- The reads that are asked for are contiguous from the source position on, at most `max_requests`,
-- of 1 to 65534 bytes and within a chunk each, and together no more than the buffer may still take
-- up to the goal and the high watermark, nor than the file has left. Fewer than `max_requests` of
-- them ask for exactly all of that.
pub requests-Plan :
    (goal max_requests : ℕ) (s : WorkerState)
    → Inv s
    → Plan max_requests
        (effective_chunk_size s.options.stream_options)
        (min goal s.options.high_watermark - length (contents s.buffer))
        (s.file_size - s.source_position)
        s.source_position
        (next_buffered_read_requests goal max_requests s)
unfolding next_buffered_read_requests
requests-Plan goal max_requests s v = ground (
  arith,
  effective_chunk_size_bounds s.options.stream_options v.options.stream,
  plan-Plan max_requests (min goal s.options.high_watermark)
      (effective_chunk_size s.options.stream_options) s.file_size s.buffer.buffered
      s.source_position,
)

-- Contiguous requests for no more than the file has left lie within the file.
pub requests_within :
    (chunk size position : ℕ) (rs : List Request)
    → Contiguous position rs
    → All (λ r. (0 < r.len) × (r.len ≤ chunk)) rs
    → total rs ≤ size - position
    → All (λ r. r.offset + r.len ≤ size) rs
requests_within chunk size position [] next sized fit = tt
requests_within chunk size position (r ∷ rs) (at, next) ((one, le), sized) fit = (
  omega (arith, at, one),
  requests_within chunk size (position + r.len) rs next sized (omega (arith, one)),
)
