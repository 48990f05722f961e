-- ===== src/Stream/State.antt =====
-- `StreamingWorkerState` of src/lib.rs: the buffer, the playback position and the source position.
pub mod Invariant
pub mod Requests
pub mod Content
use cifs_client_stream.Common.{
  ℕ, zero, suc, ◌-◌, ◌^◌, min, List, [], ◌∷◌, Option, none, some, Bool, true, false, not, ◌&&◌,
  ◌||◌, ltb, leb, ◌==◌, if◌then◌else◌, length, Result, ok, err, ◌>>=◌, ◌>>◌,
}
use cifs_client_stream.Errors.{Error, internal_error}
use cifs_client_stream.Stream.Options.{WorkerOptions, validate_worker, effective_chunk_size}
use cifs_client_stream.Stream.Buffer.{
  Bytes, StreamingBuffer, empty, is_empty, is_nil, chunk_count, clear, push, pop_block, add64,
}
use cifs_client_stream.Stream.Seek.{SeekFrom, seek_position}

-- `StreamingWorkerReadRequest`.
pub record Request : Type 0 where
  pub offset : ℕ
  pub len : ℕ

-- `StreamingWorkerStats`.
pub record Stats : Type 0 where
  pub playback_position : ℕ
  pub source_position : ℕ
  pub file_size : ℕ
  pub buffered : ℕ
  pub buffered_chunks : ℕ
  pub low_watermark : ℕ
  pub high_watermark : ℕ
  pub source_eof : Bool

-- `remaining`, `prefetched` and `high_watermark_deficit`: `saturating_sub` is `-`.
pub remaining : Stats → ℕ
remaining t = t.file_size - t.playback_position

pub prefetched : Stats → ℕ
prefetched t = t.source_position - t.playback_position

pub high_watermark_deficit : Stats → ℕ
high_watermark_deficit t = t.high_watermark - t.buffered

-- `StreamingWorkerStats::should_prefill`.
pub wants_prefill : Stats → Bool
wants_prefill t =
    not t.source_eof && (leb t.buffered t.low_watermark && ltb t.buffered t.high_watermark)

pub record WorkerState : Type 0 where
  pub options : WorkerOptions
  pub buffer : StreamingBuffer
  pub playback_position : ℕ
  pub source_position : ℕ
  pub file_size : ℕ
  pub source_eof : Bool

-- `StreamingWorkerState::new`.
unfoldable pub new_state : ℕ → WorkerOptions → Result Error WorkerState
new_state size options = do
  validate_worker options
  ok (record {
    options = options;
    buffer = empty;
    playback_position = 0;
    source_position = 0;
    file_size = size;
    source_eof = size == 0;
  })

pub is_finished : WorkerState → Bool
unfolding is_empty
is_finished s = s.source_eof && is_empty s.buffer

pub stats : WorkerState → Stats
stats s = record {
  playback_position = s.playback_position;
  source_position = s.source_position;
  file_size = s.file_size;
  buffered = s.buffer.buffered;
  buffered_chunks = chunk_count s.buffer;
  low_watermark = s.options.low_watermark;
  high_watermark = s.options.high_watermark;
  source_eof = s.source_eof;
}

-- `StreamingWorkerState::should_prefill`.
pub should_prefill : WorkerState → Bool
unfolding wants_prefill stats
should_prefill s = wants_prefill (stats s)

-- `len` of one request: what is free of the goal, at most a chunk, and at most what the file has left.
abbrev request_len : ℕ → ℕ → ℕ → ℕ
request_len free chunk remaining =
    let count = min free chunk in if ltb (2 ^ 64 - 1) remaining then count else min count remaining

-- The `while` loop of `next_buffered_read_requests`: the first argument counts the requests that
-- are still allowed, `buffered` and `position` are the simulated ones.
plan : ℕ → ℕ → ℕ → ℕ → ℕ → ℕ → List Request
plan zero goal chunk size buffered position = []
plan (suc room) goal chunk size buffered position =
    let free = goal - buffered in
    let len = request_len free chunk (size - position) in
    let rest = plan room goal chunk size (add64 buffered len) (add64 position len) in
    if ltb buffered goal && ltb position size
    then (if free == 0
        then []
        else if len == 0
        then []
        else record { offset = position; len = len } ∷ rest)
    else []

pub next_buffered_read_requests : ℕ → ℕ → WorkerState → List Request
next_buffered_read_requests buffered_goal max_requests s =
    if max_requests == 0 || (s.source_eof || leb s.file_size s.source_position)
    then []
    else plan max_requests (min buffered_goal s.options.high_watermark)
        (effective_chunk_size s.options.stream_options) s.file_size s.buffer.buffered
        s.source_position

-- `push_source_chunk`; a refused chunk leaves the state as it was.
unfoldable pub push_source_chunk : Bytes → WorkerState → Result Error WorkerState
push_source_chunk chunk s =
    if is_nil chunk
    then (if ltb s.source_position s.file_size
        then err (internal_error "streaming worker source returned empty chunk before EOF")
        else ok (record s { source_eof = true }))
    else if ltb (s.file_size - s.source_position) (length chunk)
    then err (internal_error "streaming worker source returned more data than remains in file")
    else let position = add64 s.source_position (length chunk) in
      ok (record s {
        buffer = push chunk s.buffer;
        source_position = position;
        source_eof = if leb s.file_size position then true else s.source_eof;
      })

-- `pop_read`.
pub pop_read : ℕ → WorkerState → Option Bytes × WorkerState
pop_read max_len s =
    let (taken, rest) = pop_block max_len s.buffer in
    (
      taken,
      elim taken [
        | none ↦ record s { buffer = rest }
        | some chunk ↦ record s {
          buffer = rest;
          playback_position = add64 s.playback_position (length chunk);
        }
      ],
    )

-- `StreamingWorkerState::seek`.
unfoldable pub seek_state : SeekFrom → WorkerState → Result Error WorkerState
seek_state from s = do
  next ← seek_position s.file_size s.playback_position from
  ok (record s {
    buffer = clear s.buffer;
    playback_position = next;
    source_position = next;
    source_eof = leb s.file_size next;
  })
