-- ===== src/Stream/Worker.antt =====
-- `StreamingWorker` and `SmbMediaStream` of src/lib.rs, over the connection's `read_at_pipelined`.
pub mod Chunks
pub mod Serving
pub mod Filling
pub mod Faithful
pub mod Playback
pub mod Seeking
mod Tests
use cifs_client_stream.Common.{
  ℕ, zero, suc, max, List, [], ◌∷◌, Option, none, some, Bool, true, false, not, ◌&&◌, ltb, ◌==◌,
  if◌then◌else◌, Result, ok, err, ◌>>=◌, ◌>>◌,
}
use cifs_client_stream.Errors.{Error}
use cifs_client_stream.Smb.Handle.{Handle}
use cifs_client_stream.Stream.Options.{WorkerOptions, MediaOptions, validate_media}
use cifs_client_stream.Stream.Buffer.{Bytes}
use cifs_client_stream.Stream.Seek.{SeekFrom, start, FileStream, seek_stream, stream_size}
use cifs_client_stream.Stream.State.{
  Request, Stats, stats, WorkerState, new_state, is_finished, should_prefill,
  next_buffered_read_requests, push_source_chunk, pop_read, seek_state,
}

pub record StreamingWorker : Type 0 where
  pub stream : FileStream
  pub state : WorkerState

-- `StreamingWorker::new`.
pub new_worker : FileStream → WorkerOptions → Result Error StreamingWorker
new_worker f options = do
  fresh ← new_state (stream_size f) options
  state ← if f.position == 0 then ok fresh else seek_state (start f.position) fresh
  ok (record { stream = f; state = state })

-- `StreamingWorker::seek`. The state is sought first, and stays so where the file refuses.
pub seek_worker : SeekFrom → StreamingWorker → Result Error ℕ × StreamingWorker
seek_worker from w = elim (seek_state from w.state) [
  | err e ↦ (err e, w)
  | ok state ↦ elim (seek_stream (start state.playback_position) w.stream) [
    | err e ↦ (err e, record w { state = state })
    | ok stream ↦ (ok state.playback_position, record { stream = stream; state = state })
  ]
]

-- `StreamingWorker::read_available`.
pub read_available : ℕ → StreamingWorker → Option Bytes × StreamingWorker
read_available max_len w =
    let (taken, state) = pop_read max_len w.state in (taken, record w { state = state })

-- `StreamingWorker::into_stream`, `stats`, `is_finished` and `should_prefill`.
abbrev pub worker_into_stream : StreamingWorker → FileStream
worker_into_stream w = w.stream

abbrev pub worker_stats : StreamingWorker → Stats
worker_stats w = stats w.state

abbrev pub worker_is_finished : StreamingWorker → Bool
worker_is_finished w = is_finished w.state

abbrev pub worker_should_prefill : StreamingWorker → Bool
worker_should_prefill w = should_prefill w.state

-- The `for chunk in chunks` loop of `fill_until_buffered`. `true` says that a chunk was taken.
pub push_chunks : List Bytes → Bool → StreamingWorker → Result Error Bool × StreamingWorker
push_chunks [] filled w = (ok filled, w)
push_chunks (c ∷ cs) filled w = elim (push_source_chunk c w.state) [
  | err e ↦ (err e, w)
  | ok state ↦ elim (seek_stream (start state.source_position) w.stream) [
    | err e ↦ (err e, record w { state = state })
    | ok stream ↦ elim state.source_eof [
      | true ↦ (ok true, record { stream = stream; state = state })
      | false ↦ push_chunks cs true (record { stream = stream; state = state })
    ]
  ]
]

-- `read_at_pipelined` of the connection, whose state is a `W`: a chunk for each request, or an error.
abbrev pub Reader : Type 0 → Type 0
Reader W = Handle → List Request → W → Result Error (List Bytes) × W

-- What an operation on a worker returns: `none` says that its fuel ran out, and the worker and the
-- connection come back after an error too.
abbrev pub Run : Type 0 → Type 0 → Type 0
Run W A = Option (Result Error A) × StreamingWorker × W

-- The two tests at the head of the loop of `fill_until_buffered`: on the end of the file, and on
-- no requests, it stops.
abbrev pub turn {ℓ} : {A : Type ℓ} → Bool → List Request → A → A → A
turn true rs stop more = stop
turn false [] stop more = stop
turn false (r ∷ rs) stop more = more

module _ {W : Type 0} (read : Reader W) where
  -- A round of `fill_until_buffered` behind the read: stop at an error or at no chunk, or go on.
  pub fill_round :
      (Bool → StreamingWorker → W → Run W Bool)
      → Bool
      → StreamingWorker
      → Result Error (List Bytes) × W
      → Run W Bool
  fill_round next filled w (err e, world) = (some (err e), w, world)
  fill_round next filled w (ok [], world) = (some (ok filled), w, world)
  fill_round next filled w (ok (c ∷ cs), world) = elim (push_chunks (c ∷ cs) filled w).0 [
    | err e ↦ (some (err e), (push_chunks (c ∷ cs) filled w).1, world)
    | ok filled' ↦ next filled' (push_chunks (c ∷ cs) filled w).1 world
  ]

  -- The `while` loop of `fill_until_buffered`, on fuel.
  pub fill : ℕ → ℕ → Bool → StreamingWorker → W → Run W Bool
  unfolding fill_round
  fill zero goal filled w world = (none, w, world)
  fill (suc fuel) goal filled w world =
      let requests = next_buffered_read_requests goal w.state.options.pipeline_depth w.state in
      let more = fill_round (fill fuel goal) filled w (read w.stream.handle requests world) in
      turn w.state.source_eof requests (some (ok filled), w, world) more

  -- Each round moves the source position, which stays within the file.
  pub fill_until_buffered : ℕ → StreamingWorker → W → Run W Bool
  unfolding fill
  fill_until_buffered goal w world = fill (suc w.state.file_size) goal false w world

  pub prefill_to_high_watermark : StreamingWorker → W → Run W Bool
  unfolding fill_until_buffered
  prefill_to_high_watermark w world = fill_until_buffered w.state.options.high_watermark w world

  -- `read_block` behind its filling.
  pub serve : ℕ → Run W Bool → Run W (Option Bytes)
  serve max_len (none, w, world) = (none, w, world)
  serve max_len (some (err e), w, world) = (some (err e), w, world)
  serve max_len (some (ok filled), w, world) =
      let (taken, w') = read_available max_len w in (some (ok taken), w', world)

  -- `StreamingWorker::read_block`.
  pub read_block : ℕ → StreamingWorker → W → Run W (Option Bytes)
  unfolding serve
  read_block max_len w world =
      if max_len == 0
      then (some (ok none), w, world)
      else if ltb w.state.buffer.buffered max_len && not (is_finished w.state)
      then serve max_len (fill_until_buffered (max max_len w.state.options.low_watermark) w world)
      else serve max_len (some (ok false), w, world)

-- `SmbMediaStream`.
pub record MediaStream : Type 0 where
  pub worker : StreamingWorker
  pub options : MediaOptions

-- `SmbMediaStream::new`.
pub new_media_stream : FileStream → MediaOptions → Result Error MediaStream
new_media_stream f options = do
  validate_media options
  worker ← new_worker f options.worker_options
  ok (record { worker = worker; options = options })

-- `SmbMediaStream::options`, `into_stream`, `stats`, `is_finished`, `should_prefill` and `seek`.
abbrev pub media_options : MediaStream → MediaOptions
media_options m = m.options

abbrev pub media_into_stream : MediaStream → FileStream
media_into_stream m = worker_into_stream m.worker

abbrev pub media_stats : MediaStream → Stats
media_stats m = worker_stats m.worker

abbrev pub media_is_finished : MediaStream → Bool
media_is_finished m = worker_is_finished m.worker

abbrev pub media_should_prefill : MediaStream → Bool
media_should_prefill m = worker_should_prefill m.worker

pub seek_media : SeekFrom → MediaStream → Result Error ℕ × MediaStream
unfolding seek_worker
seek_media from m = let (r, worker) = seek_worker from m.worker in (r, record m { worker = worker })

-- A call on the worker of the stream.
abbrev pub keep_options :
    {W A : Type 0} → MediaStream → Run W A → Option (Result Error A) × MediaStream × W
keep_options m (r, w, world) = (r, record m { worker = w }, world)

module _ {W : Type 0} (read : Reader W) where
  -- `SmbMediaStream::fill_initial_buffer`.
  pub fill_initial_buffer : MediaStream → W → Option (Result Error Bool) × MediaStream × W
  fill_initial_buffer m world =
      if m.options.initial_buffer_size == 0
      then (some (ok false), m, world)
      else keep_options m (fill_until_buffered read m.options.initial_buffer_size m.worker world)

  -- `SmbMediaStream::maybe_prefill`.
  pub maybe_prefill : MediaStream → W → Option (Result Error Bool) × MediaStream × W
  maybe_prefill m world =
      if should_prefill m.worker.state
      then keep_options m (prefill_to_high_watermark read m.worker world)
      else (some (ok false), m, world)

  -- `SmbMediaStream::read_block`.
  pub read_media_block :
      ℕ → MediaStream → W → Option (Result Error (Option Bytes)) × MediaStream × W
  read_media_block max_len m world = keep_options m (read_block read max_len m.worker world)
