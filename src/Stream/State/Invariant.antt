-- ===== src/Stream/State/Invariant.antt =====
-- The invariant of the worker state, kept by every operation.
use cifs_client_stream.Common.{
  ℕ, ◌+◌, ◌-◌, ◌^◌, ◌≤◌, ◌<◌, ◌≡◌, [], ◌∷◌, ◌++◌, append-nil, ok, arith, true, leb, length,
  length-append, length-take, length-drop, >>=-eq-ok, ◌≢◌, err,
}
use cifs_client_stream.Errors.{Error}
use cifs_client_stream.Stream.Options.{WorkerOptions, validate_worker}
use cifs_client_stream.Stream.Options.Laws.{IsValidWorker, validate_worker_iff}
use cifs_client_stream.Stream.Buffer.{Bytes}
use cifs_client_stream.Stream.Buffer.Queue.{contents, IsValid, push_lem, clear_lem, empty-IsValid}
use cifs_client_stream.Stream.Buffer.Pop.{pop_block-Takes}
use cifs_client_stream.Common.Int.{pos}
use cifs_client_stream.Stream.Seek.{SeekFrom, seek_position, seek_target}
use cifs_client_stream.Stream.Seek.Laws.{seek_position_iff}
use cifs_client_stream.Stream.State.{
  WorkerState, new_state, push_source_chunk, pop_read, seek_state, is_finished,
}

-- The buffered bytes are those from the playback position up to the source position, the positions
-- are `u64`s, and the end-of-file flag says whether the source position has reached the file's size.
pub record Inv (s : WorkerState) : Type 0 where
  pub options : IsValidWorker s.options
  pub buffer : IsValid s.buffer
  pub aligned : s.playback_position + length (contents s.buffer) ≡ s.source_position
  pub source_small : s.source_position < 2 ^ 64
  pub size_small : s.file_size < 2 ^ 64
  pub eof : s.source_eof ≡ leb s.file_size s.source_position

-- `StreamingWorkerState::new` on valid options gives a state that satisfies the invariant.
pub new_state-Inv :
    (size : ℕ) (o : WorkerOptions) (s : WorkerState)
    → size < 2 ^ 64
    → new_state size o ≡ ok s
    → Inv s
unfolding new_state
new_state-Inv size o s small h =
    let (u, valid, made) = >>=-eq-ok (validate_worker o) _ h in
    ground (arith, (validate_worker_iff o).0, empty-IsValid)

-- An accepted chunk keeps the invariant, is appended to the buffered bytes and moves the source
-- position over them; the playback position, the file's size and the options stay.
pub push_source_chunk-Inv :
    (chunk : Bytes) (s t : WorkerState)
    → Inv s
    → push_source_chunk chunk s ≡ ok t
    → Inv t
      × (t.source_position ≡ s.source_position + length chunk)
      × (contents t.buffer ≡ contents s.buffer ++ chunk)
      × (t.playback_position ≡ s.playback_position)
      × (t.file_size ≡ s.file_size)
      × (t.options ≡ s.options)
unfolding push_source_chunk
push_source_chunk-Inv [] s t v h = ground (arith, append-nil (contents s.buffer))
push_source_chunk-Inv (x ∷ c) s t v h =
    ground (arith, push_lem (x ∷ c) s.buffer v.buffer, length-append (contents s.buffer) (x ∷ c))

-- Before the end of the file a chunk that is accepted has bytes.
pub push_source_chunk_moves :
    (chunk : Bytes) (s t : WorkerState)
    → Inv s
    → s.source_position < s.file_size
    → push_source_chunk chunk s ≡ ok t
    → s.source_position < t.source_position
unfolding push_source_chunk
push_source_chunk_moves [] s t v room h = ground arith
push_source_chunk_moves (x ∷ c) s t v room h = ground arith

-- A chunk with bytes that the file still has room for is accepted.
pub push_source_chunk_fits :
    (chunk : Bytes) (s : WorkerState)
    → Inv s
    → 0 < length chunk
    → length chunk ≤ s.file_size - s.source_position
    → (e : Error) → push_source_chunk chunk s ≢ err e
unfolding push_source_chunk
push_source_chunk_fits [] s v bytes fits e = absurd (omega arith)
push_source_chunk_fits (x ∷ c) s v bytes fits e = ground arith

pub pop_read-Inv : (m : ℕ) (s : WorkerState) → Inv s → Inv (pop_read m s).1
unfolding pop_read
pop_read-Inv m s v = ground (
  arith,
  pop_block-Takes m s.buffer v.buffer,
  length-take m (contents s.buffer),
  length-drop m (contents s.buffer),
)

pub seek_state-Inv :
    (from : SeekFrom) (s t : WorkerState) → Inv s → seek_state from s ≡ ok t → Inv t
unfolding seek_state
seek_state-Inv from s t v h =
    let (next, sought, made) = >>=-eq-ok (seek_position s.file_size s.playback_position from) _ h in
    ground (
      arith,
      (seek_position_iff s.file_size s.playback_position from next).0 sought,
      clear_lem s.buffer,
    )

-- `is_finished` means that the source has ended and that no byte is buffered.
pub is_finished_lem :
    (s : WorkerState)
    → Inv s
    → is_finished s ≡ true
    → (s.file_size ≤ s.source_position) × (length (contents s.buffer) ≡ 0)
unfolding is_finished
is_finished_lem s v h = ground arith

-- Where a new state stands.
pub new_state_lem :
    (size : ℕ) (o : WorkerOptions) (s : WorkerState)
    → new_state size o ≡ ok s
    → (s.playback_position ≡ 0) × (contents s.buffer ≡ []) × (s.file_size ≡ size)
unfolding new_state
new_state_lem size o s h = let (u, valid, made) = >>=-eq-ok (validate_worker o) _ h in ground arith

-- Where a seek puts the state.
pub seek_state_lem :
    (from : SeekFrom) (s t : WorkerState)
    → seek_state from s ≡ ok t
    → (seek_target s.file_size s.playback_position from ≡ pos t.playback_position)
      × (t.playback_position < 2 ^ 64)
      × (t.source_position ≡ t.playback_position)
      × (contents t.buffer ≡ [])
unfolding seek_state
seek_state_lem from s t h =
    let (next, sought, made) = >>=-eq-ok (seek_position s.file_size s.playback_position from) _ h in
    ground (
      arith,
      (seek_position_iff s.file_size s.playback_position from next).0 sought,
      clear_lem s.buffer,
    )

-- A seek is refused only if its target is no position.
pub seek_state_refused :
    (from : SeekFrom) (s : WorkerState) (e : Error) (n : ℕ)
    → seek_state from s ≡ err e
    → ¬ ((seek_target s.file_size s.playback_position from ≡ pos n) × (n < 2 ^ 64))
unfolding seek_state
seek_state_refused from s e n h good =
    ground (arith, (seek_position_iff s.file_size s.playback_position from n).1 good)
