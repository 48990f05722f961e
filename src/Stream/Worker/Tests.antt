-- ===== src/Stream/Worker/Tests.antt =====
-- A short file played over a connection that answers in full.
use cifs_client_stream.Common.{
  ℕ, ◌↔◌, ◌+◌, ◌≤◌, ◌≡◌, refl, List, [], ◌∷◌, false, ok, All, arith, length-take, length-drop, drop,
  subst,
}
use cifs_client_stream.Common.Int.{◌+ℤ◌}
use cifs_client_stream.Smb.Handle.{Handle}
use cifs_client_stream.Stream.Options.{
  WorkerOptions, effective_chunk_size, validate_stream, validate_worker, validate_marks,
}
use cifs_client_stream.Stream.Options.Laws.{IsValidWorker}
use cifs_client_stream.Stream.Buffer.{Bytes, clear, push}
use cifs_client_stream.Stream.Buffer.Queue.{contents}
use cifs_client_stream.Stream.Buffer.Pop.{non_empty}
use cifs_client_stream.Stream.Seek.{start, seek_position, seek_target, seek_stream}
use cifs_client_stream.Stream.State.{
  Request, new_state, seek_state, WorkerState, pop_read, push_source_chunk,
  next_buffered_read_requests,
}
use cifs_client_stream.Stream.State.Requests.{Plan, requests-Plan}
use cifs_client_stream.Stream.State.Invariant.{Inv}
use cifs_client_stream.Stream.State.Content.{
  Holds, slice_at, push_source_chunk-Holds_iff, pop_read-Holds,
}
use cifs_client_stream.Stream.Worker.{
  push_chunks, StreamingWorker, Reader, fill_until_buffered, read_block, new_worker, seek_worker,
}
use cifs_client_stream.Stream.Worker.Serving.{Serves}
use cifs_client_stream.Stream.Worker.Filling.{Ends, fill_until_buffered-Ends}
use cifs_client_stream.Stream.Worker.Faithful.{Trusts, Filled, fill_until_buffered-Filled}
use cifs_client_stream.Stream.Worker.Playback.{Plays, read_block-Plays}
use cifs_client_stream.Stream.Worker.Seeking.{Sought, seek_worker-Sought}

abbrev song : Bytes
song = 11 ∷ 12 ∷ 13 ∷ 14 ∷ 15 ∷ 16 ∷ 17 ∷ []

abbrev song_handle : Handle
song_handle = record {
  tid = 1;
  fid = 2;
  oplock = 0;
  disposition = 1;
  create_time = 0;
  access_time = 0;
  write_time = 0;
  change_time = 0;
  attributes = 0;
  allocation_size = 8;
  size = 7;
  file_type = 0;
  directory = false;
}

abbrev small_options : WorkerOptions
small_options = record {
  stream_options = record { read_ahead_capacity = 6; chunk_size = 2 };
  low_watermark = 2;
  high_watermark = 5;
  pipeline_depth = 2;
}

small_options-IsValidWorker : IsValidWorker small_options
small_options-IsValidWorker = ground arith

-- Two bytes are buffered behind a first block of one.
abbrev playing : StreamingWorker
playing = record {
  stream = record { handle = song_handle; position = 3 };
  state = record {
    options = small_options;
    buffer = record { chunks = (12 ∷ []) ∷ (13 ∷ []) ∷ []; buffered = 2 };
    playback_position = 1;
    source_position = 3;
    file_size = 7;
    source_eof = false;
  };
}

playing-Inv : Inv playing.state
playing-Inv = record {
  options = small_options-IsValidWorker;
  buffer = record { counted = refl; full = (omega arith, (omega arith, tt)); small = omega arith };
  aligned = refl;
  source_small = omega arith;
  size_small = omega arith;
  eof = refl;
}

playing-Holds : Holds song playing.state
playing-Holds = record { sized = refl; matches = refl }

-- The slices that the requests name.
abbrev slices : List Request → List Bytes
slices [] = []
slices (r ∷ rs) = slice_at song r.offset r.len ∷ slices rs

abbrev serve_song : Reader (Unit {0})
serve_song h rs world = (ok (slices rs), world)

slices-Serves :
    (chunk : ℕ) (rs : List Request)
    → All (λ r. (r.offset + r.len ≤ 7) × (r.len ≤ chunk)) rs
    → Serves song rs (slices rs)
slices-Serves chunk [] fit = tt
slices-Serves chunk (r ∷ rs) fit = (
  refl,
  omega (arith, fit.0.0, length-take r.len (drop r.offset song), length-drop r.offset song),
  slices-Serves chunk rs fit.1,
)

abbrev Any : Unit {0} → Type 0
Any world = Unit {0}

serve_song-IsFaithful : Trusts serve_song song Any playing
serve_song-IsFaithful = record {
  keeps = λ rs world fine fit. tt;
  serves = λ rs world cs fine fit h.
      let same : slices rs ≡ cs = cc in subst (Serves song rs) same (slices-Serves _ rs fit.0);
}

fill_until_buffered-Ends_example : Ends playing (fill_until_buffered serve_song 4 playing tt)
fill_until_buffered-Ends_example = fill_until_buffered-Ends serve_song 4 playing tt playing-Inv

fill_until_buffered-Filled_example :
    Filled serve_song song Any 4 playing (fill_until_buffered serve_song 4 playing tt)
fill_until_buffered-Filled_example =
    fill_until_buffered-Filled serve_song song Any 4 playing tt serve_song-IsFaithful playing-Inv
      playing-Holds tt

read_block-Plays_example : Plays serve_song song Any 4 playing (read_block serve_song 4 playing tt)
read_block-Plays_example =
    read_block-Plays serve_song song Any 4 playing tt serve_song-IsFaithful playing-Inv
      playing-Holds tt (omega arith)

seek_worker-Sought_example : Sought song (start 5) playing (seek_worker (start 5) playing)
seek_worker-Sought_example = seek_worker-Sought song (start 5) playing playing-Inv playing-Holds

abbrev song_worker : StreamingWorker
song_worker = record {
  stream = record { handle = song_handle; position = 3 };
  state = record {
    options = small_options;
    buffer = record { chunks = []; buffered = 0 };
    playback_position = 3;
    source_position = 3;
    file_size = 7;
    source_eof = false;
  };
}

song_worker-new :
    new_worker (record { handle = song_handle; position = 3 }) small_options ≡ ok song_worker
unfolding new_worker new_state seek_state validate_stream validate_worker validate_marks clear
    seek_position seek_target ◌+ℤ◌
song_worker-new = refl

-- The state behind a chunk of two bytes.
abbrev pushed_state : WorkerState
pushed_state = record {
  options = small_options;
  buffer = record { chunks = (12 ∷ []) ∷ (13 ∷ []) ∷ (14 ∷ 15 ∷ []) ∷ []; buffered = 4 };
  playback_position = 1;
  source_position = 5;
  file_size = 7;
  source_eof = false;
}

push_source_chunk-playing : push_source_chunk (14 ∷ 15 ∷ []) playing.state ≡ ok pushed_state
unfolding push_source_chunk push
push_source_chunk-playing = refl

push_source_chunk-Holds_iff_example : (14 ∷ 15 ∷ [] ≡ slice_at song 3 2) ↔ Holds song pushed_state
push_source_chunk-Holds_iff_example =
    push_source_chunk-Holds_iff song (14 ∷ 15 ∷ []) playing.state pushed_state playing-Inv
      playing-Holds push_source_chunk-playing

-- The answers to reads of two bytes each at 3 and at 5, the first one a byte short: the byte at 4
-- is missing from the buffer.
short_read :
    contents (push_chunks ((14 ∷ []) ∷ (16 ∷ 17 ∷ []) ∷ []) false playing).1.state.buffer
    ≡ 12 ∷ 13 ∷ 14 ∷ 16 ∷ 17 ∷ []
unfolding push_chunks push_source_chunk push seek_stream seek_position seek_target
short_read = refl

pop_read-Holds_example :
    let (r, t) = pop_read 3 playing.state in
    (r ≡ non_empty (slice_at song 1 2)) × (t.playback_position ≡ 3) × Holds song t
pop_read-Holds_example = pop_read-Holds song 3 playing.state playing-Inv playing-Holds

requests-Plan_example : Plan 2 2 2 4 3 (next_buffered_read_requests 4 2 playing.state)
unfolding effective_chunk_size
requests-Plan_example = requests-Plan 4 2 playing.state playing-Inv
