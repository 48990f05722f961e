-- ===== src/Stream/Worker/Seeking.antt =====
-- A new worker, and a seek.
use cifs_client_stream.Common.{
  ℕ, ◌^◌, ◌<◌, ◌≡◌, refl, sym, ap, subst, ◌∙◌, [], Bool, true, false, ok, err, Result, arith,
  length, ==_iff, >>=-eq-ok, ◌==◌, if◌then◌else◌,
}
use cifs_client_stream.Common.Int.{pos, pos_part}
use cifs_client_stream.Errors.{Error}
use cifs_client_stream.Stream.Buffer.{Bytes}
use cifs_client_stream.Stream.Buffer.Queue.{contents}
use cifs_client_stream.Stream.Options.{WorkerOptions}
use cifs_client_stream.Stream.Seek.{SeekFrom, start, FileStream, seek_target, stream_size}
use cifs_client_stream.Stream.Seek.Laws.{seek_stream_start}
use cifs_client_stream.Stream.State.{WorkerState, seek_state, new_state}
use cifs_client_stream.Stream.State.Invariant.{
  Inv, seek_state-Inv, new_state-Inv, new_state_lem, seek_state_lem, seek_state_refused,
}
use cifs_client_stream.Stream.State.Content.{Holds, slice_at, seek_state-Holds}
use cifs_client_stream.Stream.Worker.{StreamingWorker, seek_worker, new_worker}

-- The state that a worker starts in: the fresh one, sought to the stream's position.
abbrev Starts : Bytes → ℕ → WorkerState → Type 0
Starts file position s = Inv s × Holds file s × (s.playback_position ≡ position)

start_at-Starts :
    (file : Bytes) (position : ℕ) (fresh s : WorkerState) (zero_at : Bool)
    → Starts file 0 fresh
    → (zero_at ≡ true → position ≡ 0)
    → (if zero_at then ok fresh else seek_state (start position) fresh) ≡ ok s
    → Starts file position s
unfolding seek_target
start_at-Starts file position fresh s true (v, held, at) none_skipped h = ground (arith)
start_at-Starts file position fresh s false (v, held, at) none_skipped h =
    let (target, small, same, nil) = seek_state_lem (start position) fresh s h in
    (
      seek_state-Inv (start position) fresh s v h,
      seek_state-Holds file (start position) fresh s held h,
      sym (ap pos_part target),
    )

-- A new worker stands at its stream's position; it has the invariant and holds the file's bytes
-- (none so far).
pub new_worker-Holds :
    (file : Bytes) (f : FileStream) (o : WorkerOptions) (w : StreamingWorker)
    → length file ≡ stream_size f
    → length file < 2 ^ 64
    → new_worker f o ≡ ok w
    → Inv w.state × Holds file w.state × (w.state.playback_position ≡ f.position) × (w.stream ≡ f)
unfolding new_worker
new_worker-Holds file f o w size small h =
    let (fresh, made, next) = >>=-eq-ok (new_state (stream_size f) o) _ h in
    let (s, sought, built) =
      >>=-eq-ok (if f.position == 0 then ok fresh else seek_state (start f.position) fresh) _
        next in
    let (at, nil, sized) = new_state_lem (stream_size f) o fresh made in
    let starts : Starts file 0 fresh = (
      new_state-Inv (stream_size f) o fresh (subst (λ n. n < 2 ^ 64) size small) made,
      record {
        sized = size ∙ sym sized;
        matches = nil ∙ sym (ap (λ n. slice_at file fresh.playback_position n) (ap length nil));
      },
      at,
    ) in
    let (v, held, here) =
      start_at-Starts file f.position fresh s (f.position == 0) starts ((==_iff f.position 0).0)
        sought in
    let same : record { stream = f; state = s } ≡ w = cc in
    subst
      (λ k.
        Inv k.state
        × Holds file k.state
        × (k.state.playback_position ≡ f.position)
        × (k.stream ≡ f))
      same (v, held, here, refl)

-- What a seek answers: on success its signed target, which is then the playback position and the
-- file's own position, with nothing buffered; on failure the target was no `u64`, and nothing moved.
abbrev pub Sought : Bytes → SeekFrom → StreamingWorker → Result Error ℕ × StreamingWorker → Type 0
Sought file from w (ok n, w') =
    (seek_target w.state.file_size w.state.playback_position from ≡ pos n)
    × (w'.state.playback_position ≡ n)
    × (w'.stream.position ≡ n)
    × (contents w'.state.buffer ≡ [])
    × Inv w'.state
    × Holds file w'.state
Sought file from w (err e, w') =
    (w' ≡ w)
    × ((n : ℕ)
        → ¬ ((seek_target w.state.file_size w.state.playback_position from ≡ pos n) × (n < 2 ^ 64)))

-- In a worker with the invariant whose buffer holds the file's bytes, `StreamingWorker::seek` moves
-- the playback position and the file to the signed target, with nothing buffered and the invariant
-- kept; or it fails and moves nothing, and then the target is no `u64`.
pub seek_worker-Sought :
    (file : Bytes) (from : SeekFrom) (w : StreamingWorker)
    → Inv w.state
    → Holds file w.state
    → Sought file from w (seek_worker from w)
unfolding seek_worker
seek_worker-Sought file from w v held = go (seek_state from w.state) refl
  where
    go :
        (r : Result Error WorkerState)
        → seek_state from w.state ≡ r
        → Sought file from w (seek_worker from w)
    go (err e) h = rw (h, seek_worker) (refl, λ n. seek_state_refused from w.state e n h)
    go (ok t) h =
        let (target, small, same, nil) = seek_state_lem from w.state t h in
        rw (h, seek_stream_start w.stream t.playback_position small, seek_worker)
          (
            target,
            refl,
            refl,
            nil,
            seek_state-Inv from w.state t v h,
            seek_state-Holds file from w.state t held h,
          )
