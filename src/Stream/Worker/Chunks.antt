-- ===== src/Stream/Worker/Chunks.antt =====
-- The loop that takes the chunks of one pipelined read.
use cifs_client_stream.Common.{
  ◌≤◌, ◌<◌, ◌≡◌, refl, List, [], ◌∷◌, Bool, true, false, ok, err, arith, Result,
}
use cifs_client_stream.Stream.Buffer.{Bytes}
use cifs_client_stream.Stream.Seek.Laws.{seek_stream_start}
use cifs_client_stream.Stream.State.{WorkerState, push_source_chunk}
use cifs_client_stream.Stream.State.Invariant.{Inv, push_source_chunk-Inv, push_source_chunk_moves}
use cifs_client_stream.Stream.Worker.{StreamingWorker, push_chunks}
use cifs_client_stream.Errors.{Error}

-- What a loop over chunks keeps, moves forward and does not touch.
pub record Pushed (w w' : StreamingWorker) : Type 0 where
  pub inv : Inv w'.state
  pub forward : w.state.source_position ≤ w'.state.source_position
  pub playback : w'.state.playback_position ≡ w.state.playback_position
  pub size : w'.state.file_size ≡ w.state.file_size
  pub options : w'.state.options ≡ w.state.options
  pub handle : w'.stream.handle ≡ w.stream.handle

pub Pushed-refl : (w : StreamingWorker) → Inv w.state → Pushed w w
Pushed-refl w v = ground arith

-- The worker behind a chunk that led to the state `s`.
abbrev pub advance : StreamingWorker → WorkerState → StreamingWorker
advance w s = record { stream = record w.stream { position = s.source_position }; state = s }

pub advance-Pushed :
    (c : Bytes) (w : StreamingWorker) (s : WorkerState)
    → Inv w.state
    → push_source_chunk c w.state ≡ ok s
    → Pushed w (advance w s)
advance-Pushed c w s v h = ground (arith, push_source_chunk-Inv c w.state s v h)

-- The three ways out of one turn of the loop.
pub push_chunks_cases {ℓ} :
    (P : Result Error Bool × StreamingWorker → Type ℓ) (c : Bytes) (cs : List Bytes) (filled : Bool)
    (w : StreamingWorker)
    → Inv w.state
    → ((e : Error) → push_source_chunk c w.state ≡ err e → P (err e, w))
    → ((s : WorkerState)
        → push_source_chunk c w.state ≡ ok s
        → s.source_eof ≡ true
        → P (ok true, advance w s))
    → ((s : WorkerState)
        → push_source_chunk c w.state ≡ ok s
        → s.source_eof ≡ false
        → P (push_chunks cs true (advance w s)))
    → P (push_chunks (c ∷ cs) filled w)
unfolding push_chunks
push_chunks_cases P c cs filled w v refused done more = go (push_source_chunk c w.state) refl
  where
    last :
        (s : WorkerState) (b : Bool)
        → push_source_chunk c w.state ≡ ok s
        → s.source_eof ≡ b
        → P (push_chunks (c ∷ cs) filled w)
    last s true h e =
        rw
          (
            h,
            seek_stream_start w.stream s.source_position
                (push_source_chunk-Inv c w.state s v h).0.source_small,
            e,
            push_chunks,
          )
          (done s h e)
    last s false h e =
        rw
          (
            h,
            seek_stream_start w.stream s.source_position
                (push_source_chunk-Inv c w.state s v h).0.source_small,
            e,
            push_chunks,
          )
          (more s h e)

    go :
        (r : Result Error WorkerState)
        → push_source_chunk c w.state ≡ r
        → P (push_chunks (c ∷ cs) filled w)
    go (err e) h = rw (h, push_chunks) (refused e h)
    go (ok s) h = last s s.source_eof h refl

pub Pushed-trans : (w w' w'' : StreamingWorker) → Pushed w w' → Pushed w' w'' → Pushed w w''
Pushed-trans w w' w'' p q = ground arith

-- The loop keeps the invariant, error or not, and never moves the source position back.
pub push_chunks-Pushed :
    (cs : List Bytes) (filled : Bool) (w : StreamingWorker)
    → Inv w.state
    → Pushed w (push_chunks cs filled w).1
push_chunks-Pushed [] filled w v = unfold push_chunks in Pushed-refl w v
push_chunks-Pushed (c ∷ cs) filled w v =
    push_chunks_cases (λ r. Pushed w r.1) c cs filled w v (λ e _. Pushed-refl w v)
      (λ s h _. advance-Pushed c w s v h)
      (λ s h _.
        let p = advance-Pushed c w s v h in
        Pushed-trans w (advance w s) _ p (push_chunks-Pushed cs true (advance w s) p.inv))

-- A loop over chunks that all are accepted moves the source position on.
pub push_chunks_progress :
    (c : Bytes) (cs : List Bytes) (filled : Bool) (w : StreamingWorker) (b : Bool)
    → Inv w.state
    → w.state.source_position < w.state.file_size
    → (push_chunks (c ∷ cs) filled w).0 ≡ ok b
    → w.state.source_position < (push_chunks (c ∷ cs) filled w).1.state.source_position
push_chunks_progress c cs filled w b v room =
    push_chunks_cases (λ r. r.0 ≡ ok b → w.state.source_position < r.1.state.source_position) c cs
      filled w v (λ e h k. cc) (λ s h _ _. push_source_chunk_moves c w.state s v room h)
      (λ s h _ _. omega (
        arith,
        push_source_chunk_moves c w.state s v room h,
        (push_chunks-Pushed cs true (advance w s) (advance-Pushed c w s v h).inv).forward,
      ))
