-- ===== src/Stream/Worker/Serving.antt =====
-- The loop over the chunks of a read whose chunks are what the requests asked for.
use cifs_client_stream.Common.{
  ℕ, ◌+◌, ◌-◌, ◌≤◌, ◌<◌, ◌≡◌, refl, sym, ap₂, leb→le, subst, ◌∙◌, List, [], ◌∷◌, Bool, true, ok,
  err, Result, ◌≢◌, arith, length, All,
}
use cifs_client_stream.Errors.{Error}
use cifs_client_stream.Stream.Buffer.{Bytes}
use cifs_client_stream.Stream.State.{Request, WorkerState, push_source_chunk}
use cifs_client_stream.Stream.State.Invariant.{Inv, push_source_chunk-Inv, push_source_chunk_fits}
use cifs_client_stream.Stream.State.Content.{Holds, slice_at, push_source_chunk-Holds}
use cifs_client_stream.Stream.State.Requests.{Contiguous, total}
use cifs_client_stream.Stream.Worker.{StreamingWorker, push_chunks}
use cifs_client_stream.Stream.Worker.Chunks.{advance, push_chunks_cases}

-- Each chunk is the file's slice that its request names, at its full length.
abbrev pub Serves : Bytes → List Request → List Bytes → Type 0
Serves file [] [] = Unit {0}
Serves file [] (c ∷ cs) = ⊥
Serves file (r ∷ rs) [] = ⊥
Serves file (r ∷ rs) (c ∷ cs) =
    (c ≡ slice_at file r.offset r.len) × (length c ≡ r.len) × Serves file rs cs

pub Serves-nil : (file : Bytes) (rs : List Request) → Serves file rs [] → rs ≡ []
Serves-nil file [] h = refl
Serves-nil file (r ∷ rs) h = absurd h

-- What the loop does with such chunks: none is refused, the source position moves over all of
-- them, and the buffer holds the file's bytes.
pub record Served (file : Bytes) (n : ℕ) (w : StreamingWorker)
    (r : Result Error Bool × StreamingWorker) : Type 0 where
  pub accepted : (e : Error) → r.0 ≢ err e
  pub source : r.1.state.source_position ≡ w.state.source_position + n
  pub holds : Holds file r.1.state

pub push_chunks-Served :
    (chunk : ℕ) (file : Bytes) (rs : List Request) (cs : List Bytes) (filled : Bool)
    (w : StreamingWorker)
    → Inv w.state
    → Holds file w.state
    → Contiguous w.state.source_position rs
    → All (λ r. (0 < r.len) × (r.len ≤ chunk)) rs
    → total rs ≤ w.state.file_size - w.state.source_position
    → Serves file rs cs
    → Served file (total rs) w (push_chunks cs filled w)
push_chunks-Served chunk file [] [] filled w v held next pos fits serves =
    unfold push_chunks in record { accepted = λ e. cc; source = omega arith; holds = held }
push_chunks-Served chunk file [] (c ∷ cs) filled w v held next pos fits serves = absurd serves
push_chunks-Served chunk file (r ∷ rs) [] filled w v held next pos fits serves = absurd serves
push_chunks-Served chunk file (r ∷ rs) (c ∷ cs) filled w v held next pos fits serves =
    push_chunks_cases (Served file (total (r ∷ rs)) w) c cs filled w v
      (λ e h. absurd (push_source_chunk_fits c w.state v (omega arith) (omega arith) e h))
      (λ s h e. record {
        accepted = λ x p. cc;
        source = omega (
          arith,
          moved s h,
          (push_source_chunk-Inv c w.state s v h).4,
          leb→le _ _ (sym (push_source_chunk-Inv c w.state s v h).0.eof ∙ e),
        );
        holds = kept s h;
      })
      (λ s h _.
        let p = push_source_chunk-Inv c w.state s v h in
        let rest =
          push_chunks-Served chunk file rs cs true (advance w s) p.0 (kept s h)
            (subst (λ q. Contiguous q rs) (sym (moved s h)) next.1) pos.1
            (omega (arith, p.4, moved s h)) serves.2 in
        record {
          accepted = rest.accepted;
          source = omega (arith, rest.source, moved s h);
          holds = rest.holds;
        })
  where
    moved :
        (s : WorkerState)
        → push_source_chunk c w.state ≡ ok s
        → s.source_position ≡ w.state.source_position + r.len
    moved s h = omega (arith, (push_source_chunk-Inv c w.state s v h).1, serves.1)

    kept : (s : WorkerState) → push_source_chunk c w.state ≡ ok s → Holds file s
    kept s h =
        push_source_chunk-Holds file c w.state s v held
          (serves.0 ∙ ap₂ (λ p n. slice_at file p n) next.0 (sym serves.1)) h
