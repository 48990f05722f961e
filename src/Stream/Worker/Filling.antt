-- ===== src/Stream/Worker/Filling.antt =====
-- `fill_until_buffered` with any connection: it ends, and keeps the invariant.
use cifs_client_stream.Common.{
  ℕ, zero, suc, ◌-◌, ◌<◌, ◌≡◌, refl, sym, ◌∙◌, List, [], ◌∷◌, some, Bool, true, false, ok, err,
  Result, arith, leb_false→lt,
}
use cifs_client_stream.Errors.{Error}
use cifs_client_stream.Stream.Buffer.{Bytes}
use cifs_client_stream.Stream.State.{Request, next_buffered_read_requests}
use cifs_client_stream.Stream.State.Invariant.{Inv}
use cifs_client_stream.Stream.Worker.{
  StreamingWorker, Reader, Run, turn, push_chunks, fill_round, fill, fill_until_buffered,
}
use cifs_client_stream.Stream.Worker.Chunks.{
  Pushed, Pushed-refl, Pushed-trans, push_chunks-Pushed, push_chunks_progress,
}

-- A run that ended, and what it kept of the worker.
pub record Ends {A : Type 0} {W : Type 0} (w : StreamingWorker) (r : Run W A) : Type 0 where
  pub result : Result Error A
  pub returned : r.0 ≡ some result
  pub pushed : Pushed w r.1

turn_cases {ℓ κ} :
    {A : Type ℓ} (P : A → Type κ) (b : Bool) (rs : List Request) (stop more : A)
    → (b ≡ true → P stop)
    → (rs ≡ [] → P stop)
    → (b ≡ false → P more)
    → P (turn b rs stop more)
turn_cases P true rs stop more at_end nothing on = at_end refl
turn_cases P false [] stop more at_end nothing on = nothing refl
turn_cases P false (r ∷ rs) stop more at_end nothing on = on refl

module _ {W : Type 0} (read : Reader W) where
  -- The ways out of a round.
  pub fill_round_cases {ℓ} :
      (P : Run W Bool → Type ℓ) (next : Bool → StreamingWorker → W → Run W Bool) (filled : Bool)
      (w : StreamingWorker) (r : Result Error (List Bytes) × W)
      → ((e : Error) → r.0 ≡ err e → P (some (err e), w, r.1))
      → (r.0 ≡ ok [] → P (some (ok filled), w, r.1))
      → ((c : Bytes) (cs : List Bytes) (e : Error)
          → r.0 ≡ ok (c ∷ cs)
          → (push_chunks (c ∷ cs) filled w).0 ≡ err e
          → P (some (err e), (push_chunks (c ∷ cs) filled w).1, r.1))
      → ((c : Bytes) (cs : List Bytes) (b : Bool)
          → r.0 ≡ ok (c ∷ cs)
          → (push_chunks (c ∷ cs) filled w).0 ≡ ok b
          → P (next b (push_chunks (c ∷ cs) filled w).1 r.1))
      → P (fill_round read next filled w r)
  unfolding fill_round
  fill_round_cases P next filled w (err e, world) failed dry refused more = failed e refl
  fill_round_cases P next filled w (ok [], world) failed dry refused more = dry refl
  fill_round_cases P next filled w (ok (c ∷ cs), world) failed dry refused more =
      go (push_chunks (c ∷ cs) filled w).0 refl
    where
      go :
          (r : Result Error Bool)
          → (push_chunks (c ∷ cs) filled w).0 ≡ r
          → P (fill_round read next filled w (ok (c ∷ cs), world))
      go (err e) h = rw (h, fill_round) (refused c cs e refl h)
      go (ok b) h = rw (h, fill_round) (more c cs b refl h)

  -- The ways through one turn of the loop.
  pub fill_cases {ℓ} :
      (P : Run W Bool → Type ℓ) (fuel goal : ℕ) (filled : Bool) (w : StreamingWorker) (world : W)
      → let rs = next_buffered_read_requests goal w.state.options.pipeline_depth w.state in
        (w.state.source_eof ≡ true → P (some (ok filled), w, world))
        → (rs ≡ [] → P (some (ok filled), w, world))
        → (w.state.source_eof ≡ false
            → P (fill_round read (fill read fuel goal) filled w (read w.stream.handle rs world)))
        → P (fill read (suc fuel) goal filled w world)
  unfolding fill
  fill_cases P fuel goal filled w world at_end nothing more =
      turn_cases P w.state.source_eof
        (next_buffered_read_requests goal w.state.options.pipeline_depth w.state) _ _ at_end nothing
        more

  -- Whatever the connection answers, the loop ends before its fuel does.
  fill-Ends :
      (fuel goal : ℕ) (filled : Bool) (w : StreamingWorker) (world : W)
      → Inv w.state
      → w.state.file_size - w.state.source_position < fuel
      → Ends w (fill read fuel goal filled w world)
  fill-Ends zero goal filled w world v enough = absurd (omega arith)
  fill-Ends (suc fuel) goal filled w world v enough =
      fill_cases (Ends w) fuel goal filled w world (λ _. stay world) (λ _. stay world)
        (λ e.
          fill_round_cases (Ends w) (fill read fuel goal) filled w _
            (λ x _. record { result = err x; returned = refl; pushed = Pushed-refl w v })
            (λ _. stay _)
            (λ c cs x _ _. record { result = err x; returned = refl; pushed = moved c cs })
            (λ c cs b _ h.
              let room : w.state.source_position < w.state.file_size =
                leb_false→lt _ _ (sym v.eof ∙ e) in
              let further = push_chunks_progress c cs filled w b v room h in
              let p = moved c cs in
              let rest = fill-Ends fuel goal b _ _ p.inv (omega (arith, p.size)) in
              record {
                result = rest.result;
                returned = rest.returned;
                pushed = Pushed-trans w _ _ p rest.pushed;
              }))
    where
      stay : (world' : W) → Ends w (some (ok filled), w, world')
      stay world' = record { result = ok filled; returned = refl; pushed = Pushed-refl w v }

      moved : (c : Bytes) (cs : List Bytes) → Pushed w (push_chunks (c ∷ cs) filled w).1
      moved c cs = push_chunks-Pushed (c ∷ cs) filled w v

  -- `fill_until_buffered` returns, with a result or an error, whatever the connection answers; the
  -- invariant holds after it, the source position has not moved back, and the playback position,
  -- the file's size, the options and the handle are as before.
  pub fill_until_buffered-Ends :
      (goal : ℕ) (w : StreamingWorker) (world : W)
      → Inv w.state
      → Ends w (fill_until_buffered read goal w world)
  unfolding fill_until_buffered
  fill_until_buffered-Ends goal w world v =
      fill-Ends (suc w.state.file_size) goal false w world v (omega arith)
