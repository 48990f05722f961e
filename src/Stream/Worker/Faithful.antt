-- ===== src/Stream/Worker/Faithful.antt =====
-- `fill_until_buffered` over a connection that answers each request with the file's bytes in full.
use cifs_client_stream.Common.{
  ℕ, zero, suc, ◌-◌, ◌≤◌, ◌<◌, ◌≡◌, sym, ap, subst, ◌∙◌, List, [], ◌∷◌, ◌⊎◌, inl, inr, Option, none,
  some, Bool, true, false, ok, err, Result, arith, leb_false→lt, min, max, length, All, ◌+◌,
}
use cifs_client_stream.Errors.{Error}
use cifs_client_stream.Smb.Handle.{Handle}
use cifs_client_stream.Stream.Buffer.{Bytes}
use cifs_client_stream.Stream.Buffer.Queue.{contents}
use cifs_client_stream.Stream.Options.{effective_chunk_size}
use cifs_client_stream.Stream.State.{Request, next_buffered_read_requests}
use cifs_client_stream.Stream.State.Invariant.{Inv}
use cifs_client_stream.Stream.State.Content.{Holds}
use cifs_client_stream.Stream.State.Requests.{Plan, requests-Plan, requests_within, total}
use cifs_client_stream.Stream.Worker.{
  StreamingWorker, Reader, Run, push_chunks, fill, fill_until_buffered,
}
use cifs_client_stream.Stream.Worker.Chunks.{
  Pushed, Pushed-refl, Pushed-trans, push_chunks-Pushed, push_chunks_progress,
}
use cifs_client_stream.Stream.Worker.Serving.{Serves, Serves-nil, Served, push_chunks-Served}
use cifs_client_stream.Stream.Worker.Filling.{fill_round_cases, fill_cases}

-- Requests as a worker makes them: within the file, of limited length and number.
abbrev pub Asked : Bytes → ℕ → ℕ → List Request → Type 0
Asked file chunk depth rs =
    All (λ r. (r.offset + r.len ≤ length file) × (r.len ≤ chunk)) rs × (length rs ≤ depth)

-- The assumption on the connection and the server, in the worlds that are `Good`: what it returns for
-- such requests is the file's bytes, each chunk at the length of its request, and it leaves a good world.
pub record IsFaithful {W : Type 0} (read : Reader W) (file : Bytes) (h : Handle) (chunk depth : ℕ)
    (Good : W → Type 0) : Type 0 where
  pub serves :
      (rs : List Request) (world : W) (cs : List Bytes)
      → Good world
      → Asked file chunk depth rs
      → (read h rs world).0 ≡ ok cs
      → Serves file rs cs
  pub keeps :
      (rs : List Request) (world : W)
      → Good world
      → Asked file chunk depth rs
      → Good (read h rs world).1

abbrev pub chunk_of : StreamingWorker → ℕ
chunk_of w = effective_chunk_size w.state.options.stream_options

abbrev pub depth_of : StreamingWorker → ℕ
depth_of w = w.state.options.pipeline_depth

-- The connection as a worker meets it.
abbrev pub Trusts : {W : Type 0} → Reader W → Bytes → (W → Type 0) → StreamingWorker → Type 0
Trusts read file Good w = IsFaithful read file w.stream.handle (chunk_of w) (depth_of w) Good

abbrev pub buffered_len : StreamingWorker → ℕ
buffered_len w = length (contents w.state.buffer)

-- The number of bytes that a filling may bring the buffer to.
abbrev pub goal_of : ℕ → StreamingWorker → ℕ
goal_of goal w = min goal w.state.options.high_watermark

All-both :
    (chunk size : ℕ) (rs : List Request)
    → All (λ r. r.offset + r.len ≤ size) rs
    → All (λ r. (0 < r.len) × (r.len ≤ chunk)) rs
    → All (λ r. (r.offset + r.len ≤ size) × (r.len ≤ chunk)) rs
All-both chunk size [] within sized = tt
All-both chunk size (r ∷ rs) (inside, within) ((one, le), sized) =
    ((inside, le), All-both chunk size rs within sized)

-- With no request to make, the goal or the end of the file is reached.
no_requests :
    (goal : ℕ) (w : StreamingWorker)
    → Inv w.state
    → next_buffered_read_requests goal w.state.options.pipeline_depth w.state ≡ []
    → (goal_of goal w ≤ buffered_len w) ⊎ (w.state.source_eof ≡ true)
no_requests goal w v e = go p.filling
  where
    p :
        Plan w.state.options.pipeline_depth
          (effective_chunk_size w.state.options.stream_options)
          (goal_of goal w - buffered_len w)
          (w.state.file_size - w.state.source_position)
          w.state.source_position
          []
    p = subst (Plan _ _ _ _ _) e (requests-Plan goal w.state.options.pipeline_depth w.state v)

    go :
        (0 ≡ w.state.options.pipeline_depth)
          ⊎ (0
              ≡ min (goal_of goal w - buffered_len w) (w.state.file_size - w.state.source_position))
        → (goal_of goal w ≤ buffered_len w) ⊎ (w.state.source_eof ≡ true)
    go (inl none_allowed) = absurd (omega (arith, v.options.depth_pos))
    go (inr full) = ground (arith, v.eof)

module _ {W : Type 0} (read : Reader W) (file : Bytes) (Good : W → Type 0) where
  -- What the answer of a filling says: a success, that the goal is buffered or the end of the file
  -- reached; an error, that the connection gave it. `none`, for the fuel, is no answer.
  abbrev pub Verdict : ℕ → StreamingWorker → Option (Result Error Bool) → StreamingWorker → Type 0
  Verdict goal w none w' = ⊥
  Verdict goal w (some (ok b)) w' =
      (goal_of goal w ≤ buffered_len w') ⊎ (w'.state.source_eof ≡ true)
  Verdict goal w (some (err e)) w' =
      (rs : List Request) × (world : W) × Good world
      × Asked file (chunk_of w) (depth_of w) rs
      × ((read w.stream.handle rs world).0 ≡ err e)

  -- What a filling has done when it returns.
  pub record Filled (goal : ℕ) (w : StreamingWorker) (r : Run W Bool) : Type 0 where
    pub pushed : Pushed w r.1
    pub holds : Holds file r.1.state
    pub verdict : Verdict goal w r.0 r.1
    pub bounded : buffered_len r.1 ≤ max (buffered_len w) (goal_of goal w)
    pub good : Good r.2

  Filled-here :
      (goal : ℕ) (filled : Bool) (w : StreamingWorker) (world : W)
      → Inv w.state
      → Holds file w.state
      → Good world
      → (goal_of goal w ≤ buffered_len w) ⊎ (w.state.source_eof ≡ true)
      → Filled goal w (some (ok filled), w, world)
  Filled-here goal filled w world v held fine reached = record {
    good = fine;
    pushed = Pushed-refl w v;
    holds = held;
    verdict = reached;
    bounded = omega arith;
  }

  planned-Asked :
      (goal : ℕ) (w : StreamingWorker)
      → Inv w.state
      → Holds file w.state
      → Asked file
          (chunk_of w)
          (depth_of w)
          (next_buffered_read_requests goal w.state.options.pipeline_depth w.state)
  planned-Asked goal w v held =
      let p = requests-Plan goal w.state.options.pipeline_depth w.state v in
      (
        All-both (chunk_of w) (length file) _
            (requests_within (chunk_of w) (length file) w.state.source_position _ p.contiguous
              p.sized (rw held.sized p.within_file))
            p.sized,
        p.few,
      )

  -- The chunks of a round, as many as were asked for.
  round-Served :
      (goal : ℕ) (filled : Bool) (w : StreamingWorker) (world : W) (cs : List Bytes)
      → Trusts read file Good w
      → Inv w.state
      → Holds file w.state
      → Good world
      → let rs = next_buffered_read_requests goal w.state.options.pipeline_depth w.state in
        (read w.stream.handle rs world).0 ≡ ok cs
        → Served file (total rs) w (push_chunks cs filled w)
          × (buffered_len (push_chunks cs filled w).1 ≤ max (buffered_len w) (goal_of goal w))
  round-Served goal filled w world cs faithful v held fine h =
      let rs = next_buffered_read_requests goal w.state.options.pipeline_depth w.state in
      let p = requests-Plan goal w.state.options.pipeline_depth w.state v in
      let served =
        push_chunks-Served (effective_chunk_size w.state.options.stream_options) file rs cs filled w
          v held p.contiguous p.sized p.within_file
          (faithful.serves rs world cs fine (planned-Asked goal w v held) h) in
      let pushed = push_chunks-Pushed cs filled w v in
      (
        served,
        omega (arith, p.within_free, served.source, pushed.inv.aligned, pushed.playback, v.aligned),
      )

  Verdict-trans :
      (goal : ℕ) (w w' w'' : StreamingWorker) (o : Option (Result Error Bool))
      → Pushed w w'
      → Verdict goal w' o w''
      → Verdict goal w o w''
  Verdict-trans goal w w' w'' none p d = d
  Verdict-trans goal w w' w'' (some (ok b)) p d =
      subst (λ o. (min goal o.high_watermark ≤ buffered_len w'') ⊎ (w''.state.source_eof ≡ true))
        p.options d
  Verdict-trans goal w w' w'' (some (err e)) p d = rw (← p.handle, ← p.options) d

  Filled-trans :
      (goal : ℕ) (w w' : StreamingWorker) (r : Run W Bool)
      → Pushed w w'
      → buffered_len w' ≤ max (buffered_len w) (goal_of goal w)
      → Filled goal w' r
      → Filled goal w r
  Filled-trans goal w w' r p le f = record {
    pushed = Pushed-trans w w' r.1 p f.pushed;
    holds = f.holds;
    good = f.good;
    verdict = Verdict-trans goal w w' r.1 r.0 p f.verdict;
    bounded = omega (arith, f.bounded, le, ap (λ o. o.high_watermark) p.options);
  }

  Trusts-Pushed :
      (w w' : StreamingWorker) → Pushed w w' → Trusts read file Good w → Trusts read file Good w'
  Trusts-Pushed w w' p faithful =
      subst
        (λ o.
          IsFaithful read file w'.stream.handle (effective_chunk_size o.stream_options)
            o.pipeline_depth Good)
        (sym p.options)
        (subst (λ h. IsFaithful read file h (chunk_of w) (depth_of w) Good) (sym p.handle) faithful)

  fill-Filled :
      (fuel goal : ℕ) (filled : Bool) (w : StreamingWorker) (world : W)
      → Trusts read file Good w
      → Inv w.state
      → Holds file w.state
      → Good world
      → w.state.file_size - w.state.source_position < fuel
      → Filled goal w (fill read fuel goal filled w world)
  fill-Filled zero goal filled w world faithful v held fine enough = absurd (omega arith)
  fill-Filled (suc fuel) goal filled w world faithful v held fine enough =
      fill_cases read (Filled goal w) fuel goal filled w world
        (λ e. Filled-here goal filled w world v held fine (inr e))
        (λ e. Filled-here goal filled w world v held fine (no_requests goal w v e))
        (λ e.
          fill_round_cases read (Filled goal w) (fill read fuel goal) filled w _
            (λ x h. record {
              pushed = Pushed-refl w v;
              holds = held;
              good = kept;
              verdict = (
                next_buffered_read_requests goal w.state.options.pipeline_depth w.state,
                world,
                fine,
                planned-Asked goal w v held,
                h,
              );
              bounded = omega arith;
            })
            (λ h. Filled-here goal filled w _ v held kept (
              no_requests goal w v (
                Serves-nil file _
                  (faithful.serves _ world [] fine (planned-Asked goal w v held) h))))
            (λ c cs x h refused. absurd (
              (round-Served goal filled w world (c ∷ cs) faithful v held fine h).0.accepted x
                refused))
            (λ c cs b h taken.
              let (served, le) = round-Served goal filled w world (c ∷ cs) faithful v held fine h in
              let p = push_chunks-Pushed (c ∷ cs) filled w v in
              let room : w.state.source_position < w.state.file_size =
                leb_false→lt _ _ (sym v.eof ∙ e) in
              let further = push_chunks_progress c cs filled w b v room taken in
              Filled-trans goal w _ _ p le (
                fill-Filled fuel goal b _ _ (Trusts-Pushed w _ p faithful) p.inv served.holds kept
                  (omega (arith, p.size, further)))))
    where
      kept :
          Good
            (read w.stream.handle
              (next_buffered_read_requests goal w.state.options.pipeline_depth w.state)
              world).1
      kept = faithful.keeps _ world fine (planned-Asked goal w v held)

  -- Over a connection that answers in full in a good world, `fill_until_buffered` returns; the buffer then holds the
  -- file's bytes from the unchanged playback position on. A success means that as many bytes are
  -- buffered as the goal and the high watermark allow, or that the file's end is reached; an error is
  -- one that the connection returned; and no call buffers more than the goal and the high watermark
  -- allow, unless it was buffered before.
  pub fill_until_buffered-Filled :
      (goal : ℕ) (w : StreamingWorker) (world : W)
      → Trusts read file Good w
      → Inv w.state
      → Holds file w.state
      → Good world
      → Filled goal w (fill_until_buffered read goal w world)
  unfolding fill_until_buffered
  fill_until_buffered-Filled goal w world faithful v held fine =
      fill-Filled (suc w.state.file_size) goal false w world faithful v held fine (omega arith)
