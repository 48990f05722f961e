-- ===== src/Stream/Worker/Playback.antt =====
-- What a player gets from `read_block`, before and after a seek.
use cifs_client_stream.Common.{
  ℕ, zero, suc, ◌+◌, ◌≤◌, ◌≡◌, refl, sym, ap, ◌∙◌, List, ◌⊎◌, inl, inr, Option, none, some, Bool,
  true, false, not, ◌&&◌, ok, err, Result, arith, ltb, leb→le, min, max, length, drop, take-min,
  length-take, length-drop, Bool-cases, ltb_false→le, ◌==◌,
}
use cifs_client_stream.Errors.{Error}
use cifs_client_stream.Stream.Buffer.{Bytes}
use cifs_client_stream.Stream.Buffer.Pop.{non_empty}
use cifs_client_stream.Stream.State.{Request, is_finished}
use cifs_client_stream.Stream.State.Invariant.{Inv, is_finished_lem, pop_read-Inv}
use cifs_client_stream.Stream.State.Content.{Holds, slice_at, pop_read-Holds, pop_read_options}
use cifs_client_stream.Stream.Worker.{
  StreamingWorker, Reader, Run, read_available, serve, read_block,
}
use cifs_client_stream.Stream.Worker.Faithful.{
  Asked, Trusts, chunk_of, depth_of, Filled, fill_until_buffered-Filled, buffered_len, goal_of,
}

-- Enough is buffered for a read of `m` bytes: that many, or all that the file has left.
abbrev Enough : Bytes → ℕ → StreamingWorker → Type 0
Enough file m w = (m ≤ buffered_len w) ⊎ (length file ≤ w.state.playback_position + buffered_len w)

slice_at-Enough :
    (file : Bytes) (m : ℕ) (w : StreamingWorker)
    → Enough file m w
    → slice_at file w.state.playback_position (min m (buffered_len w))
      ≡ slice_at file w.state.playback_position m
slice_at-Enough file m w h =
    take-min m (buffered_len w) (drop w.state.playback_position file) (shorter h)
  where
    shorter :
        Enough file m w
        → (m ≤ buffered_len w) ⊎ (length (drop w.state.playback_position file) ≤ buffered_len w)
    shorter (inl many) = inl many
    shorter (inr all) = inr (omega (arith, length-drop w.state.playback_position file))

module _ {W : Type 0} (read : Reader W) (file : Bytes) (Good : W → Type 0) where
  -- What a player is told: the file's block at the playback position, `None` for an empty one, with
  -- the position moved behind it; or an error of the connection, with the position unchanged.
  abbrev pub Told :
      ℕ → StreamingWorker → Option (Result Error (Option Bytes)) → StreamingWorker → Type 0
  Told m w none w' = ⊥
  Told m w (some (ok b)) w' =
      let block = slice_at file w.state.playback_position m in
      (b ≡ non_empty block)
      × (w'.state.playback_position ≡ w.state.playback_position + length block)
  Told m w (some (err e)) w' =
      (w'.state.playback_position ≡ w.state.playback_position)
      × ((rs : List Request) × (world : W) × Good world
          × Asked file (chunk_of w) (depth_of w) rs
          × ((read w.stream.handle rs world).0 ≡ err e))

  pub record Plays (m : ℕ) (w : StreamingWorker) (r : Run W (Option Bytes)) : Type 0 where
    pub told : Told m w r.0 r.1
    pub inv : Inv r.1.state
    pub holds : Holds file r.1.state
    pub handle : r.1.stream.handle ≡ w.stream.handle
    pub good : Good r.2
    pub options : r.1.state.options ≡ w.state.options

  -- Serving from a buffer that has enough.
  serve-Plays :
      (m : ℕ) (w : StreamingWorker) (world : W) (b : Bool)
      → Inv w.state
      → Holds file w.state
      → Enough file m w
      → Good world
      → Plays m w (serve read m (some (ok b), w, world))
  unfolding serve read_available
  serve-Plays m w world b v held enough fine =
      let (taken, moved, held') = pop_read-Holds file m w.state v held in
      let block = slice_at-Enough file m w enough in
      record {
        told = (
          taken ∙ ap non_empty block,
          moved
              ∙ omega (
                arith,
                ap length block,
                length-take (min m (buffered_len w)) (drop w.state.playback_position file),
                ap length held.matches,
                length-take (buffered_len w) (drop w.state.playback_position file),
              ),
        );
        inv = pop_read-Inv m w.state v;
        holds = held';
        handle = refl;
        good = fine;
        options = pop_read_options m w.state;
      }

  -- Serving behind a filling whose goal covers the block.
  serve-Filled-Plays :
      (m goal : ℕ) (w : StreamingWorker) (r : Run W Bool)
      → m ≤ goal_of goal w
      → Filled read file Good goal w r
      → Plays m w (serve read m r)
  unfolding serve
  serve-Filled-Plays m goal w (none, w', world) le f = absurd f.verdict
  serve-Filled-Plays m goal w (some (err e), w', world) le f = record {
    told = (f.pushed.playback, f.verdict);
    inv = f.pushed.inv;
    holds = f.holds;
    handle = f.pushed.handle;
    good = f.good;
    options = f.pushed.options;
  }
  serve-Filled-Plays m goal w (some (ok b), w', world) le f =
      let p = serve-Plays m w' world b f.pushed.inv f.holds (enough f.verdict) f.good in
      record {
        told = rw (← f.pushed.playback) p.told;
        inv = p.inv;
        holds = p.holds;
        handle = p.handle ∙ f.pushed.handle;
        good = f.good;
        options = p.options ∙ f.pushed.options;
      }
    where
      enough : (goal_of goal w ≤ buffered_len w') ⊎ (w'.state.source_eof ≡ true) → Enough file m w'
      enough (inl many) = inl (omega arith)
      enough (inr ended) = inr (
          omega
            (arith, leb→le _ _ (sym f.pushed.inv.eof ∙ ended), f.pushed.inv.aligned, f.holds.sized))

  buffered-Enough :
      (m : ℕ) (w : StreamingWorker)
      → Inv w.state
      → Holds file w.state
      → (ltb w.state.buffer.buffered (suc m) && not (is_finished w.state)) ≡ false
      → Enough file (suc m) w
  buffered-Enough m w v held h = elim (Bool-cases (ltb w.state.buffer.buffered (suc m))) [
    | inr many ↦ inl (omega (arith, ltb_false→le _ _ many, v.buffer.counted))
    | inl few ↦
        let ended : is_finished w.state ≡ true = ground arith in
        inr (omega (arith, is_finished_lem w.state v ended, v.aligned, held.sized))
  ]

  -- Over a connection that answers in full in a good world, `read_block` returns the file's next `max_len` bytes (for
  -- a `max_len` within the high watermark), or what is left of the file, or `None` at its end, and the
  -- playback position moves behind them; or it returns an error of the connection, and the playback
  -- position stays. The stream's invariant holds after both.
  pub read_block-Plays :
      (m : ℕ) (w : StreamingWorker) (world : W)
      → Trusts read file Good w
      → Inv w.state
      → Holds file w.state
      → Good world
      → m ≤ w.state.options.high_watermark
      → Plays m w (read_block read m w world)
  unfolding read_block
  read_block-Plays zero w world faithful v held fine le = record {
    told = (refl, omega arith);
    inv = v;
    holds = held;
    handle = refl;
    good = fine;
    options = refl;
  }
  read_block-Plays (suc m) w world faithful v held fine le =
      let some_bytes : (suc m == 0) ≡ false = ground arith in
      elim (Bool-cases (ltb w.state.buffer.buffered (suc m) && not (is_finished w.state))) [
        | inl short ↦
            rw (some_bytes, short)
              (serve-Filled-Plays (suc m) _ w _ (omega arith) (
                fill_until_buffered-Filled read file Good
                  (max (suc m) w.state.options.low_watermark) w world faithful v held fine))
        | inr long ↦
            rw (some_bytes, long)
              (serve-Plays (suc m) w world false v held (buffered-Enough m w v held long) fine)
      ]
