-- ===== src/Client/Streaming.antt =====
-- Playing a file over the client: the worker of src/lib.rs on `read_at_pipelined` of `Cifs`.
use cifs_client_stream.Common.{
  ℕ, zero, suc, ◌+◌, ◌-◌, ◌^◌, ◌≤◌, ◌<◌, ◌≡◌, ◌⊎◌, inl, inr, refl, sym, ap, subst, ◌∙◌, List, [],
  ◌∷◌, ◌++◌, map, Option, none, some, Result, ok, err, All, arith, length, take, drop, min,
  length-append, length-take, length-drop, drop_all, done, fails, panics, append-nil, ap₂, Bool,
  true, false, leb, leb→le, leb_false→lt,
}
use cifs_client_stream.Common
use cifs_client_stream.Errors.{Error, internal_error}
use cifs_client_stream.Smb.Handle.{Handle}
use cifs_client_stream.Smb.Wire.{Wire}
use cifs_client_stream.Smb.Wire.Plain.{IsWire}
use cifs_client_stream.Stream.Buffer.{Bytes}
use cifs_client_stream.Stream.Buffer.Pop.{non_empty}
use cifs_client_stream.Stream.Options.{effective_chunk_size}
use cifs_client_stream.Stream.State.{Request}
use cifs_client_stream.Stream.State.Invariant.{Inv}
use cifs_client_stream.Stream.State.Content.{Holds, slice_at, slice_at-append}
use cifs_client_stream.Stream.Worker.{StreamingWorker, Reader, Run, read_block}
use cifs_client_stream.Stream.Worker.Serving.{Serves}
use cifs_client_stream.Stream.Worker.Faithful.{IsFaithful, Asked, chunk_of, depth_of}
use cifs_client_stream.Stream.Worker.Playback.{Plays, read_block-Plays}
use cifs_client_stream.Client.{PendingReply}
use cifs_client_stream.Client.Commands.{Cifs, Network, read_at_pipelined}
use cifs_client_stream.Client.Commands.Laws.{slice_of, pool_of}
use cifs_client_stream.Client.Commands.Laws
use cifs_client_stream.Client.Commands.Pipelined.{Within, Answered, read_at_pipelined_lem}

-- A call of the client as the worker's reader, which has no third outcome: a panic and an endless run
-- stand for errors there.
abbrev pub as_result :
    {N A : Type 0} → Option (Common.Run Error A) × Cifs N → Result Error A × Cifs N
as_result (none, c) = (err (internal_error "out of fuel"), c)
as_result (some (done a), c) = (ok a, c)
as_result (some (fails e), c) = (err e, c)
as_result (some panics, c) = (err (internal_error "panic"), c)

-- What `cifs.read_at_pipelined` is to the worker.
unfoldable pub reader_of : {N : Type 0} → Wire → Network N → ℕ → Reader (Cifs N)
reader_of wire network fuel h rs c = as_result (read_at_pipelined wire network fuel h rs c)

as_result-done :
    {N A : Type 0} (o : Option (Common.Run Error A) × Cifs N) (a : A)
    → o.0 ≡ some (done a)
    → as_result o ≡ (ok a, o.1)
as_result-done (none, c) a e = absurd (cc)
as_result-done (some (done b), c) a e = let same : b ≡ a = cc in ap (λ v. (ok v, c)) same
as_result-done (some (fails x), c) a e = absurd (cc)
as_result-done (some panics, c) a e = absurd (cc)

pub empty_of_length : {A : Type 0} (xs : List A) → length xs ≡ 0 → xs ≡ []
empty_of_length [] e = refl
empty_of_length (x ∷ xs) e = absurd (omega (arith, e))

All-Within :
    (file : Bytes) (chunk : ℕ) (rs : List Request)
    → chunk < 65536
    → All (λ r. (r.offset + r.len ≤ length file) × (r.len ≤ chunk)) rs
    → All (Within file) rs
All-Within file chunk [] small h = tt
All-Within file chunk (r ∷ rs) small ((inside, le), h) =
    ((inside, omega (arith, le, small)), All-Within file chunk rs small h)

slices-Serves :
    (file : Bytes) (rs : List Request)
    → All (Within file) rs
    → Serves file rs (map (slice_of file) rs)
slices-Serves file [] h = tt
slices-Serves file (r ∷ rs) ((inside, small), h) = (
  refl,
  omega (arith, inside, length-take r.len (drop r.offset file), length-drop r.offset file),
  slices-Serves file rs h,
)

-- The bytes of one answer before those of the later ones; an error or no fuel ends it.
abbrev pub joined : Option (Result Error (Option Bytes)) → Option Bytes → Option Bytes
joined (some (ok (some b))) (some rest) = some (b ++ rest)
joined (some (ok none)) (some rest) = some rest
joined (some (ok b)) none = none
joined (some (err e)) later = none
joined none later = none

joined_lem : (b rest : Bytes) → joined (some (ok (non_empty b))) (some rest) ≡ some (b ++ rest)
joined_lem [] rest = refl
joined_lem (x ∷ xs) rest = refl

abbrev pub total_of : List ℕ → ℕ
total_of [] = 0
total_of (m ∷ ms) = m + total_of ms

module _ {N : Type 0} (wire : Wire) (w : IsWire wire) (network : Network N) (fuel : ℕ)
    (coming : N → List PendingReply) (file : Bytes) (h : Handle)
    (server : Laws.Serves wire network coming file h) where
  -- No reply is on the way, and the next id is within its 16 bits.
  abbrev pub IsIdle : Cifs N → Type 0
  IsIdle c = (pool_of wire w network fuel coming file h server c ≡ []) × (c.mid < 65536)

  reads_lem :
      (chunk depth : ℕ) (rs : List Request) (c : Cifs N)
      → chunk < 65536
      → depth ≤ fuel
      → depth ≤ 65536
      → IsIdle c
      → Asked file chunk depth rs
      → Answered wire w network fuel coming file h server
          (map (slice_of file) rs)
          c
          (read_at_pipelined wire network fuel h rs c)
  reads_lem chunk depth rs c small enough few (empty, id) (within, count) =
      let none_coming : length (coming c.inbox.netbios) ≡ 0 =
        omega (arith, ap length empty, length-append c.inbox.pending (coming c.inbox.netbios)) in
      read_at_pipelined_lem wire w network fuel coming file h server rs c
        (All-Within file chunk rs small within) (rw empty (tt, tt)) id (omega (arith, count, few))
        (omega (arith, none_coming, count, enough))

  reader_of-IsFaithful :
      (chunk depth : ℕ)
      → chunk < 65536
      → depth ≤ fuel
      → depth ≤ 65536
      → IsFaithful (reader_of wire network fuel) file h chunk depth IsIdle
  unfolding reader_of
  reader_of-IsFaithful chunk depth small enough few = record {
    serves = λ rs c cs idle asked got.
        let a = reads_lem chunk depth rs c small enough few idle asked in
        let o = read_at_pipelined wire network fuel h rs c in
        let same : map (slice_of file) rs ≡ cs =
          cc (ap (λ x. x.0) (as_result-done o (map (slice_of file) rs) a.answered)) in
        subst (Serves file rs) same
          (slices-Serves file rs (All-Within file chunk rs small asked.0));
    keeps = λ rs c idle asked.
        let a = reads_lem chunk depth rs c small enough few idle asked in
        let o = read_at_pipelined wire network fuel h rs c in
        subst IsIdle (sym (ap (λ x. x.1) (as_result-done o (map (slice_of file) rs) a.answered)))
          (empty_of_length _ (a.settled ∙ ap length idle.0), a.next_id);
  }

  -- The block at the playback position, and everything that the next call relies on.
  pub record Streamed (m : ℕ) (u : StreamingWorker) (r : Run (Cifs N) (Option Bytes)) : Type 0 where
    pub block : r.0 ≡ some (ok (non_empty (slice_at file u.state.playback_position m)))
    pub moved :
        r.1.state.playback_position
        ≡ u.state.playback_position + length (slice_at file u.state.playback_position m)
    pub inv : Inv r.1.state
    pub holds : Holds file r.1.state
    pub same_handle : r.1.stream.handle ≡ u.stream.handle
    pub options : r.1.state.options ≡ u.state.options
    pub idle : IsIdle r.2

  Plays-Streamed :
      (m : ℕ) (u : StreamingWorker) (r : Run (Cifs N) (Option Bytes))
      → u.stream.handle ≡ h
      → Inv u.state
      → 16 ≤ fuel
      → Plays (reader_of wire network fuel) file IsIdle m u r
      → Streamed m u r
  unfolding reader_of effective_chunk_size
  Plays-Streamed m u (none, u', c) opened v enough p = absurd p.told
  Plays-Streamed m u (some (ok b), u', c) opened v enough p = record {
    block = ap (λ x. some (ok x)) p.told.0;
    moved = p.told.1;
    inv = p.inv;
    holds = p.holds;
    same_handle = p.handle;
    options = p.options;
    idle = p.good;
  }
  Plays-Streamed m u (some (err e), u', c) opened v enough p =
      let (rs, c₁, idle, asked, failed) = p.told.1 in
      let a =
        reads_lem (chunk_of u) (depth_of u) rs c₁ (omega arith)
          (omega (arith, v.options.depth_le, enough)) (omega (arith, v.options.depth_le)) idle
          asked in
      let o = read_at_pipelined wire network fuel h rs c₁ in
      let failed' =
        subst (λ k. (as_result (read_at_pipelined wire network fuel k rs c₁)).0 ≡ err e) opened
          failed in
      absurd (cc (ap (λ x. x.0) (as_result-done o (map (slice_of file) rs) a.answered), failed'))

  -- Over an idle client of a server that holds the file, with fuel for a full pipeline, `read_block` never
  -- fails: it returns the file's next `max_len` bytes (within the high watermark) or what is left of
  -- them, or `None` at the end, in whatever order the replies come; and the client is idle again.
  pub read_block-Streamed :
      (m : ℕ) (u : StreamingWorker) (c : Cifs N)
      → u.stream.handle ≡ h
      → Inv u.state
      → Holds file u.state
      → IsIdle c
      → 16 ≤ fuel
      → m ≤ u.state.options.high_watermark
      → Streamed m u (read_block (reader_of wire network fuel) m u c)
  unfolding effective_chunk_size
  read_block-Streamed m u c opened v held idle enough le = Plays-Streamed m u _ opened v enough (
      read_block-Plays (reader_of wire network fuel) file IsIdle m u c
        (subst
          (λ k. IsFaithful (reader_of wire network fuel) file k (chunk_of u) (depth_of u) IsIdle)
          (sym opened)
          (reader_of-IsFaithful (chunk_of u) (depth_of u) (omega arith)
            (omega (arith, v.options.depth_le, enough)) (omega (arith, v.options.depth_le))))
        v held idle le)

  -- Calls of `read_block` with these lengths, and the bytes that they give one after the other.
  unfoldable pub play : List ℕ → StreamingWorker → Cifs N → Option Bytes
  play [] u c = some []
  play (m ∷ ms) u c =
      let r = read_block (reader_of wire network fuel) m u c in
      let later = play ms r.1 r.2 in joined r.0 later

  slices_join :
      (p m n : ℕ)
      → slice_at file p m ++ slice_at file (p + length (slice_at file p m)) n
        ≡ slice_at file p (m + n)
  slices_join p m n = elim (cut (leb m (length file - p)) refl) [
    | inl whole ↦
        ap (λ k. slice_at file p m ++ slice_at file (p + k) n) whole ∙ slice_at-append file p m n
    | inr short ↦
        ap (λ l. slice_at file p m ++ take n l)
          (drop_all (p + length (slice_at file p m)) file (short)
            ∙ sym (drop_all (p + m) file (omega (arith, size, short))))
        ∙ slice_at-append file p m n
  ]
    where
      size : length (slice_at file p m) ≡ min m (length file - p)
      size = omega (arith, length-take m (drop p file), length-drop p file)

      cut :
          (b : Bool)
          → leb m (length file - p) ≡ b
          → (length (slice_at file p m) ≡ m) ⊎ (length file ≤ p + length (slice_at file p m))
      cut true e = inl (omega (arith, leb→le _ _ e, size))
      cut false e = inr (omega (arith, leb_false→lt _ _ e, size))

  -- However a player cuts its reads, it gets the file from the playback position on, byte for byte.
  pub play_lem :
      (ms : List ℕ) (u : StreamingWorker) (c : Cifs N)
      → u.stream.handle ≡ h
      → Inv u.state
      → Holds file u.state
      → IsIdle c
      → 16 ≤ fuel
      → All (λ m. m ≤ u.state.options.high_watermark) ms
      → play ms u c ≡ some (slice_at file u.state.playback_position (total_of ms))
  unfolding play
  play_lem [] u c opened v held idle enough le = refl
  play_lem (m ∷ ms) u c opened v held idle enough le =
      let r = read_block (reader_of wire network fuel) m u c in
      let s = read_block-Streamed m u c opened v held idle enough le.0 in
      let later =
        play_lem ms r.1 r.2 (s.same_handle ∙ opened) s.inv s.holds s.idle enough
          (subst (λ o. All (λ k. k ≤ o.high_watermark) ms) (sym s.options) le.1) in
      ap₂ joined s.block later
      ∙ joined_lem (slice_at file u.state.playback_position m) _
      ∙ ap some (
          ap (λ p. slice_at file u.state.playback_position m ++ slice_at file p (total_of ms))
            s.moved
          ∙ slices_join u.state.playback_position m (total_of ms))
