-- ===== src/Stream/State/Content.antt =====
-- The buffered bytes are the bytes of the file.
use cifs_client_stream.Common.{
  ℕ, ◌+◌, ◌-◌, ◌≡◌, sym, ap, ap₂, ◌∙◌, min, ◌++◌, ok, arith, length, take, drop, length-append,
  length-take, length-drop, take-take, drop-take, drop_all, Bool-cases, leb, leb→le, leb_false→lt,
  inl, inr, drop-drop, take-append-take, >>=-eq-ok, drop-append_self, ◌↔◌,
}
use cifs_client_stream.Stream.Buffer.{Bytes}
use cifs_client_stream.Stream.Buffer.Queue.{contents, clear_lem}
use cifs_client_stream.Stream.Buffer.Pop.{non_empty, pop_block-Takes}
use cifs_client_stream.Stream.Seek.{SeekFrom, seek_position}
use cifs_client_stream.Stream.State.{WorkerState, push_source_chunk, pop_read, seek_state}
use cifs_client_stream.Stream.State.Invariant.{Inv, push_source_chunk-Inv}

-- The `n` bytes of the file from position `p` on.
abbrev pub slice_at : Bytes → ℕ → ℕ → Bytes
slice_at file p n = take n (drop p file)

-- The file has the size that the state knows, and the buffer holds its bytes from the playback position on.
pub record Holds (file : Bytes) (s : WorkerState) : Type 0 where
  pub sized : length file ≡ s.file_size
  pub matches : contents s.buffer ≡ slice_at file s.playback_position (length (contents s.buffer))

-- Two neighbouring slices are one.
pub slice_at-append :
    (file : Bytes) (p m n : ℕ)
    → slice_at file p m ++ slice_at file (p + m) n ≡ slice_at file p (m + n)
slice_at-append file p m n =
    ap (λ l. take m (drop p file) ++ take n l) (sym (drop-drop p m file))
    ∙ take-append-take m n (drop p file)

-- A chunk that is the file's slice at the source position extends what the buffer holds of the file.
pub push_source_chunk-Holds :
    (file chunk : Bytes) (s t : WorkerState)
    → Inv s
    → Holds file s
    → chunk ≡ slice_at file s.source_position (length chunk)
    → push_source_chunk chunk s ≡ ok t
    → Holds file t
push_source_chunk-Holds file chunk s t v held fits h =
    let (v', moved, grown, stays, size, same) = push_source_chunk-Inv chunk s t v h in
    let n : ℕ = length (contents s.buffer) in
    let k : ℕ = length chunk in
    let longer : length (contents t.buffer) ≡ n + k =
      ap length grown ∙ length-append (contents s.buffer) chunk in
    record {
      sized = held.sized ∙ sym size;
      matches =
          grown
          ∙ ap₂ ◌++◌ held.matches (fits ∙ ap (λ p. slice_at file p k) (sym v.aligned))
          ∙ slice_at-append file s.playback_position n k
          ∙ ap₂ (λ p m. slice_at file p m) (sym stays) (sym longer);
    }

-- In a state whose buffer is the file's bytes, an accepted chunk leaves it so exactly if the chunk
-- is the file's bytes at the source position: a chunk behind a short one, which was read further
-- on, does not.
pub push_source_chunk-Holds_iff :
    (file chunk : Bytes) (s t : WorkerState)
    → Inv s
    → Holds file s
    → push_source_chunk chunk s ≡ ok t
    → (chunk ≡ slice_at file s.source_position (length chunk)) ↔ Holds file t
push_source_chunk-Holds_iff file chunk s t v held h =
    let (v', moved, grown, stays, size, same) = push_source_chunk-Inv chunk s t v h in
    let n : ℕ = length (contents s.buffer) in
    let k : ℕ = length chunk in
    let p : ℕ = s.playback_position in
    let longer : length (contents t.buffer) ≡ n + k =
      ap length grown ∙ length-append (contents s.buffer) chunk in
    (
      λ fits. push_source_chunk-Holds file chunk s t v held fits h,
      λ held'.
          sym (drop-append_self (contents s.buffer) chunk)
          ∙ ap (drop n) (
              sym grown
              ∙ held'.matches
              ∙ ap₂ (λ a b. slice_at file a b) stays longer
              ∙ sym (slice_at-append file p n k)
              ∙ ap (λ l. l ++ slice_at file (p + n) k) (sym held.matches))
          ∙ drop-append_self (contents s.buffer) (slice_at file (p + n) k)
          ∙ ap (λ a. slice_at file a k) v.aligned,
    )

-- What is left of a slice behind its first `m` bytes.
drop-slice_at :
    (file : Bytes) (p m n : ℕ)
    → length (slice_at file p n) ≡ n
    → drop m (slice_at file p n) ≡ slice_at file (p + min m n) (n - min m n)
drop-slice_at file p m n e = elim (Bool-cases (leb m n)) [
  | inl le ↦
      let k : m ≡ min m n = omega (arith, leb→le m n le) in
      drop-take m n (drop p file) (leb→le m n le)
      ∙ ap (take (n - m)) (drop-drop p m file)
      ∙ ap (λ j. slice_at file (p + j) (n - j)) k
  | inr gt ↦
      let z : 0 ≡ n - min m n = omega (arith, leb_false→lt m n gt) in
      drop_all m (slice_at file p n) (omega (arith, leb_false→lt m n gt))
      ∙ ap (λ j. slice_at file (p + min m n) j) z
]

-- `pop_read` moves the playback position by the bytes that it returns.
pop_read_position :
    (m : ℕ) (s : WorkerState)
    → Inv s
    → ((pop_read m s).0 ≡ non_empty (take m (contents s.buffer)))
      × (contents (pop_read m s).1.buffer ≡ drop m (contents s.buffer))
      × ((pop_read m s).1.playback_position
          ≡ s.playback_position + min m (length (contents s.buffer)))
      × ((pop_read m s).1.file_size ≡ s.file_size)
unfolding pop_read
pop_read_position m s v =
    ground (arith, pop_block-Takes m s.buffer v.buffer, length-take m (contents s.buffer))

-- `pop_read` returns the file's bytes at the playback position, as many as asked for or as are
-- buffered (`None` for none), moves the playback position behind them, and the buffer goes on
-- holding the file's bytes from there.
pub pop_read-Holds :
    (file : Bytes) (m : ℕ) (s : WorkerState)
    → Inv s
    → Holds file s
    → let k = min m (length (contents s.buffer)) in
      let (r, t) = pop_read m s in
      (r ≡ non_empty (slice_at file s.playback_position k))
      × (t.playback_position ≡ s.playback_position + k)
      × Holds file t
pop_read-Holds file m s v held =
    let (taken, left, moved, size) = pop_read_position m s v in
    let n : ℕ = length (contents s.buffer) in
    let p : ℕ = s.playback_position in
    let rest : contents (pop_read m s).1.buffer ≡ slice_at file (p + min m n) (n - min m n) =
      left ∙ ap (drop m) held.matches ∙ drop-slice_at file p m n (ap length (sym held.matches)) in
    let count : length (contents (pop_read m s).1.buffer) ≡ n - min m n =
      ap length left ∙ length-drop m (contents s.buffer) ∙ omega arith in
    (
      taken ∙ ap non_empty (ap (take m) held.matches ∙ take-take m n (drop p file)),
      moved,
      record {
        sized = held.sized ∙ sym size;
        matches = rest ∙ ap₂ (λ q j. slice_at file q j) (sym moved) (sym count);
      },
    )

pub seek_state-Holds :
    (file : Bytes) (from : SeekFrom) (s t : WorkerState)
    → Holds file s
    → seek_state from s ≡ ok t
    → Holds file t
unfolding seek_state
seek_state-Holds file from s t held h =
    let (next, sought, made) = >>=-eq-ok (seek_position s.file_size s.playback_position from) _ h in
    ground (arith, clear_lem s.buffer, held.sized)

pub pop_read_options : (m : ℕ) (s : WorkerState) → (pop_read m s).1.options ≡ s.options
unfolding pop_read
pop_read_options m s = ground arith
