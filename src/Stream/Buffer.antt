-- ===== src/Stream/Buffer.antt =====
-- `StreamingBuffer` of src/lib.rs: the read-ahead queue of chunks.
-- A `Bytes` value is the list of its bytes; `split_to` cuts it, here always inside the chunk.
pub mod Queue
pub mod Pop
use cifs_client_stream.Common.{
  ℕ, zero, suc, ◌+◌, ◌-◌, ◌%◌, ◌^◌, List, [], ◌∷◌, ◌++◌, Option, none, some, Bool, true, false,
  ◌||◌, ltb, ◌==◌, if◌then◌else◌, length, take, drop,
}

abbrev pub Bytes : Type 0
Bytes = List ℕ

-- `+` and `-` on `usize` and `u64`, which wrap.
abbrev pub add64 : ℕ → ℕ → ℕ
add64 a b = (a + b) % 2 ^ 64

abbrev pub sub64 : ℕ → ℕ → ℕ
sub64 a b = (a + 2 ^ 64 - b) % 2 ^ 64

abbrev pub is_nil {ℓ} : {A : Type ℓ} → List A → Bool
is_nil [] = true
is_nil (x ∷ xs) = false

pub record StreamingBuffer : Type 0 where
  pub chunks : List Bytes
  pub buffered : ℕ

-- `StreamingBuffer::new`.
abbrev pub empty : StreamingBuffer
empty = record { chunks = []; buffered = 0 }

unfoldable pub is_empty : StreamingBuffer → Bool
is_empty b = b.buffered == 0

pub chunk_count : StreamingBuffer → ℕ
chunk_count b = length b.chunks

unfoldable pub clear : StreamingBuffer → StreamingBuffer
clear b = record b { chunks = []; buffered = 0 }

unfoldable pub push : Bytes → StreamingBuffer → StreamingBuffer
push chunk b =
    if is_nil chunk
    then b
    else record b { chunks = b.chunks ++ chunk ∷ []; buffered = add64 b.buffered (length chunk) }

-- `pop_bytes` behind its first guard, on the chunks of the queue.
pop_front : ℕ → List Bytes → StreamingBuffer → Option Bytes × StreamingBuffer
pop_front max_len [] b = (none, b)
pop_front max_len (chunk ∷ rest) b =
    if ltb max_len (length chunk)
    then (
      some (take max_len chunk),
      record b {
        chunks = drop max_len chunk ∷ rest;
        buffered = sub64 b.buffered (length (take max_len chunk));
      },
    )
    else (some chunk, record b { chunks = rest; buffered = sub64 b.buffered (length chunk) })

pub pop_bytes : ℕ → StreamingBuffer → Option Bytes × StreamingBuffer
unfolding pop_front
pop_bytes max_len b = if max_len == 0 then (none, b) else pop_front max_len b.chunks b

-- The body of the `while` loop of `pop_block`: `break` if nothing came, else the next rounds.
resume :
    (Bytes → StreamingBuffer → Bytes × StreamingBuffer)
    → Bytes
    → Option Bytes × StreamingBuffer
    → Bytes × StreamingBuffer
resume next out (none, b) = (out, b)
resume next out (some chunk, b) = next (out ++ chunk) b

-- The `while` loop of `pop_block`, on fuel. Each round but the last takes a whole chunk.
extend : ℕ → ℕ → Bytes → StreamingBuffer → Bytes × StreamingBuffer
unfolding resume
extend zero max_len out b = (out, b)
extend (suc fuel) max_len out b =
    let more = resume (extend fuel max_len) out (pop_bytes (max_len - length out) b) in
    if ltb (length out) max_len then more else (out, b)

-- `pop_block` behind its first `pop_bytes`.
gather : ℕ → Option Bytes × StreamingBuffer → Option Bytes × StreamingBuffer
gather max_len (none, b) = (none, b)
gather max_len (some first, b) =
    if length first == max_len || is_nil b.chunks
    then (some first, b)
    else let (out, b') = extend (suc (length b.chunks)) max_len first b in (some out, b')

pub pop_block : ℕ → StreamingBuffer → Option Bytes × StreamingBuffer
pop_block max_len b = if max_len == 0 then (none, b) else gather max_len (pop_bytes max_len b)
