-- ===== src/Tests.antt =====
-- The laws of the stream's settings, at concrete values.
use cifs_client_stream.Common.{◌≡◌, refl, [], ◌∷◌, arith, take, drop}
use cifs_client_stream.Stream.Buffer.{StreamingBuffer, pop_block}
use cifs_client_stream.Stream.Buffer.Queue.{contents, IsValid}
use cifs_client_stream.Stream.Buffer.Pop.{non_empty, pop_block-Takes}

-- Three chunks, of which a block of four bytes cuts the second.
abbrev queue : StreamingBuffer
queue = record { chunks = (1 ∷ 2 ∷ 3 ∷ []) ∷ (4 ∷ 5 ∷ []) ∷ (6 ∷ []) ∷ []; buffered = 6 }

queue-IsValid : IsValid queue
queue-IsValid = record {
  counted = refl;
  full = (omega arith, (omega arith, (omega arith, tt)));
  small = omega arith;
}

pop_block-Takes_example :
    let (r, b) = pop_block 4 queue in
    (r ≡ non_empty (take 4 (contents queue))) × (contents b ≡ drop 4 (contents queue)) × IsValid b
pop_block-Takes_example = pop_block-Takes 4 queue queue-IsValid
