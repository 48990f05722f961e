-- ===== src/Stream/Buffer/Queue.antt =====
-- The buffer read as a queue of bytes, with the operations that fill and empty it.
use cifs_client_stream.Common.{
  ◌+◌, ◌^◌, ◌<◌, ◌≡◌, refl, sym, ap, ◌∙◌, List, [], ◌∷◌, ◌++◌, arith, append_assoc, append-nil,
  length, All, length-append,
}
use cifs_client_stream.Stream.Buffer.{Bytes, StreamingBuffer, empty, clear, push}

-- The bytes of a queue of chunks, in order.
abbrev pub flat : List Bytes → Bytes
flat [] = []
flat (c ∷ cs) = c ++ flat cs

abbrev pub contents : StreamingBuffer → Bytes
contents b = flat b.chunks

-- `buffered` counts the bytes, and no chunk is empty.
pub record IsValid (b : StreamingBuffer) : Type 0 where
  pub counted : b.buffered ≡ length (contents b)
  pub full : All (λ c. 0 < length c) b.chunks
  pub small : length (contents b) < 2 ^ 64

pub flat-append : (cs : List Bytes) (ds : List Bytes) → flat (cs ++ ds) ≡ flat cs ++ flat ds
flat-append [] ds = refl
flat-append (c ∷ cs) ds =
    ap (λ l. c ++ l) (flat-append cs ds) ∙ sym (append_assoc c (flat cs) (flat ds))

full-append :
    (cs ds : List Bytes)
    → All (λ c. 0 < length c) cs
    → All (λ c. 0 < length c) ds
    → All (λ c. 0 < length c) (cs ++ ds)
full-append [] ds hc hd = hd
full-append (c ∷ cs) ds (h, hc) hd = (h, full-append cs ds hc hd)

-- `push` appends the chunk and keeps the count.
pub push_lem :
    (chunk : Bytes) (b : StreamingBuffer)
    → IsValid b
    → length (contents b) + length chunk < 2 ^ 64
    → IsValid (push chunk b) × (contents (push chunk b) ≡ contents b ++ chunk)
unfolding push
push_lem [] b v h = (v, sym (append-nil (contents b)))
push_lem (x ∷ c) b v h = (
  record {
    counted = omega (arith, v.counted, ap length whole, length-append (contents b) (x ∷ c));
    full = full-append b.chunks ((x ∷ c) ∷ []) v.full (omega arith, tt);
    small = omega (arith, ap length whole, length-append (contents b) (x ∷ c));
  },
  whole,
)
  where
    whole : flat (b.chunks ++ (x ∷ c) ∷ []) ≡ contents b ++ x ∷ c
    whole = flat-append b.chunks ((x ∷ c) ∷ []) ∙ ap (λ l. contents b ++ l) (append-nil (x ∷ c))

pub clear_lem : (b : StreamingBuffer) → IsValid (clear b) × (contents (clear b) ≡ [])
unfolding clear
clear_lem b = (record { counted = refl; full = tt; small = omega arith }, refl)

pub empty-IsValid : IsValid empty
empty-IsValid = record { counted = refl; full = tt; small = omega arith }
