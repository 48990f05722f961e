-- ===== src/Stream/Buffer/Pop.antt =====
-- What `pop_bytes` and `pop_block` take from the front of the buffer.
use cifs_client_stream.Common.{
  ℕ, zero, suc, ◌+◌, ◌-◌, ◌≤◌, ◌<◌, ◌≡◌, refl, sym, ap, ◌∙◌, ◌⊎◌, inl, inr, List, [], ◌∷◌, ◌++◌,
  Option, none, some, true, false, ◌==◌, lt→ltb, ltb_false→le, le→ltb_false, take-append_right,
  drop-append_right, ◌||◌, arith, append_assoc, append-nil, ltb, ltb→lt, Bool-cases, length, take,
  drop, length-append, take-append-drop, length-take, length-drop, drop-nil, take-nil,
}
use cifs_client_stream.Stream.Buffer.Queue.{flat, contents, IsValid}
use cifs_client_stream.Stream.Buffer.{
  Bytes, StreamingBuffer, sub64, is_nil, pop_front, pop_bytes, extend, gather, pop_block, resume,
}

-- What a call returns for the bytes that it took: `None` for no bytes.
abbrev pub non_empty : Bytes → Option Bytes
non_empty [] = none
non_empty (x ∷ xs) = some (x ∷ xs)

-- What one `pop_bytes` did: nothing to take, or a chunk from the front, which is as long as asked
-- for or was a whole chunk of the queue.
abbrev Popped : ℕ → StreamingBuffer → Option Bytes × StreamingBuffer → Type 0
Popped k b (none, b') = (b' ≡ b) × (contents b ≡ [])
Popped k b (some chunk, b') =
    (contents b ≡ chunk ++ contents b')
    × (0 < length chunk)
    × (length chunk ≤ k)
    × IsValid b'
    × ((length chunk ≡ k) ⊎ (length b'.chunks < length b.chunks))

module _ (k : ℕ) (c : Bytes) (cs : List Bytes) (n : ℕ) (pos : 0 < k) where
  abbrev front : StreamingBuffer
  front = record { chunks = c ∷ cs; buffered = n }

  cut_front :
      IsValid front
      → k < length c
      → Popped k front (
        some (take k c),
        record { chunks = drop k c ∷ cs; buffered = sub64 n (length (take k c)) },
      )
  cut_front v long = (
    ap (λ l. l ++ flat cs) (sym (take-append-drop k c))
        ∙ append_assoc (take k c) (drop k c) (flat cs),
    omega (arith, length-take k c),
    omega (arith, length-take k c),
    record {
      counted = omega (
        arith,
        v.counted,
        v.small,
        length-take k c,
        length-drop k c,
        length-append c (flat cs),
        length-append (drop k c) (flat cs),
      );
      full = (omega (arith, length-drop k c), v.full.1);
      small = omega (
        arith,
        v.small,
        length-drop k c,
        length-append c (flat cs),
        length-append (drop k c) (flat cs),
      );
    },
    inl (omega (arith, length-take k c)),
  )

  take_front :
      IsValid front
      → length c ≤ k
      → Popped k front (some c, record { chunks = cs; buffered = sub64 n (length c) })
  take_front v short = (
    refl,
    v.full.0,
    short,
    record {
      counted = omega (arith, v.counted, v.small, length-append c (flat cs));
      full = v.full.1;
      small = omega (arith, v.small, length-append c (flat cs));
    },
    inr (omega arith),
  )

pop_front-Popped :
    (k : ℕ) (cs : List Bytes) (n : ℕ)
    → 0 < k
    → let b : StreamingBuffer = record { chunks = cs; buffered = n } in
      IsValid b → Popped k b (pop_front k cs b)
unfolding pop_front
pop_front-Popped k [] n pos v = (refl, refl)
pop_front-Popped k (c ∷ cs) n pos v = elim (Bool-cases (ltb k (length c))) [
  | inl long ↦ rw long (cut_front k c cs n pos v (ltb→lt _ _ long))
  | inr short ↦ rw short (take_front k c cs n pos v (ltb_false→le _ _ short))
]

pop_bytes-Popped : (k : ℕ) (b : StreamingBuffer) → 0 < k → IsValid b → Popped k b (pop_bytes k b)
unfolding pop_bytes
pop_bytes-Popped zero b pos v = absurd (omega arith)
pop_bytes-Popped (suc k) b pos v =
    let test : (suc k == 0) ≡ false = ground arith in
    rw test (pop_front-Popped (suc k) b.chunks b.buffered pos v)

-- What a loop that still wants `k` bytes leaves: `out` longer by the front of the queue.
record Extended (k : ℕ) (out : Bytes) (b : StreamingBuffer) (r : Bytes × StreamingBuffer)
    : Type 0 where
  got : r.0 ≡ out ++ take k (contents b)
  rest : contents r.1 ≡ drop k (contents b)
  valid : IsValid r.1

absorb :
    (k : ℕ) (out chunk : Bytes) (b b' : StreamingBuffer) (r : Bytes × StreamingBuffer)
    → contents b ≡ chunk ++ contents b'
    → length chunk ≤ k
    → Extended (k - length chunk) (out ++ chunk) b' r
    → Extended k out b r
absorb k out chunk b b' r e le x = record {
  got =
      x.got
      ∙ append_assoc out chunk _
      ∙ ap (λ l. out ++ l) (sym (ap (take k) e ∙ take-append_right k chunk (contents b') le));
  rest = x.rest ∙ sym (ap (drop k) e ∙ drop-append_right k chunk (contents b') le);
  valid = x.valid;
}

resume-Extended :
    (fuel m k : ℕ) (out : Bytes) (b : StreamingBuffer)
    → m ≡ length out + k
    → length b.chunks < suc fuel
    → IsValid b
    → ((j : ℕ) (out' : Bytes) (b' : StreamingBuffer)
        → m ≡ length out' + j
        → (length b'.chunks < fuel) ⊎ (j ≡ 0)
        → IsValid b'
        → Extended j out' b' (extend fuel m out' b'))
    → (r : Option Bytes × StreamingBuffer) → Popped k b r
    → Extended k out b (resume (extend fuel m) out r)
unfolding resume
resume-Extended fuel m k out b e h v ih (none, b') (same, nil) = record {
  got = rw nil (rw (take-nil ℕ k) (sym (append-nil out)));
  rest = rw (same, nil) (sym (drop-nil ℕ k));
  valid = rw same v;
}
resume-Extended fuel m k out b e h v ih (some chunk, b') (cut, pos, le, valid, progress) =
    absorb k out chunk b b' _ cut le (
      ih (k - length chunk) (out ++ chunk) b' (omega (arith, length-append out chunk))
        (progressed progress) valid)
  where
    progressed :
        (length chunk ≡ k) ⊎ (length b'.chunks < length b.chunks)
        → (length b'.chunks < fuel) ⊎ (k - length chunk ≡ 0)
    progressed (inl whole) = inr (omega arith)
    progressed (inr fewer) = inl (omega arith)

extend-Extended :
    (fuel m k : ℕ) (out : Bytes) (b : StreamingBuffer)
    → m ≡ length out + k
    → (length b.chunks < fuel) ⊎ (k ≡ 0)
    → IsValid b
    → Extended k out b (extend fuel m out b)
unfolding extend
extend-Extended zero m zero out b e h v = record {
  got = sym (append-nil out);
  rest = refl;
  valid = v;
}
extend-Extended (suc fuel) m zero out b e h v =
    rw (le→ltb_false (length out) m (omega arith))
      (record { got = sym (append-nil out); rest = refl; valid = v })
extend-Extended zero m (suc k) out b e h v = absurd (omega arith)
extend-Extended (suc fuel) m (suc k) out b e h v =
    let test : ltb (length out) m ≡ true = lt→ltb _ _ (omega arith) in
    let left : m - length out ≡ suc k = omega arith in
    rw (test, left)
      (resume-Extended fuel m (suc k) out b e (omega arith) v
        (λ j out' b' e' h' v'. extend-Extended fuel m j out' b' e' h' v') (pop_bytes (suc k) b)
        (pop_bytes-Popped (suc k) b (omega arith) v))

non_empty_of_pos : (xs : Bytes) → 0 < length xs → non_empty xs ≡ some xs
non_empty_of_pos [] h = absurd (omega arith)
non_empty_of_pos (x ∷ xs) h = refl

-- The front `m` bytes are returned, if any, and the others stay.
abbrev Takes : ℕ → StreamingBuffer → Option Bytes × StreamingBuffer → Type 0
Takes m b r =
    (r.0 ≡ non_empty (take m (contents b))) × (contents r.1 ≡ drop m (contents b)) × IsValid r.1

-- A loop that went on behind the first chunk.
finish :
    (m : ℕ) (first : Bytes) (b b' : StreamingBuffer) (r : Bytes × StreamingBuffer)
    → contents b ≡ first ++ contents b'
    → 0 < length first
    → length first ≤ m
    → Extended (m - length first) first b' r
    → Takes m b (some r.0, r.1)
finish m first b b' r cut one le x = (
  ap some whole.got ∙ sym (non_empty_of_pos (take m (contents b)) enough),
  whole.rest,
  whole.valid,
)
  where
    whole : Extended m [] b r
    whole = absorb m [] first b b' r cut le x

    enough : 0 < length (take m (contents b))
    enough =
        omega (arith, length-take m (contents b), ap length cut, length-append first (contents b'))

flat_of_is_nil : (cs : List Bytes) → is_nil cs ≡ true → flat cs ≡ []
flat_of_is_nil [] h = refl
flat_of_is_nil (c ∷ cs) h = cc

at_rest :
    (j : ℕ) (out : Bytes) (b : StreamingBuffer)
    → (j ≡ 0) ⊎ (contents b ≡ [])
    → IsValid b
    → Extended j out b (out, b)
at_rest j out b (inl zero_left) v = record {
  got = rw zero_left (sym (append-nil out));
  rest = rw zero_left;
  valid = v;
}
at_rest j out b (inr nil) v = record {
  got = rw nil (rw (take-nil ℕ j) (sym (append-nil out)));
  rest = rw nil (sym (drop-nil ℕ j));
  valid = v;
}

gather-Takes :
    (m : ℕ) (b : StreamingBuffer) (r : Option Bytes × StreamingBuffer)
    → Popped m b r
    → IsValid b
    → Takes m b (gather m r)
unfolding gather
gather-Takes m b (none, b') (same, nil) v =
    (rw nil (rw (take-nil ℕ m)), rw (same, nil) (sym (drop-nil ℕ m)), rw same v)
gather-Takes m b (some first, b') (cut, one, le, valid, progress) v =
    elim (Bool-cases (length first == m || is_nil b'.chunks)) [
      | inl stops ↦
          rw stops (finish m first b b' _ cut one le (at_rest _ first b' (why stops) valid))
      | inr goes_on ↦ rw goes_on (
          finish m first b b' _ cut one le (
            extend-Extended (suc (length b'.chunks)) m (m - length first) first b' (omega arith)
              (inl (omega arith)) valid))
    ]
  where
    why :
        (length first == m || is_nil b'.chunks) ≡ true → (m - length first ≡ 0) ⊎ (contents b' ≡ [])
    why h = ground (arith, flat_of_is_nil b'.chunks)

-- On a valid buffer `pop_block` returns the front `max_len` bytes, or all bytes if there are fewer,
-- and `None` exactly if that is no byte; the bytes behind them stay, and the buffer stays valid.
pub pop_block-Takes :
    (m : ℕ) (b : StreamingBuffer)
    → IsValid b
    → let (r, b') = pop_block m b in
      (r ≡ non_empty (take m (contents b))) × (contents b' ≡ drop m (contents b)) × IsValid b'
unfolding pop_block
pop_block-Takes zero b v = (refl, refl, v)
pop_block-Takes (suc m) b v =
    let test : (suc m == 0) ≡ false = ground arith in
    rw test (gather-Takes (suc m) b _ (pop_bytes-Popped (suc m) b (omega arith) v) v)
