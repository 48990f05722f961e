-- ===== src/Netbios/Receiving.antt =====
-- Receiving over a socket that delivers its bytes in pieces of any size.
use cifs_client_stream.Common.{
  ℕ, zero, suc, ◌+◌, ◌^◌, ◌-◌, ◌≤◌, ◌<◌, ◌≡◌, refl, sym, ap, subst, ◌∙◌, [], ◌∷◌, ◌++◌, none, some,
  false, ltb, ok, err, length, take, drop, arith, append_assoc, append-nil, length-take,
  length-drop, take-append_self, drop-append_self, take-append-take, drop-drop, ◌==◌, length-append,
}
use cifs_client_stream.Stream.Buffer.{Bytes, sub64}
use cifs_client_stream.Netbios.{
  Socket, Frame, message, keepalive, Outcome, and_then, io, max_frame_length, be24, of_be24,
  new_frame, read_loop, read_exactly, recv, pick, recv_message,
}

-- What the reading operations of a socket without I/O errors do: with bytes still to come,
-- `read_u8` and `read_exact` take them off the front, and `read_buf` takes some of them, one at least.
pub record IsReliable {S : Type 0} (socket : Socket S) (incoming : S → Bytes) : Type 0 where
  pub reads_u8 :
      (b : ℕ) (bs : Bytes) (s : S)
      → incoming s ≡ b ∷ bs
      → (s' : S) × (socket.read_u8 s ≡ (ok b, s')) × (incoming s' ≡ bs)
  pub reads_exact :
      (n : ℕ) (s : S)
      → n ≤ length (incoming s)
      → (s' : S) × (socket.read_exact n s ≡ (ok (take n (incoming s)), s'))
        × (incoming s' ≡ drop n (incoming s))
  pub reads_some :
      (n : ℕ) (s : S)
      → 0 < n
      → n ≤ length (incoming s)
      → (k : ℕ) × (s' : S) × (0 < k)
        × (k ≤ n)
        × (socket.read_buf n s ≡ (ok (take k (incoming s)), s'))
        × (incoming s' ≡ drop k (incoming s))

-- An operation returned `a`, and `rest` is what is still to come.
abbrev pub Delivers : {S A : Type 0} → (S → Bytes) → Outcome S A → A → Bytes → Type 0
Delivers incoming r a rest = (r.0 ≡ some (ok a)) × (incoming r.1 ≡ rest)

and_then-Delivers :
    {S A B : Type 0} (incoming : S → Bytes) (r : Outcome S A) (a : A) (mid : Bytes)
    (next : A → S → Outcome S B) (b : B) (rest : Bytes)
    → Delivers incoming r a mid
    → ((s : S) → incoming s ≡ mid → Delivers incoming (next a s) b rest)
    → Delivers incoming (and_then r next) b rest
and_then-Delivers incoming (none, s) a mid next b rest d on = absurd (cc)
and_then-Delivers incoming (some (err e), s) a mid next b rest d on = absurd (cc)
and_then-Delivers incoming (some (ok x), s) a mid next b rest d on =
    let same : a ≡ x = cc in subst (λ y. Delivers incoming (next y s) b rest) same (on s d.1)

-- A frame as it stands on the wire.
abbrev pub wire : ℕ → Bytes → Bytes
wire kind payload = kind ∷ be24 (length payload) ++ payload

of_be24-be24 : (n : ℕ) → n < 16777216 → of_be24 (be24 n) ≡ n
of_be24-be24 n small = omega arith

-- A stretch of `n` bytes cut at `k`.
cut_again :
    (n k m : ℕ) (stream stream' buffer : Bytes)
    → k ≤ n
    → m ≡ n - k
    → stream' ≡ drop k stream
    → ((buffer ++ take k stream) ++ take m stream' ≡ buffer ++ take n stream)
      × (drop m stream' ≡ drop n stream)
cut_again n k m stream stream' buffer le cut left =
    let e : k + m ≡ n = omega arith in
    (
      ap (λ l. (buffer ++ take k stream) ++ take m l) left
          ∙ append_assoc buffer (take k stream) (take m (drop k stream))
          ∙ ap (λ l. buffer ++ l) (take-append-take k m stream ∙ ap (λ i. take i stream) e),
      ap (drop m) left ∙ drop-drop k m stream ∙ ap (λ i. drop i stream) e,
    )

module _ {S : Type 0} (socket : Socket S) (incoming : S → Bytes) where
  read_loop-Delivers :
      (fuel count : ℕ) (buffer : Bytes) (s : S)
      → IsReliable socket incoming
      → count ≤ fuel
      → count < 2 ^ 64
      → count ≤ length (incoming s)
      → Delivers incoming
          (read_loop socket fuel count buffer s)
          (buffer ++ take count (incoming s))
          (drop count (incoming s))
  unfolding read_loop
  read_loop-Delivers fuel zero buffer s reliable enough small many =
      (ap (λ l. some (ok l)) (sym (append-nil buffer)), refl)
  read_loop-Delivers zero (suc count) buffer s reliable enough small many = absurd (omega arith)
  read_loop-Delivers (suc fuel) (suc count) buffer s reliable enough small many =
      let (k, s', one, le, got, left) = reliable.reads_some (suc count) s (omega arith) many in
      let c : ℕ = length (take k (incoming s)) in
      let same : c ≡ k = omega (arith, length-take k (incoming s)) in
      let left_over : sub64 (suc count) c ≡ suc count - k = omega arith in
      let go_on : (c == 0) ≡ false = ground arith in
      let next =
        read_loop-Delivers fuel (sub64 (suc count) c) (buffer ++ take k (incoming s)) s' reliable
          (omega arith) (omega arith) (omega (arith, ap length left, length-drop k (incoming s))) in
      let (whole, rest) =
        cut_again (suc count) k (sub64 (suc count) c) (incoming s) (incoming s') buffer le left_over
          left in
      rw (got, go_on) (next.0 ∙ ap (λ l. some (ok l)) whole, next.1 ∙ rest)

  read_exactly-Delivers :
      (count : ℕ) (s : S)
      → IsReliable socket incoming
      → count < 2 ^ 64
      → count ≤ length (incoming s)
      → Delivers incoming
          (read_exactly socket count s)
          (take count (incoming s))
          (drop count (incoming s))
  unfolding read_exactly
  read_exactly-Delivers count s reliable small many =
      read_loop-Delivers count count [] s reliable (omega arith) small many

  read_u8-Delivers :
      (b : ℕ) (rest : Bytes) (s : S)
      → IsReliable socket incoming
      → incoming s ≡ b ∷ rest
      → Delivers incoming (io (socket.read_u8 s)) b rest
  read_u8-Delivers b rest s reliable h =
      let (s', got, left) = reliable.reads_u8 b rest s h in rw got (refl, left)

  read_exact-Delivers :
      (front rest : Bytes) (s : S)
      → IsReliable socket incoming
      → incoming s ≡ front ++ rest
      → Delivers incoming (io (socket.read_exact (length front) s)) front rest
  read_exact-Delivers front rest s reliable h =
      let (s', got, left) =
        reliable.reads_exact (length front) s
          (omega (arith, ap length h, length-append front rest)) in
      rw got (
        ap (λ l. some (ok (take (length front) l))) h
            ∙ ap (λ l. some (ok l)) (take-append_self front rest),
        left ∙ ap (drop (length front)) h ∙ drop-append_self front rest,
      )

  payload-Delivers :
      (front rest : Bytes) (s : S)
      → IsReliable socket incoming
      → length front < 2 ^ 64
      → incoming s ≡ front ++ rest
      → Delivers incoming (read_exactly socket (length front) s) front rest
  payload-Delivers front rest s reliable small h =
      let d =
        read_exactly-Delivers (length front) s reliable small
          (omega (arith, ap length h, length-append front rest)) in
      (
        d.0
            ∙ ap (λ l. some (ok (take (length front) l))) h
            ∙ ap (λ l. some (ok l)) (take-append_self front rest),
        d.1 ∙ ap (drop (length front)) h ∙ drop-append_self front rest,
      )

  -- A frame that stands whole in the stream is received whole, and what follows it stays.
  recv-Delivers :
      (kind : ℕ) (payload rest : Bytes) (frame : Frame) (s : S)
      → IsReliable socket incoming
      → length payload ≤ max_frame_length
      → new_frame kind payload ≡ ok frame
      → incoming s ≡ wire kind payload ++ rest
      → Delivers incoming (recv socket s) frame rest
  unfolding recv
  recv-Delivers kind payload rest frame s reliable small good h =
      let n : ℕ = length payload in
      let size : of_be24 (be24 n) ≡ n = of_be24-be24 n (omega arith) in
      let within : ltb max_frame_length n ≡ false = ground arith in
      and_then-Delivers incoming (io (socket.read_u8 s)) kind (be24 n ++ payload ++ rest) _ frame
        rest (read_u8-Delivers kind (be24 n ++ payload ++ rest) s reliable h)
        (λ s₁ h₁.
          and_then-Delivers incoming (io (socket.read_exact 3 s₁)) (be24 n) (payload ++ rest) _
            frame rest (read_exact-Delivers (be24 n) (payload ++ rest) s₁ reliable h₁)
            (λ s₂ h₂.
              rw (size, within)
                (and_then-Delivers incoming (read_exactly socket n s₂) payload rest _ frame rest
                  (payload-Delivers payload rest s₂ reliable (omega arith) h₂)
                  (λ s₃ h₃. (ap some good, h₃)))))

  -- `count` keepalives in a row.
  abbrev pub keepalives : ℕ → Bytes → Bytes
  keepalives zero rest = rest
  keepalives (suc count) rest = wire 0x85 [] ++ keepalives count rest

  -- Over a socket that delivers its bytes in pieces of any size, `recv_message` returns the message
  -- of the next message frame, whatever number of keepalives stands before it, once its fuel exceeds
  -- that number; exactly these frames are taken off the stream.
  pub recv_message-Delivers :
      (skipped fuel : ℕ) (m rest : Bytes) (s : S)
      → IsReliable socket incoming
      → skipped < fuel
      → length m ≤ max_frame_length
      → incoming s ≡ keepalives skipped (wire 0x00 m ++ rest)
      → Delivers incoming (recv_message socket fuel s) m rest
  unfolding recv_message pick new_frame
  recv_message-Delivers skipped zero m rest s reliable enough small h = absurd (omega arith)
  recv_message-Delivers zero (suc fuel) m rest s reliable enough small h =
      and_then-Delivers incoming (recv socket s) (message m) rest _ m rest
        (recv-Delivers 0x00 m rest (message m) s reliable small refl h) (λ s' h'. (refl, h'))
  recv_message-Delivers (suc skipped) (suc fuel) m rest s reliable enough small h =
      and_then-Delivers incoming (recv socket s) keepalive _ _ m rest
        (recv-Delivers 0x85 [] _ keepalive s reliable (omega arith) refl h)
        (λ s' h'. recv_message-Delivers skipped fuel m rest s' reliable (omega arith) small h')
