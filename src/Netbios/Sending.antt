-- ===== src/Netbios/Sending.antt =====
-- Sending over a socket that takes its bytes in pieces of any size, and the session request.
use cifs_client_stream.Common.{
  ℕ, zero, suc, ◌*◌, ◌≤◌, ◌<◌, ◌≡◌, refl, sym, ap, ◌∙◌, ◌⊎◌, inl, inr, Bool-cases, ltb→lt,
  ltb_false→le, ◌^◌, List, [], ◌∷◌, ◌++◌, none, some, false, ltb, leb, ok, err, length, take, drop,
  replicate, All, arith, append_assoc, append-nil, take-append-drop, length-take, length-drop,
  length-append,
}
use cifs_client_stream.Errors.{invalid_frame}
use cifs_client_stream.Stream.Buffer.{Bytes}
use cifs_client_stream.Netbios.{
  Socket, session_request, Outcome, and_then, io, max_frame_length, encode, write_loop,
  write_exactly, send, send_message, ascii, nibbles, encode_netbios_name, session_payload,
}
use cifs_client_stream.Netbios.Receiving.{wire}

-- What the writing operations of a socket without I/O errors do: `write_buf` takes some of the
-- bytes that it is given, one at least, and `flush` takes none.
pub record IsWriter {S : Type 0} (socket : Socket S) (sent : S → Bytes) : Type 0 where
  pub writes_some :
      (buffer : Bytes) (s : S)
      → 0 < length buffer
      → (k : ℕ) × (s' : S) × (0 < k)
        × (k ≤ length buffer)
        × (socket.write_buf buffer s ≡ (ok k, s'))
        × (sent s' ≡ sent s ++ take k buffer)
  pub flushes : (s : S) → (s' : S) × (socket.flush s ≡ (ok tt, s')) × (sent s' ≡ sent s)

-- An operation succeeded and has written `bytes`.
abbrev pub Sends : {S : Type 0} → (S → Bytes) → S → Outcome S (Unit {0}) → Bytes → Type 0
Sends sent s r bytes = (r.0 ≡ some (ok tt)) × (sent r.1 ≡ sent s ++ bytes)

module _ {S : Type 0} (socket : Socket S) (sent : S → Bytes) where
  write_loop-Sends :
      (fuel : ℕ) (buffer : Bytes) (s : S)
      → IsWriter socket sent
      → length buffer ≤ fuel
      → Sends sent s (write_loop socket fuel buffer s) buffer
  unfolding write_loop
  write_loop-Sends fuel [] s writer enough = (refl, sym (append-nil (sent s)))
  write_loop-Sends zero (b ∷ bs) s writer enough = absurd (omega arith)
  write_loop-Sends (suc fuel) (b ∷ bs) s writer enough =
      let (k, s', one, le, got, grown) = writer.writes_some (b ∷ bs) s (omega arith) in
      let next =
        write_loop-Sends fuel (drop k (b ∷ bs)) s' writer (omega (arith, length-drop k (b ∷ bs))) in
      rw got (
        next.0,
        next.1
            ∙ ap (λ l. l ++ drop k (b ∷ bs)) grown
            ∙ append_assoc (sent s) (take k (b ∷ bs)) (drop k (b ∷ bs))
            ∙ ap (λ l. sent s ++ l) (take-append-drop k (b ∷ bs)),
      )

  flush-Sends :
      (s : S) (bytes : Bytes) (r : Outcome S (Unit {0}))
      → IsWriter socket sent
      → Sends sent s r bytes
      → Sends sent s (and_then r λ done s'. io (socket.flush s')) bytes
  flush-Sends s bytes (none, s₁) writer d = absurd (cc)
  flush-Sends s bytes (some (err e), s₁) writer d = absurd (cc)
  flush-Sends s bytes (some (ok u), s₁) writer d =
      let (s₂, got, same) = writer.flushes s₁ in rw got (refl, same ∙ d.1)

  write_exactly-Sends :
      (buffer : Bytes) (s : S)
      → IsWriter socket sent
      → Sends sent s (write_exactly socket buffer s) buffer
  unfolding write_exactly
  write_exactly-Sends buffer s writer =
      flush-Sends s buffer _ writer (write_loop-Sends (length buffer) buffer s writer (omega arith))

  -- What `send_message` does with a message: one within the limit goes out whole as one message
  -- frame; a longer one is refused with nothing sent.
  abbrev pub Sent : Bytes → S → Outcome S (Unit {0}) → Type 0
  Sent m s r =
      ((length m ≤ max_frame_length) × Sends sent s r (wire 0x00 m))
      ⊎ ((max_frame_length < length m) × (r ≡ (some (err invalid_frame), s)))

  -- Over a socket without I/O errors that takes its bytes in pieces of any size, `send_message` writes
  -- one message frame for a message within the limit, and refuses a longer one with nothing sent.
  pub send_message-Sent :
      (m : Bytes) (s : S) → IsWriter socket sent → Sent m s (send_message socket m s)
  unfolding send_message send encode
  send_message-Sent m s writer = elim (Bool-cases (ltb max_frame_length (length m))) [
    | inl long ↦ inr (ltb→lt _ _ long, rw long refl)
    | inr short ↦
        let le : length m ≤ max_frame_length = ltb_false→le _ _ short in
        let small : leb (2 ^ 32) (length m) ≡ false = ground arith in
        inl (le, rw (short, small) (write_exactly-Sends (wire 0x00 m) s writer))
  ]

-- The letters of an encoded name are two for each character.
length-nibbles : (cs : List ℕ) → length (nibbles cs) ≡ 2 * length cs
length-nibbles [] = refl
length-nibbles (c ∷ cs) = omega (arith, length-nibbles cs)

-- Every character that is kept is ASCII.
ascii-All : (cs : List ℕ) → All (λ c. c < 128) (ascii cs)
ascii-All [] = tt
ascii-All (c ∷ cs) = elim (Bool-cases (ltb c 128)) [
  | inl small ↦ rw small (ltb→lt c 128 small, ascii-All cs)
  | inr large ↦ rw large (ascii-All cs)
]

-- The first `n` of ASCII characters and spaces are ASCII.
padded-All :
    (n k : ℕ) (cs : List ℕ)
    → All (λ c. c < 128) cs
    → All (λ c. c < 128) (take n (cs ++ replicate k 32))
padded-All zero k cs h = tt
padded-All (suc n) zero [] h = tt
padded-All (suc n) (suc k) [] h = (omega arith, padded-All n k [] tt)
padded-All (suc n) k (c ∷ cs) h = (h.0, padded-All n k cs h.1)

letters-All : (cs : List ℕ) → All (λ c. c < 128) cs → All (λ b. (65 ≤ b) × (b ≤ 80)) (nibbles cs)
letters-All [] h = tt
letters-All (c ∷ cs) h =
    ((omega arith, omega (arith, h.0)), ((omega arith, omega arith), letters-All cs h.1))

-- An encoded name has 32 letters, each from `A` to `P`, whatever the name.
pub encode_netbios_name_letters :
    (name : List ℕ)
    → (length (encode_netbios_name name) ≡ 32)
      × All (λ b. (65 ≤ b) × (b ≤ 80)) (encode_netbios_name name)
unfolding encode_netbios_name
encode_netbios_name_letters name =
    let padded = ascii name ++ replicate 16 32 in
    (
      omega (
        arith,
        length-nibbles (take 16 padded),
        length-take 16 padded,
        length-append (ascii name) (replicate 16 32),
      ),
      letters-All _ (padded-All 16 16 (ascii name) (ascii-All name)),
    )

framed :
    (dst src : Bytes)
    → length dst ≡ 32
    → length src ≡ 32
    → length (0x20 ∷ dst ++ 0x00 ∷ 0x20 ∷ src ++ 0x00 ∷ []) ≡ 68
framed dst src hd hs =
    omega (arith, length-append dst (0 ∷ 32 ∷ src), length-append (dst ++ 0 ∷ 32 ∷ src) (0 ∷ []))

session_payload_size : (dst src : List ℕ) → length (session_payload dst src) ≡ 68
unfolding session_payload
session_payload_size dst src =
    framed (encode_netbios_name dst) (encode_netbios_name src) (encode_netbios_name_letters dst).0
      (encode_netbios_name_letters src).0

-- Over a socket without I/O errors the session request goes out whole, as a frame of 68 bytes behind
-- its head, for any two names.
pub session_request-Sends :
    {S : Type 0} (socket : Socket S) (sent : S → Bytes) (dst src : List ℕ) (s : S)
    → IsWriter socket sent
    → Sends sent s
        (send socket (session_request (session_payload dst src)) s)
        (0x81 ∷ 0 ∷ 0 ∷ 68 ∷ session_payload dst src)
unfolding send encode
session_request-Sends socket sent dst src s writer =
    let m = session_payload dst src in
    let size : length m ≡ 68 = session_payload_size dst src in
    rw size (write_exactly-Sends socket sent (0x81 ∷ 0 ∷ 0 ∷ 68 ∷ m) s writer)
