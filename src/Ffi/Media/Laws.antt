-- ===== src/Ffi/Media/Laws.antt =====
-- A read of a media file through the C interface gives the bytes of the file.
use cifs_client_stream.Common.{
  ℕ, zero, suc, ◌+◌, ◌-◌, ◌^◌, ◌≤◌, ◌<◌, ◌≡◌, refl, sym, ap, ◌∙◌, List, [], ◌∷◌, ◌++◌, some, true,
  false, Bool-cases, inl, inr, arith, leb, ltb, ◌==◌, length, take, drop, min, length-append,
  length-take, length-drop, take-take, take_all, done, append-nil, append_assoc,
}
use cifs_client_stream.Smb.Handle.{Handle}
use cifs_client_stream.Smb.Wire.{Wire}
use cifs_client_stream.Smb.Wire.Plain.{IsWire}
use cifs_client_stream.Stream.Buffer.{Bytes, is_nil}
use cifs_client_stream.Stream.Options.{smb_legacy_read_max}
use cifs_client_stream.Stream.State.Content.{slice_at, slice_at-append}
use cifs_client_stream.Client.{PendingReply}
use cifs_client_stream.Client.Commands.{Cifs, Network, Call, read_at}
use cifs_client_stream.Client.Commands.Laws.{Serves}
use cifs_client_stream.Client.Commands.Pipelined.{read_at_lem}
use cifs_client_stream.Client.Streaming.{IsIdle, empty_of_length}
use cifs_client_stream.Ffi.Media.{
  Timer, Media, ReadOutcome, Returned, bytes_read, timed_read, read_chunks, read_media,
  media_read_at, media_read_at_from_c, copy_out, to_i64, timeout_from_ms, saturating_add_u64,
}

length-slice_at : (file : Bytes) (p n : ℕ) → p + n ≤ length file → length (slice_at file p n) ≡ n
length-slice_at file p n inside =
    omega (arith, inside, length-take n (drop p file), length-drop p file)

is_nil-slice_at :
    (file : Bytes) (p n : ℕ) → p + n ≤ length file → 0 < n → is_nil (slice_at file p n) ≡ false
is_nil-slice_at file p n inside positive = go (slice_at file p n) (length-slice_at file p n inside)
  where
    go : (xs : Bytes) → length xs ≡ n → is_nil xs ≡ false
    go [] e = absurd (omega (arith, e, positive))
    go (x ∷ xs) e = refl

-- The timer does not end a read.
abbrev pub NeverElapses : {N : Type 0} → Timer N → Type 0
NeverElapses {N} timer =
    (ms : ℕ) (call : Call N Bytes) (c : Cifs N) → timer.elapses ms call c ≡ false

module _ {N : Type 0} (wire : Wire) (w : IsWire wire) (network : Network N) (fuel : ℕ)
    (coming : N → List PendingReply) (file : Bytes) (h : Handle)
    (server : Serves wire network coming file h) (enough : 1 ≤ fuel) (timer : Timer N)
    (never : NeverElapses timer) (sized : length file < 2 ^ 64) where
  abbrev Idle : Cifs N → Type 0
  Idle c = IsIdle wire w network fuel coming file h server c

  read_at-Idle :
      (offset count : ℕ) (c : Cifs N)
      → offset + count ≤ length file
      → count < 65536
      → Idle c
      → (c' : Cifs N) × (read_at wire network fuel h offset count c
          ≡ (some (done (slice_at file offset count)), c'))
        × Idle c'
  read_at-Idle offset count c inside small (empty, id) =
      let none_coming : length (coming c.inbox.netbios) ≡ 0 =
        omega (arith, ap length empty, length-append c.inbox.pending (coming c.inbox.netbios)) in
      let a =
        read_at_lem wire w network fuel coming file h server offset count c inside small
          (rw empty (tt, tt)) id (omega (arith, none_coming, enough)) in
      let o = read_at wire network fuel h offset count c in
      (
        o.1,
        ap (λ r. (r, o.1)) a.answered,
        (empty_of_length _ (a.settled ∙ ap length empty), a.next_id),
      )

  read_chunks_lem :
      (left ms cursor remaining : ℕ) (output : Bytes) (c : Cifs N)
      → remaining < left
      → cursor + remaining ≤ length file
      → Idle c
      → (c' : Cifs N) × (read_chunks wire network timer fuel left ms h cursor remaining output c
          ≡ (some (done (output ++ slice_at file cursor remaining)), c'))
        × Idle c'
  unfolding read_chunks timed_read
  read_chunks_lem zero ms cursor remaining output c less inside idle = absurd (omega arith)
  read_chunks_lem (suc left) ms cursor zero output c less inside idle =
      (c, ap (λ l. (some (done l), c)) (sym (append-nil output)), idle)
  read_chunks_lem (suc left) ms cursor (suc r) output c less inside idle =
      let n = min (suc r) smb_legacy_read_max in
      let fits : cursor + n ≤ length file = omega (arith, inside) in
      let (c₁, got, idle₁) = read_at-Idle cursor n c fits (omega arith) idle in
      let (c₂, rest, idle₂) =
        read_chunks_lem left ms (cursor + n) (suc r - n) (output ++ slice_at file cursor n) c₁
          (omega (arith, less)) (omega (arith, inside)) idle₁ in
      let small : leb (2 ^ 32) n ≡ false = ground arith in
      let going : suc r == 0 ≡ false = ground arith in
      let long = length-slice_at file cursor n fits in
      let all_of_it : n + (suc r - n) ≡ suc r = omega arith in
      let whole : (output ++ slice_at file cursor n) ++ slice_at file (cursor + n) (suc r - n)
          ≡ output ++ slice_at file cursor (suc r) =
        append_assoc output (slice_at file cursor n) (slice_at file (cursor + n) (suc r - n))
        ∙ ap (λ l. output ++ l)
            (slice_at-append file cursor n (suc r - n) ∙ ap (slice_at file cursor) all_of_it) in
      let next : saturating_add_u64 cursor (length (slice_at file cursor n)) ≡ cursor + n =
        omega (arith, long, fits, sized) in
      (
        c₂,
        rw
            (
              going,
              small,
              never ms (read_at wire network fuel h cursor n) c,
              got,
              is_nil-slice_at file cursor n fits (omega arith),
              next,
              long,
              rest,
            )
            (ap (λ l. (some (done l), c₂)) whole),
        idle₂,
      )

  -- A slice is cut at the end of the file.
  slice_at-min :
      (offset n : ℕ) → slice_at file offset (min n (length file - offset)) ≡ slice_at file offset n
  slice_at-min offset n =
      let rest = drop offset file in
      sym (take-take n (length file - offset) rest)
      ∙ ap (take n) (take_all (length file - offset) rest (omega (arith, length-drop offset file)))

  read_media_lem :
      (offset requested ms : ℕ) (c : Cifs N)
      → h.size ≡ length file
      → Idle c
      → (c' : Cifs N) × (read_media wire network timer fuel h offset requested ms c
          ≡ (some (done (slice_at file offset requested)), c'))
        × Idle c'
  unfolding read_media
  read_media_lem offset requested ms c size idle = elim (Bool-cases (requested == 0)) [
    | inl e ↦ (c, rw (e) (ap (λ l. (some (done l), c)) (nothing (ground arith))), idle)
    | inr some_asked ↦ elim (Bool-cases (leb h.size offset)) [
      | inl e ↦
          (c, rw (some_asked, e) (ap (λ l. (some (done l), c)) (nothing (ground arith))), idle)
      | inr inside ↦
          let remaining = min requested (h.size - offset) in
          let before : offset < h.size = ground arith in
          let positive : 0 < requested = ground arith in
          let (c₁, got, idle₁) =
            read_chunks_lem (suc remaining) ms offset remaining [] c (omega arith)
              (omega (arith, before, size)) idle in
          let going : remaining == 0 ≡ false = ground arith in
          let same : remaining ≡ min requested (length file - offset) = omega (arith, size) in
          (
            c₁,
            rw (some_asked, inside, going, got)
                (ap (λ l. (some (done l), c₁))
                  (ap (slice_at file offset) same ∙ slice_at-min offset requested)),
            idle₁,
          )
    ]
  ]
    where
      nothing : min requested (length file - offset) ≡ 0 → [] ≡ slice_at file offset requested
      nothing e = ap (slice_at file offset) (sym e) ∙ slice_at-min offset requested

  -- What the caller of `media_read_at` has afterwards: the number of bytes that were in the file, and
  -- those bytes at the start of the buffer, the rest of which is as it was.
  pub record Copied (media : Media N) (offset len : ℕ) (buffer : Bytes) (o : ReadOutcome N Returned)
      : Type 0 where
    result : o.result ≡ some (bytes_read (length (slice_at file offset len)))
    copied :
        o.buffer
        ≡ some (slice_at file offset len ++ drop (length (slice_at file offset len)) buffer)
    connection : Cifs N
    kept : o.media ≡ some (record media { session = some (record { inner = some connection }) })
    idle : Idle connection

  -- With fuel for a reply, on an idle connection to a server that holds a file of less than 2 ^ 64 bytes,
  -- under a timer that does not end a read, `media_read_at` on an open media of an open session, for a
  -- length below 2 ^ 63, returns the number of bytes that the file has at the offset, at most the length,
  -- puts these bytes at the start of the buffer, and leaves the connection idle for the next call.
  pub media_read_at_lem :
      (media : Media N) (offset len ms : ℕ) (buffer : Bytes) (c : Cifs N)
      → media.handle ≡ some h
      → media.session ≡ some (record { inner = some c })
      → h.size ≡ length file
      → len < 2 ^ 63
      → Idle c
      → Copied media offset len buffer
          (media_read_at wire network timer fuel (some media) offset (some buffer) len ms)
  unfolding media_read_at media_read_at_from_c copy_out to_i64
  media_read_at_lem media offset len ms buffer c opened connected size small idle =
      elim (Bool-cases (len == 0)) [
        | inl e ↦
            let none_asked : len ≡ 0 = ground arith in
            rw (none_asked) (record {
              result = refl;
              copied = refl;
              connection = c;
              kept = ap (λ s. some (record media { session = s })) connected;
              idle = idle;
            })
        | inr some_asked ↦
            let (c₁, got, idle₁) = read_media_lem offset len (timeout_from_ms ms) c size idle in
            let bytes = slice_at file offset len in
            let short : min (length bytes) len ≡ length bytes =
              omega (arith, length-take len (drop offset file)) in
            let fits : ltb (length bytes) (2 ^ 63) ≡ true = ground (arith, short, small) in
            rw (some_asked, opened, connected, got, short, fits)
              (record {
                result = refl;
                copied =
                    ap (λ l. some (l ++ drop (length bytes) buffer))
                      (take_all (length bytes) bytes (omega arith));
                connection = c₁;
                kept = refl;
                idle = idle₁;
              })
      ]
