-- ===== src/Ffi/Media/Bounds.antt =====
-- A read through the C interface writes only within the caller's buffer.
use cifs_client_stream.Common.{
  ℕ, ◌≤◌, ◌≡◌, refl, [], ◌++◌, Option, none, some, Bool-cases, inl, inr, arith, ◌==◌, length, take,
  drop, min, length-take, Run, done, fails, panics,
}
use cifs_client_stream.Smb.Handle.{Handle}
use cifs_client_stream.Smb.Wire.{Wire}
use cifs_client_stream.Stream.Buffer.{Bytes}
use cifs_client_stream.Client.Commands.{Cifs, Network}
use cifs_client_stream.Ffi.Media.{
  MediaError, Timer, Media, Session, ReadOutcome, bytes_read, as_returned, read_media, read_of,
  media_read_at, media_read_at_from_c, copy_out, to_i64, timeout_from_ms,
}

-- At most `len` bytes were written, at the start of the buffer, and where a number of bytes is
-- returned it is theirs.
pub record WritesWithin {N A : Type 0} (count_of : ℕ → A) (len : ℕ) (buffer : Bytes)
    (o : ReadOutcome N A) : Type 0 where
  written : Bytes
  bounded : length written ≤ len
  placed : o.buffer ≡ some (written ++ drop (length written) buffer)
  counted : (n : ℕ) → o.result ≡ some (count_of n) → length written ≡ n

unwritten :
    {N A : Type 0} (count_of : ℕ → A) (len : ℕ) (buffer : Bytes) (o : ReadOutcome N A)
    → o.buffer ≡ some buffer
    → ((n : ℕ) → o.result ≡ some (count_of n) → 0 ≡ n)
    → WritesWithin count_of len buffer o
unwritten count_of len buffer o same counted = record {
  written = [];
  bounded = omega arith;
  placed = same;
  counted = counted;
}

to_i64_lem : (n m : ℕ) → to_i64 n ≡ done m → n ≡ m
unfolding to_i64
to_i64_lem n m e = ground arith

copy_out-WritesWithin :
    {N : Type 0} (media : Media N) (buffer : Bytes) (len : ℕ)
    (r : Option (Run MediaError Bytes) × Cifs N)
    → WritesWithin done len buffer (copy_out media buffer len r)
unfolding copy_out
copy_out-WritesWithin media buffer len (none, c) =
    unwritten done len buffer _ refl (λ n e. absurd (cc))
copy_out-WritesWithin media buffer len (some (fails x), c) =
    unwritten done len buffer _ refl (λ n e. absurd (cc))
copy_out-WritesWithin media buffer len (some panics, c) =
    unwritten done len buffer _ refl (λ n e. absurd (cc))
copy_out-WritesWithin media buffer len (some (done bytes), c) =
    let k = min (length bytes) len in
    let long : length (take k bytes) ≡ k = omega (arith, length-take k bytes) in
    record {
      written = take k bytes;
      bounded = omega (arith, long);
      placed = rw (long) refl;
      counted =
          λ n e. let same : to_i64 k ≡ done n = cc in omega (arith, long, to_i64_lem k n same);
    }

as_returned-done :
    (r : Option (Run MediaError ℕ)) (n : ℕ)
    → as_returned r ≡ some (bytes_read n)
    → r ≡ some (done n)
as_returned-done none n e = absurd (cc)
as_returned-done (some (done m)) n e = cc
as_returned-done (some (fails x)) n e = absurd (cc)
as_returned-done (some panics) n e = absurd (cc)

module _ {N : Type 0} (wire : Wire) (network : Network N) (timer : Timer N) (fuel : ℕ) where
  read_of-WritesWithin :
      (media : Media N) (buffer : Bytes) (offset len ms : ℕ) (h : Option Handle)
      (session : Option (Session N))
      → WritesWithin done len buffer
          (read_of wire network timer fuel media buffer offset len ms h session)
  read_of-WritesWithin media buffer offset len ms none session =
      unwritten done len buffer _ refl (λ n e. absurd (cc))
  read_of-WritesWithin media buffer offset len ms (some h) none =
      unwritten done len buffer _ refl (λ n e. absurd (cc))
  read_of-WritesWithin media buffer offset len ms (some h) (some session) = go session.inner
    where
      go :
          (inner : Option (Cifs N))
          → WritesWithin done len buffer (
              read_of wire network timer fuel media buffer offset len ms
                (some h)
                (some (record { inner = inner })))
      go none = unwritten done len buffer _ refl (λ n e. absurd (cc))
      go (some c) =
          copy_out-WritesWithin media buffer len
            (read_media wire network timer fuel h offset len (timeout_from_ms ms) c)

  media_read_at_from_c-WritesWithin :
      (media : Option (Media N)) (buffer : Bytes) (offset len ms : ℕ)
      → WritesWithin done len buffer
          (media_read_at_from_c wire network timer fuel media offset (some buffer) len ms)
  unfolding media_read_at_from_c
  media_read_at_from_c-WritesWithin none buffer offset len ms =
      unwritten done len buffer _ refl (λ n e. absurd (cc))
  media_read_at_from_c-WritesWithin (some media) buffer offset len ms =
      elim (Bool-cases (len == 0)) [
        | inl e ↦ rw (e) (unwritten done len buffer _ refl (λ n e. cc))
        | inr e ↦
            rw (e) (read_of-WritesWithin media buffer offset len ms media.handle media.session)
      ]

  -- Whatever the server sends, `media_read_at` writes at most `buffer_len` bytes, at the start of the
  -- caller's buffer, and a number of bytes that it returns is that of the bytes it wrote.
  pub media_read_at-WritesWithin :
      (media : Option (Media N)) (buffer : Bytes) (offset len ms : ℕ)
      → WritesWithin bytes_read len buffer
          (media_read_at wire network timer fuel media offset (some buffer) len ms)
  unfolding media_read_at
  media_read_at-WritesWithin media buffer offset len ms =
      let w = media_read_at_from_c-WritesWithin media buffer offset len ms in
      record {
        written = w.written;
        bounded = w.bounded;
        placed = w.placed;
        counted = λ n e. w.counted n (as_returned-done _ n e);
      }
