-- ===== src/Smb/Trans2/Search/Filled.antt =====
-- The parsers of the replies to a directory search refuse a page that is empty and not the last one.
use cifs_client_stream.Common.{
  ℕ, zero, suc, ◌≡◌, ◌≢◌, refl, sym, ap, List, [], ◌∷◌, Bool, true, false, not, ◌&&◌, ltb, ◌==◌,
  length, arith, Bool-cases, inl, inr, Run, done, fails, panics,
}
use cifs_client_stream.Common
use cifs_client_stream.Stream.Buffer.{Bytes}
use cifs_client_stream.Smb.Codes.{SmbError, invalid_data}
use cifs_client_stream.Smb.Wire.{
  Wire, Reading, ◌>>=◌, ◌>>◌, fail_if, pure, on, remaining, get_u16_le, advance, within,
}
use cifs_client_stream.Smb.Trans2.Search.{
  FirstPage, NextPage, DirEntry, check_count, entries, first_size, next_size, find_first2,
  find_next2,
}
use cifs_client_stream.Utils.{Chrono}

-- What a parser gives, where it gives something, satisfies the predicate.
abbrev pub Gives : {A : Type 0} → (A → Type 0) → Run SmbError A → Type 0
Gives P (done a) = P a
Gives P (fails e) = Unit {0}
Gives P panics = Unit {0}

abbrev Ensures : {A : Type 0} → (A → Type 0) → Reading A → Type 0
Ensures P m = (buffer : Bytes) → Gives (λ r. P r.0) (m buffer)

Ensures-bind :
    {A B : Type 0} (P : B → Type 0) (m : Reading A) (next : A → Reading B)
    → ((a : A) → Ensures P (next a))
    → Ensures P (m >>= next)
Ensures-bind {A} P m next h buffer = go (m buffer)
  where
    go : (r : Run SmbError (A × Bytes)) → Gives (λ x. P x.0) (Common.and_then r λ x. next x.0 x.1)
    go (done r) = h r.0 r.1
    go (fails e) = tt
    go panics = tt

Ensures-then :
    {B : Type 0} (P : B → Type 0) (m : Reading (Unit {0})) (next : Reading B)
    → Ensures P next
    → Ensures P (m >> next)
Ensures-then P m next h buffer = Ensures-bind P m (λ u. next) (λ u. h) buffer

Ensures-on :
    {A : Type 0} (P : A → Type 0) (m : Reading A) (buffer : Bytes)
    → Ensures P m
    → Gives P (on buffer m)
Ensures-on {A} P m buffer h = go (m buffer) (h buffer)
  where
    go :
        (r : Run SmbError (A × Bytes))
        → Gives (λ x. P x.0) r
        → Gives P (Common.and_then r λ x. done x.0)
    go (done r) g = g
    go (fails e) g = tt
    go panics g = tt

-- A page that is not the last one has an entry.
abbrev pub Filled : {E : Type 0} → Bool → List E → Type 0
Filled end info = end ≡ false → info ≢ []

module _ (wire : Wire) (chrono : Chrono) where
  check_count-Filled :
      {E A : Type 0} (P : A → Type 0) (info : List E) (count : ℕ) (end : Bool) (page : A)
      → (Filled end info → P page)
      → Ensures P (check_count wire chrono info count end >> pure page)
  check_count-Filled P (x ∷ xs) count end page h buffer =
      go (not (length (x ∷ xs) == count)) (not end && count == 0)
    where
      filled : Filled end (x ∷ xs)
      filled e same = absurd (cc)

      go :
          (b c : Bool)
          → Gives
              (λ r. P r.0)
              (((fail_if b invalid_data >> fail_if c invalid_data) >> pure page) buffer)
      go true c = tt
      go false true = tt
      go false false = h filled
  check_count-Filled P [] count true page h buffer = go (not (0 == count))
    where
      go :
          (b : Bool)
          → Gives
              (λ r. P r.0)
              (((fail_if b invalid_data >> fail_if false invalid_data) >> pure page) buffer)
      go true = tt
      go false = h (λ e. absurd (cc))
  check_count-Filled P [] zero false page h buffer = tt
  check_count-Filled P [] (suc count) false page h buffer =
      let differs : (0 == suc count) ≡ false = ground arith in rw (differs) tt

  pub find_first2-Filled :
      (parameter content : Bytes)
      → Gives (λ page. Filled page.end page.info) (find_first2 wire chrono parameter content)
  unfolding find_first2
  find_first2-Filled parameter content =
      Ensures-on P (remaining >>= λ left. fail_if (ltb left 10) invalid_data >> sid) parameter (
        Ensures-bind P remaining (λ left. fail_if (ltb left 10) invalid_data >> sid)
          λ left. Ensures-then P (fail_if (ltb left 10) invalid_data) sid (
            Ensures-bind P (get_u16_le wire) count λ i.
              Ensures-bind P (get_u16_le wire) (end i) λ n.
                Ensures-bind P (get_u16_le wire) (skip i n) λ e.
                  Ensures-then P (advance wire 2) (info i n e) (
                    Ensures-bind P
                      (within content (entries wire chrono first_size (length content)))
                      (page i n e) λ es. check_count-Filled P es n (not (e == 0)) _ (λ h. h))))
    where
      P : FirstPage chrono → Type 0
      P page = Filled page.end page.info

      page : ℕ → ℕ → ℕ → List (DirEntry chrono) → Reading (FirstPage chrono)
      page i n e es =
          check_count wire chrono es n (not (e == 0))
          >> pure (record { sid = i; end = not (e == 0); info = es })

      info : ℕ → ℕ → ℕ → Reading (FirstPage chrono)
      info i n e = within content (entries wire chrono first_size (length content)) >>= page i n e

      skip : ℕ → ℕ → ℕ → Reading (FirstPage chrono)
      skip i n e = advance wire 2 >> info i n e

      end : ℕ → ℕ → Reading (FirstPage chrono)
      end i n = get_u16_le wire >>= skip i n

      count : ℕ → Reading (FirstPage chrono)
      count i = get_u16_le wire >>= end i

      sid : Reading (FirstPage chrono)
      sid = get_u16_le wire >>= count

  pub find_next2-Filled :
      (parameter content : Bytes)
      → Gives (λ page. Filled page.end page.info) (find_next2 wire chrono parameter content)
  unfolding find_next2
  find_next2-Filled parameter content =
      Ensures-on P (remaining >>= λ left. fail_if (ltb left 4) invalid_data >> count) parameter (
        Ensures-bind P remaining (λ left. fail_if (ltb left 4) invalid_data >> count)
          λ left. Ensures-then P (fail_if (ltb left 4) invalid_data) count (
            Ensures-bind P (get_u16_le wire) end λ n. Ensures-bind P (get_u16_le wire) (info n) λ e.
              Ensures-bind P (within content (entries wire chrono next_size (length content)))
                (page n e) λ es. check_count-Filled P es n (not (e == 0)) _ (λ h. h)))
    where
      P : NextPage chrono → Type 0
      P page = Filled page.end page.info

      page : ℕ → ℕ → List (DirEntry chrono) → Reading (NextPage chrono)
      page n e es =
          check_count wire chrono es n (not (e == 0))
          >> pure (record { end = not (e == 0); info = es })

      info : ℕ → ℕ → Reading (NextPage chrono)
      info n e = within content (entries wire chrono next_size (length content)) >>= page n e

      end : ℕ → Reading (NextPage chrono)
      end n = get_u16_le wire >>= info n

      count : Reading (NextPage chrono)
      count = get_u16_le wire >>= end
