-- ===== src/Smb/Wire/Laws.antt =====
-- Reading back what was written, and how many bytes a parser takes.
use native.Mathlib.Nat.{pow-suc}
use cifs_client_stream.Common.{
  ℕ, zero, suc, ◌+◌, ◌-◌, ◌*◌, ◌/◌, ◌%◌, ◌^◌, ◌≤◌, ◌<◌, ◌≡◌, refl, sym, ap, ◌∙◌, ◌≢◌, ltb, leb,
  subst, Result, ok, err, Bool-cases, inl, inr, ltb_false→le, List, [], ◌∷◌, ◌++◌, Option, none,
  some, Bool, true, false, arith, length, take, drop, Run, done, fails, panics, and_then,
}
use cifs_client_stream.Stream.Buffer.{Bytes}
use cifs_client_stream.Smb.Codes.{SmbError}
use cifs_client_stream.Smb.Wire.{
  Reading, ◌>>=◌, ◌>>◌, pure, fail, fail_if, remaining, or_panic, skipped, get_le, advance,
  copy_to_bytes, given, within, on,
}
use cifs_client_stream.Smb.Wire.Plain.{le_bytes, read_le, skip, split, cons_le, cons_front, plain}

pub length-le_bytes : (n x : ℕ) → length (le_bytes n x) ≡ n
unfolding le_bytes
length-le_bytes zero x = refl
length-le_bytes (suc n) x = ap suc (length-le_bytes n (x / 256))

pub read_le-le_bytes :
    (n x : ℕ) (rest : Bytes) → x < 256 ^ n → read_le n (le_bytes n x ++ rest) ≡ some (x, rest)
unfolding read_le le_bytes
read_le-le_bytes zero x rest h = let e : 0 ≡ x = omega arith in ap (λ v. some (v, rest)) e
read_le-le_bytes (suc n) x rest h =
    let smaller : x / 256 < 256 ^ n = omega (arith, pow-suc 256 n) in
    let whole : x % 256 + 256 * (x / 256) ≡ x = omega arith in
    ap (cons_le (x % 256)) (read_le-le_bytes n (x / 256) rest smaller)
    ∙ ap (λ v. some (v, rest)) whole

pub split-append : (xs rest : Bytes) → split (length xs) (xs ++ rest) ≡ some (xs, rest)
unfolding split
split-append [] rest = refl
split-append (x ∷ xs) rest = ap (cons_front x) (split-append xs rest)

-- Beyond the end there is nothing to read, and up to the end there is all.
pub split_short : (n : ℕ) (bs : Bytes) → length bs < n → split n bs ≡ none
unfolding split
split_short zero bs h = absurd (omega (arith, h))
split_short (suc n) [] h = refl
split_short (suc n) (b ∷ bs) h = ap (cons_front b) (split_short n bs (omega (arith, h)))

pub read_le_short : (n : ℕ) (bs : Bytes) → length bs < n → read_le n bs ≡ none
unfolding read_le
read_le_short zero bs h = absurd (omega (arith, h))
read_le_short (suc n) [] h = refl
read_le_short (suc n) (b ∷ bs) h = ap (cons_le b) (read_le_short n bs (omega (arith, h)))

pub split_whole : (bs : Bytes) → split (length bs) bs ≡ some (bs, [])
unfolding split
split_whole [] = refl
split_whole (b ∷ bs) = ap (cons_front b) (split_whole bs)

-- A step that does not panic leaves at least `left` bytes.
abbrev pub Leaves : {A : Type 0} → ℕ → Run SmbError (A × Bytes) → Type 0
Leaves left panics = ⊥
Leaves left (fails e) = Unit {0}
Leaves left (done (a, rest)) = left ≤ length rest

-- With `k` bytes in the buffer the parser does not panic, and it takes at most these.
unfoldable pub Takes : {A : Type 0} → ℕ → Reading A → Type 0
Takes k m = (buffer : Bytes) → k ≤ length buffer → Leaves (length buffer - k) (m buffer)

Leaves-fewer :
    {A : Type 0} (m n : ℕ) (r : Run SmbError (A × Bytes)) → m ≤ n → Leaves n r → Leaves m r
Leaves-fewer m n panics le h = h
Leaves-fewer m n (fails e) le h = tt
Leaves-fewer m n (done (a, rest)) le h = omega (arith, le, h)

pub Takes-bind :
    {A B : Type 0} (k j : ℕ) (m : Reading A) (f : A → Reading B)
    → Takes k m
    → ((a : A) → Takes j (f a))
    → Takes (k + j) (m >>= f)
unfolding Takes
Takes-bind {A} {B} k j m f first next buffer enough =
    go (m buffer) (first buffer (omega (arith, enough)))
  where
    go :
        (r : Run SmbError (A × Bytes))
        → Leaves (length buffer - k) r
        → Leaves (length buffer - (k + j)) (and_then r λ x. f x.0 x.1)
    go panics h = h
    go (fails e) h = tt
    go (done (a, rest)) h =
        Leaves-fewer (length buffer - (k + j)) (length rest - j) (f a rest) (omega (arith, h))
          (next a rest (omega (arith, h, enough)))

pub Takes-then :
    {B : Type 0} (k j : ℕ) (m : Reading (Unit {0})) (rest : Reading B)
    → Takes k m
    → Takes j rest
    → Takes (k + j) (m >> rest)
Takes-then k j m rest first next = Takes-bind k j m (λ u. rest) first (λ u. next)

pub Takes-get_le : (n : ℕ) → Takes n (get_le plain n)
unfolding Takes read_le
Takes-get_le zero buffer enough = omega arith
Takes-get_le (suc n) [] enough = absurd (omega (arith, enough))
Takes-get_le (suc n) (b ∷ bs) enough = go (read_le n bs) (Takes-get_le n bs (omega (arith, enough)))
  where
    go :
        (r : Option (ℕ × Bytes))
        → Leaves (length bs - n) (or_panic r)
        → Leaves (length (b ∷ bs) - suc n) (or_panic (cons_le b r))
    go none h = h
    go (some (v, rest)) h = omega (arith, h)

pub Takes-advance : (n : ℕ) → Takes n (advance plain n)
unfolding Takes skip
Takes-advance zero buffer enough = omega arith
Takes-advance (suc n) [] enough = absurd (omega (arith, enough))
Takes-advance (suc n) (b ∷ bs) enough =
    Leaves-fewer (length (b ∷ bs) - suc n) (length bs - n) (skipped (skip n bs)) (omega arith)
      (Takes-advance n bs (omega (arith, enough)))

pub Takes-copy_to_bytes : (n : ℕ) → Takes n (copy_to_bytes plain n)
unfolding Takes split
Takes-copy_to_bytes zero buffer enough = omega arith
Takes-copy_to_bytes (suc n) [] enough = absurd (omega (arith, enough))
Takes-copy_to_bytes (suc n) (b ∷ bs) enough =
    go (split n bs) (Takes-copy_to_bytes n bs (omega (arith, enough)))
  where
    go :
        (r : Option (Bytes × Bytes))
        → Leaves (length bs - n) (or_panic r)
        → Leaves (length (b ∷ bs) - suc n) (or_panic (cons_front b r))
    go none h = h
    go (some (front, rest)) h = omega (arith, h)

pub Takes-pure : {A : Type 0} (a : A) → Takes 0 (pure a)
unfolding Takes
Takes-pure a buffer enough = omega arith

pub Takes-fail : (A : Type 0) (e : SmbError) → Takes 0 (fail {A = A} e)
unfolding Takes
Takes-fail A e buffer enough = tt

pub Takes-fail_if : (b : Bool) (e : SmbError) → Takes 0 (fail_if b e)
unfolding Takes
Takes-fail_if true e buffer enough = tt
Takes-fail_if false e buffer enough = omega arith

pub Takes-given : {A : Type 0} (r : Result SmbError A) → Takes 0 (given r)
unfolding Takes
Takes-given (ok a) buffer enough = omega arith
Takes-given (err e) buffer enough = tt

pub Takes-remaining : Takes 0 remaining
unfolding Takes
Takes-remaining buffer enough = omega arith

-- One step of a parser with `n` bytes at hand, of which the step takes `k` and leaves `j`.
Takes-step :
    {A B : Type 0} (k j n : ℕ) (m : Reading A) (f : A → Reading B)
    → Takes k m
    → ((a : A) → Takes j (f a))
    → k + j ≡ n
    → Takes n (m >>= f)
Takes-step k j n m f first next e = subst (λ l. Takes l (m >>= f)) e (Takes-bind k j m f first next)

left_over : (k n : ℕ) → leb k n ≡ true → k + (n - k) ≡ n
left_over k n h = ground arith

Takes-enough : {A : Type 0} (n : ℕ) (m : Reading A) → Takes 0 m → Takes n m
unfolding Takes
Takes-enough n m h buffer enough =
    Leaves-fewer _ _ (m buffer) (omega arith) (h buffer (omega arith))

module _ {B : Type 0} (n : ℕ) where
  pub Takes-get :
      (k : ℕ) (f : ℕ → Reading B)
      → leb k n ≡ true
      → ((v : ℕ) → Takes (n - k) (f v))
      → Takes n (get_le plain k >>= f)
  Takes-get k f le next = Takes-step k (n - k) n _ f (Takes-get_le k) next (left_over k n le)

  pub Takes-copy :
      (k : ℕ) (f : Bytes → Reading B)
      → leb k n ≡ true
      → ((v : Bytes) → Takes (n - k) (f v))
      → Takes n (copy_to_bytes plain k >>= f)
  Takes-copy k f le next =
      Takes-step k (n - k) n _ f (Takes-copy_to_bytes k) next (left_over k n le)

  pub Takes-move :
      (k : ℕ) (rest : Reading B)
      → leb k n ≡ true
      → Takes (n - k) rest
      → Takes n (advance plain k >> rest)
  Takes-move k rest le next =
      Takes-step k (n - k) n _ (λ u. rest) (Takes-advance k) (λ u. next) (left_over k n le)

  pub Takes-check :
      (b : Bool) (e : SmbError) (rest : Reading B) → Takes n rest → Takes n (fail_if b e >> rest)
  Takes-check b e rest next =
      Takes-step 0 n n _ (λ u. rest) (Takes-fail_if b e) (λ u. next) (omega arith)

  pub Takes-result :
      {A : Type 0} (r : Result SmbError A) (f : A → Reading B)
      → ((a : A) → Takes n (f a))
      → Takes n (given r >>= f)
  Takes-result r f next = Takes-step 0 n n _ f (Takes-given r) next (omega arith)

  pub Takes-end : (b : B) → Takes n (pure b)
  Takes-end b = Takes-enough n _ (Takes-pure b)

pub Takes-within :
    {A : Type 0} (k : ℕ) (other : Bytes) (m : Reading A)
    → Takes k m
    → k ≤ length other
    → Takes 0 (within other m)
unfolding Takes
Takes-within {A} k other m takes enough buffer any = go (m other) (takes other enough)
  where
    go :
        (r : Run SmbError (A × Bytes))
        → Leaves (length other - k) r
        → Leaves (length buffer - 0) (and_then r λ x. done (x.0, buffer))
    go panics h = h
    go (fails x) h = tt
    go (done x) h = omega arith

always_fails : {B : Type 0} (e : SmbError) (rest : Reading B) → Takes 0 (fail_if true e >> rest)
unfolding Takes
always_fails e rest buffer enough = tt

-- Bytes of another buffer, behind a test that they are there.
pub Takes-guarded :
    {B : Type 0} (n k : ℕ) (e : SmbError) (other : Bytes) (f : Bytes → Reading B)
    → ((v : Bytes) → Takes n (f v))
    → Takes n (fail_if (ltb (length other) k) e >> (within other (copy_to_bytes plain k) >>= f))
Takes-guarded n k e other f next = go (ltb (length other) k) refl
  where
    go :
        (b : Bool)
        → ltb (length other) k ≡ b
        → Takes n (fail_if b e >> (within other (copy_to_bytes plain k) >>= f))
    go true h = Takes-enough n _ (always_fails e (within other (copy_to_bytes plain k) >>= f))
    go false h =
        Takes-step 0 n n _ (λ u. within other (copy_to_bytes plain k) >>= f) (Takes-fail_if false e)
          (λ u.
            Takes-step 0 n n _ f
              (Takes-within k other _ (Takes-copy_to_bytes k) (ltb_false→le _ _ h)) next
              (omega arith))
          (omega arith)

pub ruleset taking =
    (Takes-get, Takes-copy, Takes-move, Takes-check, Takes-result, Takes-end, Takes-guarded, refl)

-- A parser that first asks for the bytes it takes never panics.
pub guarded_lem :
    {A : Type 0} (n : ℕ) (e : SmbError) (m : Reading A) (buffer : Bytes)
    → Takes n m
    → (remaining >>= λ left. fail_if (ltb left n) e >> m) buffer ≢ panics
unfolding Takes
guarded_lem {A} n e m buffer takes = go (ltb (length buffer) n) refl
  where
    sound : (left : ℕ) (r : Run SmbError (A × Bytes)) → Leaves left r → r ≢ panics
    sound left panics h eq = h
    sound left (fails x) h eq = cc
    sound left (done x) h eq = cc

    go : (b : Bool) → ltb (length buffer) n ≡ b → (fail_if b e >> m) buffer ≢ panics
    go true h eq = cc
    go false h eq = sound _ (m buffer) (takes buffer (ltb_false→le _ _ h)) eq

-- A parser alone on a buffer with enough bytes.
pub on_lem :
    {A : Type 0} (n : ℕ) (m : Reading A) (buffer : Bytes)
    → Takes n m
    → n ≤ length buffer
    → on buffer m ≢ panics
unfolding Takes
on_lem {A} n m buffer takes enough = go (m buffer) (takes buffer enough)
  where
    go :
        (r : Run SmbError (A × Bytes))
        → Leaves (length buffer - n) r
        → (and_then r λ x. done x.0) ≢ panics
    go panics h eq = h
    go (fails x) h eq = cc
    go (done x) h eq = cc
