-- ===== src/Common/Outcome.antt =====
-- Fallible computations: the source's `Result`.
use mathlib.Core.Path.{◌≡◌, refl}

pub data Result {ℓ} (E : Type 0) (A : Type ℓ) : Type ℓ where
  err : E → Result E A
  ok : A → Result E A

infixl 5 ◌>>=◌ ◌>>◌
abbrev pub ◌>>=◌ {ℓ κ} :
    {A : Type ℓ} {B : Type κ} {E : Type 0} → Result E A → (A → Result E B) → Result E B
err why >>= next = err why
ok value >>= next = next value

-- Where a chain succeeds, its first part did, and so did the rest on its value.
pub >>=-eq-ok {ℓ κ} :
    {E : Type 0} {B : Type κ} {out : B} {A : Type ℓ} (first : Result E A) (next : A → Result E B)
    (done : (first >>= next) ≡ ok out)
    → (value : A) × (first ≡ ok value) × (next value ≡ ok out)
>>=-eq-ok (err why) next done = cc
>>=-eq-ok (ok value) next done = (value, refl, done)

abbrev pub ◌>>◌ {κ} : {E : Type 0} {B : Type κ} → Result E (Unit {0}) → Result E B → Result E B
first >> rest = first >>= λ done. rest

-- The outcome of a computation that may fail with an error or panic.
pub data Run {ℓ} (E : Type 0) (A : Type ℓ) : Type ℓ where
  done : A → Run E A
  fails : E → Run E A
  panics : Run E A

abbrev pub and_then {ℓ κ} :
    {E : Type 0} {A : Type ℓ} {B : Type κ} → Run E A → (A → Run E B) → Run E B
and_then (done a) next = next a
and_then (fails e) next = fails e
and_then panics next = panics
