-- ===== src/Media/Natural/Names.antt =====
-- Names that differ in a number are in the order of that number.
use Prim.Native.Nat.{Ordering, compare}
use cifs_client_stream.Common.{
  ℕ, zero, suc, ◌≤◌, ◌<◌, ◌≡◌, refl, ap, ap₂, ◌∙◌, [], ◌∷◌, ◌++◌, true, false, All, arith, length,
  length-append,
}
use cifs_client_stream.Common.Order.{compare_lists}
use cifs_client_stream.Media.Names.{Name}
use cifs_client_stream.Media.Natural.{
  NaturalNameKey, text, compare_name_keys, is_digit, digit_run, text_run, number_token, tokens,
  natural_name_key,
}
use cifs_client_stream.Media.Natural.Laws.{value, Digits, number_token-value}
use cifs_client_stream.Media.Natural.Keys.{tokens-IsOrder}

abbrev pub NoDigits : Name → Type 0
NoDigits = All (λ c. is_digit c ≡ false)

-- Nothing, or a text that does not start with a digit.
abbrev pub NotOn : Name → Type 0
NotOn [] = Unit {0}
NotOn (c ∷ cs) = is_digit c ≡ false

-- A run of digits.
abbrev pub IsRun : Name → Type 0
IsRun xs = Digits xs × (1 ≤ length xs)

is_digit-Digits : (c : ℕ) → 48 ≤ c → c ≤ 57 → is_digit c ≡ true
is_digit-Digits c low high = ground arith

digit_run_lem : (xs rest : Name) → Digits xs → NotOn rest → digit_run (xs ++ rest) ≡ (xs, rest)
unfolding digit_run
digit_run_lem [] [] h off = refl
digit_run_lem [] (c ∷ cs) h off = rw (off) refl
digit_run_lem (x ∷ xs) rest h off =
    rw (is_digit-Digits x h.0.0 h.0.1, digit_run_lem xs rest h.1 off) refl

text_run_lem :
    (before xs rest : Name)
    → NoDigits before
    → IsRun xs
    → text_run (before ++ xs ++ rest) ≡ (before, xs ++ rest)
unfolding text_run
text_run_lem [] [] rest h run = absurd (omega (arith, run.1))
text_run_lem [] (x ∷ xs) rest h run = rw (is_digit-Digits x run.0.0.0 run.0.0.1) refl
text_run_lem (c ∷ cs) xs rest h run = rw (h.0, text_run_lem cs xs rest h.1 run) refl

module _ (to_lowercase : Name → Name) where
  tokens_number :
      (fuel : ℕ) (xs rest : Name)
      → IsRun xs
      → NotOn rest
      → 1 ≤ fuel
      → (later : NaturalNameKey) × (tokens to_lowercase fuel (xs ++ rest) ≡ number_token xs ∷ later)
  unfolding tokens
  tokens_number zero xs rest run off enough = absurd (omega arith)
  tokens_number (suc fuel) [] rest run off enough = absurd (omega (arith, run.1))
  tokens_number (suc fuel) (x ∷ xs) rest run off enough = (
    tokens to_lowercase fuel rest,
    rw (digit_run_lem (x ∷ xs) rest run.0 off, is_digit-Digits x run.0.0.0 run.0.0.1) refl,
  )

  -- The tokens of a name up to its first number.
  abbrev head_tokens : Name → Name → NaturalNameKey → NaturalNameKey
  head_tokens [] xs later = number_token xs ∷ later
  head_tokens (c ∷ cs) xs later = text (to_lowercase (c ∷ cs)) ∷ number_token xs ∷ later

  natural_name_key-head_tokens :
      (before xs rest : Name)
      → NoDigits before
      → IsRun xs
      → NotOn rest
      → (later : NaturalNameKey) × (natural_name_key to_lowercase (before ++ xs ++ rest)
          ≡ head_tokens before xs later)
  unfolding natural_name_key tokens
  natural_name_key-head_tokens [] xs rest h run off =
      tokens_number (length (xs ++ rest)) xs rest run off
        (omega (arith, run.1, length-append xs rest))
  natural_name_key-head_tokens (c ∷ cs) xs rest h run off =
      let (later, e) =
        tokens_number (length (cs ++ xs ++ rest)) xs rest run off
          (omega (arith, run.1, length-append (cs ++ xs) rest, length-append cs xs)) in
      (
        later,
        rw (text_run_lem (c ∷ cs) xs rest h run, h.0) (ap (◌∷◌ (text (to_lowercase (c ∷ cs)))) e),
      )

  first_number :
      (xs ys : Name) (later more : NaturalNameKey)
      → Digits xs
      → Digits ys
      → value xs < value ys
      → compare_name_keys (number_token xs ∷ later) (number_token ys ∷ more) ≡ Ordering.lt
  unfolding compare_lists
  first_number xs ys later more h k less =
      let first : compare (value xs) (value ys) ≡ Ordering.lt = ground arith in
      rw (number_token-value xs ys h k, first) refl

  head_tokens-value :
      (before xs ys : Name) (later more : NaturalNameKey)
      → Digits xs
      → Digits ys
      → value xs < value ys
      → compare_name_keys (head_tokens before xs later) (head_tokens before ys more) ≡ Ordering.lt
  unfolding compare_lists
  head_tokens-value [] xs ys later more h k less = first_number xs ys later more h k less
  head_tokens-value (c ∷ cs) xs ys later more h k less =
      rw (tokens-IsOrder.equal (text (to_lowercase (c ∷ cs))))
        (first_number xs ys later more h k less)

  -- Of two names with the same start without digits, and behind it a number and anything that does not
  -- start with a digit, the one with the smaller number comes first, however many digits and zeros the
  -- numbers have.
  pub natural_name_key-value :
      (before xs ys rest more : Name)
      → NoDigits before
      → IsRun xs
      → IsRun ys
      → NotOn rest
      → NotOn more
      → value xs < value ys
      → compare_name_keys
          (natural_name_key to_lowercase (before ++ xs ++ rest))
          (natural_name_key to_lowercase (before ++ ys ++ more))
        ≡ Ordering.lt
  natural_name_key-value before xs ys rest more h rx ry off on less =
      let (later, e) = natural_name_key-head_tokens before xs rest h rx off in
      let (after, f) = natural_name_key-head_tokens before ys more h ry on in
      ap₂ compare_name_keys e f ∙ head_tokens-value before xs ys later after rx.0 ry.0 less
