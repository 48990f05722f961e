-- ===== src/Media/Natural/Laws.antt =====
-- Runs of digits are compared as the numbers they stand for.
use Prim.Native.Nat.{Ordering, compare}
use native.Mathlib.Nat.{mul-le-mul_right, pow-le-pow_right}
use cifs_client_stream.Common.{
  ℕ, suc, ◌+◌, ◌-◌, ◌*◌, ◌^◌, ◌≤◌, ◌<◌, ◌≡◌, refl, ap, ap₂, sym, ◌∙◌, [], ◌∷◌, All, arith,
  Bool-cases, inl, inr, ◌==◌, if◌then◌else◌, max, length,
}
use cifs_client_stream.Common.Order.{then_by, compare_lists}
use cifs_client_stream.Stream.Buffer.{is_nil}
use cifs_client_stream.Media.Names.{Name}
use cifs_client_stream.Media.Natural.{
  compare_tokens, compare_names, trim_zeros, number_token, number,
}

-- The number that a text of digits stands for.
abbrev pub value : Name → ℕ
value [] = 0
value (c ∷ cs) = (c - 48) * 10 ^ length cs + value cs

abbrev pub Digits : Name → Type 0
Digits = All (λ c. (48 ≤ c) × (c ≤ 57))

power : (n : ℕ) → 10 ^ suc n ≡ 10 * 10 ^ n
power n = omega arith

digit_order : (a b p v w : ℕ) → a < b → v < p → a * p + v < b * p + w
digit_order a b p v w less below =
    let next : suc a * p ≡ p + a * p = omega arith in
    omega (arith, next, mul-le-mul_right p less, below)

value_bound : (cs : Name) → Digits cs → value cs < 10 ^ length cs
value_bound [] h = omega arith
value_bound (c ∷ cs) h =
    let ordered =
      digit_order (c - 48) 10 (10 ^ length cs) (value cs) 0 (omega (arith, h.0))
        (value_bound cs h.1) in
    omega (arith, power (length cs), ordered)

compare_lt : (a b : ℕ) → a < b → compare a b ≡ Ordering.lt
compare_lt a b h = ground arith

compare_gt : (a b : ℕ) → b < a → compare a b ≡ Ordering.gt
compare_gt a b h = ground arith

compare_add : (k a b : ℕ) → compare (k + a) (k + b) ≡ compare a b
compare_add k a b = ground arith

-- Texts of as many digits are in the order of their numbers.
compare_names-value :
    (xs ys : Name)
    → Digits xs
    → Digits ys
    → length xs ≡ length ys
    → compare_names xs ys ≡ compare (value xs) (value ys)
unfolding compare_lists
compare_names-value [] [] h k e = refl
compare_names-value [] (y ∷ ys) h k e = absurd (omega (arith, e))
compare_names-value (x ∷ xs) [] h k e = absurd (omega (arith, e))
compare_names-value (x ∷ xs) (y ∷ ys) h k e =
    go (compare_names-value xs ys h.1 k.1 same) (compare x y) refl
  where
    same : length xs ≡ length ys
    same = omega (arith, e)

    scaled : 10 ^ length xs ≡ 10 ^ length ys
    scaled = ap (λ n. 10 ^ n) same

    go :
        compare_names xs ys ≡ compare (value xs) (value ys)
        → (o : Ordering) → compare x y ≡ o
        → then_by o (compare_names xs ys) ≡ compare (value (x ∷ xs)) (value (y ∷ ys))
    go rest Ordering.lt o =
        let less : x - 48 < y - 48 = ground (arith, o, h.0, k.0) in
        let below =
          digit_order (x - 48) (y - 48) (10 ^ length xs) (value xs) (value ys) less
            (value_bound xs h.1) in
        sym (compare_lt _ _ (rw (sym scaled) below))
    go rest Ordering.gt o =
        let less : y - 48 < x - 48 = ground (arith, o, h.0, k.0) in
        let below =
          digit_order (y - 48) (x - 48) (10 ^ length ys) (value ys) (value xs) less
            (value_bound ys k.1) in
        sym (compare_gt _ _ (rw (scaled) below))
    go rest Ordering.eq o =
        let equal : x ≡ y = ground (arith, o) in
        rest
        ∙ sym (rw (equal, scaled) (compare_add ((y - 48) * 10 ^ length ys) (value xs) (value ys)))

-- The digits of a number without zeros before it, but the last.
record IsNumeral (significant : Name) (n : ℕ) : Type 0 where
  digits : Digits significant
  means : value significant ≡ n
  some_digit : 1 ≤ length significant
  leading : 2 ≤ length significant → 10 ^ (length significant - 1) ≤ n

abbrev numeral_of : Name → Name
numeral_of raw = if is_nil (trim_zeros raw) then 48 ∷ [] else trim_zeros raw

trim_zeros-IsNumeral : (raw : Name) → Digits raw → IsNumeral (numeral_of raw) (value raw)
unfolding trim_zeros
trim_zeros-IsNumeral [] h = record {
  digits = ((omega arith, omega arith), tt);
  means = refl;
  some_digit = omega arith;
  leading = λ k. absurd (omega (arith, k));
}
trim_zeros-IsNumeral (c ∷ cs) h = elim (Bool-cases (c == 48)) [
  | inl e ↦
      let zero : c ≡ 48 = ground arith in
      let sum : (c - 48) * 10 ^ length cs + value cs ≡ value cs = rw zero (omega arith) in
      rw (e, sum) (trim_zeros-IsNumeral cs h.1)
  | inr e ↦
      let above : 48 < c = ground (arith, h.0) in
      let one : 1 ≤ c - 48 = omega arith in
      let powers : 10 ^ (suc (length cs) - 1) ≡ 10 ^ length cs = ap (λ n. 10 ^ n) (omega arith) in
      rw (e) (record {
        digits = h;
        means = refl;
        some_digit = omega arith;
        leading = λ k. omega (arith, powers, mul-le-mul_right (10 ^ length cs) one);
      })
]

longer : {s t : Name} {m n : ℕ} → IsNumeral s m → IsNumeral t n → length s < length t → m < n
longer {s} {t} v w less =
    let bound = value_bound s v.digits in
    let steps : length s ≤ length t - 1 = omega (arith, less) in
    let powers : 10 ^ length s ≤ 10 ^ (length t - 1) = pow-le-pow_right (omega arith) steps in
    omega (arith, bound, v.means, powers, w.leading (omega (arith, less, v.some_digit)))

then_assoc : (o p q : Ordering) → then_by o (then_by p q) ≡ then_by (then_by o p) q
then_assoc Ordering.lt p q = refl
then_assoc Ordering.eq p q = refl
then_assoc Ordering.gt p q = refl

-- The length and then the digits decide as the numbers do.
compare_numerals :
    {s t : Name} {m n : ℕ}
    → IsNumeral s m
    → IsNumeral t n
    → then_by (compare (length s) (length t)) (compare_names s t) ≡ compare m n
compare_numerals {s} {t} {m} {n} v w = go (compare (length s) (length t)) refl
  where
    go :
        (o : Ordering)
        → compare (length s) (length t) ≡ o
        → then_by o (compare_names s t) ≡ compare m n
    go Ordering.lt e = sym (compare_lt m n (longer v w (ground (arith, e))))
    go Ordering.gt e = sym (compare_gt m n (longer w v (ground (arith, e))))
    go Ordering.eq e =
        compare_names-value s t v.digits w.digits (ground (arith, e)) ∙ ap₂ compare v.means w.means

number_token-numeral :
    (raw : Name) → number_token raw ≡ number (length (numeral_of raw)) (numeral_of raw) (length raw)
unfolding number_token
number_token-numeral raw = go (trim_zeros raw)
  where
    go :
        (s : Name)
        → number (max (length s) 1) (if is_nil s then 48 ∷ [] else s) (length raw)
          ≡ number
              (length (if is_nil s then 48 ∷ [] else s))
              (if is_nil s then 48 ∷ [] else s)
              (length raw)
    go [] = refl
    go (c ∷ cs) = ap (λ n. number n (c ∷ cs) (length raw)) (omega arith)

-- Runs of digits are in the order of their numbers, whatever zeros stand before them, and where the
-- numbers are the same in that of their lengths.
pub number_token-value :
    (xs ys : Name)
    → Digits xs
    → Digits ys
    → compare_tokens (number_token xs) (number_token ys)
      ≡ then_by (compare (value xs) (value ys)) (compare (length xs) (length ys))
unfolding compare_tokens
number_token-value xs ys h k =
    let s = numeral_of xs in
    let t = numeral_of ys in
    ap₂ compare_tokens (number_token-numeral xs) (number_token-numeral ys)
    ∙ then_assoc (compare (length s) (length t)) (compare_names s t)
        (compare (length xs) (length ys))
    ∙ ap (λ o. then_by o (compare (length xs) (length ys)))
        (compare_numerals (trim_zeros-IsNumeral xs h) (trim_zeros-IsNumeral ys k))
