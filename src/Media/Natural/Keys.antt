-- ===== src/Media/Natural/Keys.antt =====
-- The derived comparisons of tokens and keys are orders.
use Prim.Native.Nat.{Ordering, compare}
use cifs_client_stream.Common.{◌≡◌, refl, ap, Bool, true, false}
use cifs_client_stream.Common.Order.{
  IsOrder, reverse, compare-IsOrder, compare_pairs-IsOrder, compare_lists-IsOrder, compare_pairs,
}
use cifs_client_stream.Media.Natural.{
  NaturalToken, number, text, compare_names, compare_numbers, compare_tokens, compare_bools,
  compare_name_keys,
}

numbers-IsOrder : IsOrder compare_numbers
numbers-IsOrder =
    compare_pairs-IsOrder _ _ compare-IsOrder
      (compare_pairs-IsOrder _ _ (compare_lists-IsOrder compare compare-IsOrder) compare-IsOrder)

names-IsOrder : IsOrder compare_names
names-IsOrder = compare_lists-IsOrder compare compare-IsOrder

pub tokens-IsOrder : IsOrder compare_tokens
unfolding compare_tokens
tokens-IsOrder = record { same = same; equal = equal; flip = flip; trans = trans }
  where
    same : (a b : NaturalToken) → compare_tokens a b ≡ Ordering.eq → a ≡ b
    same (number l s r) (number m t k) e =
        ap (λ x. number x.0 x.1.0 x.1.1) (numbers-IsOrder.same (l, (s, r)) (m, (t, k)) e)
    same (number l s r) (text b) e = absurd (cc)
    same (text a) (number m t k) e = absurd (cc)
    same (text a) (text b) e = ap text (names-IsOrder.same a b e)

    equal : (a : NaturalToken) → compare_tokens a a ≡ Ordering.eq
    equal (number l s r) = numbers-IsOrder.equal (l, (s, r))
    equal (text a) = names-IsOrder.equal a

    flip : (a b : NaturalToken) → compare_tokens b a ≡ reverse (compare_tokens a b)
    flip (number l s r) (number m t k) = numbers-IsOrder.flip (l, (s, r)) (m, (t, k))
    flip (number l s r) (text b) = refl
    flip (text a) (number m t k) = refl
    flip (text a) (text b) = names-IsOrder.flip a b

    trans :
        (a b c : NaturalToken)
        → compare_tokens a b ≡ Ordering.lt
        → compare_tokens b c ≡ Ordering.lt
        → compare_tokens a c ≡ Ordering.lt
    trans (number l s r) (number m t k) (number n u i) e f =
        numbers-IsOrder.trans (l, (s, r)) (m, (t, k)) (n, (u, i)) e f
    trans (number l s r) b (text c) e f = refl
    trans (number l s r) (text b) (number n u i) e f = absurd (cc)
    trans (text a) (number m t k) c e f = absurd (cc)
    trans (text a) (text b) (number n u i) e f = absurd (cc)
    trans (text a) (text b) (text c) e f = names-IsOrder.trans a b c e f

bools-IsOrder : IsOrder compare_bools
bools-IsOrder = record { same = same; equal = equal; flip = flip; trans = trans }
  where
    same : (a b : Bool) → compare_bools a b ≡ Ordering.eq → a ≡ b
    same false false e = refl
    same false true e = absurd (cc)
    same true false e = absurd (cc)
    same true true e = refl

    equal : (a : Bool) → compare_bools a a ≡ Ordering.eq
    equal false = refl
    equal true = refl

    flip : (a b : Bool) → compare_bools b a ≡ reverse (compare_bools a b)
    flip false false = refl
    flip false true = refl
    flip true false = refl
    flip true true = refl

    trans :
        (a b c : Bool)
        → compare_bools a b ≡ Ordering.lt
        → compare_bools b c ≡ Ordering.lt
        → compare_bools a c ≡ Ordering.lt
    trans false true true e f = absurd (cc)
    trans false b true e f = refl
    trans false false false e f = absurd (cc)
    trans false true false e f = absurd (cc)
    trans true false c e f = absurd (cc)
    trans true true c e f = absurd (cc)

pub keys-IsOrder : IsOrder (compare_pairs compare_bools compare_name_keys)
keys-IsOrder =
    compare_pairs-IsOrder _ _ bools-IsOrder (compare_lists-IsOrder compare_tokens tokens-IsOrder)
