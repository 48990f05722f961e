-- ===== src/Common/Order.antt =====
-- Orderings: the derived comparison of products and lists is an order where those of the parts are.
use Prim.Native.Nat.{Ordering, compare}
use mathlib.Core.Path.{◌≡◌, refl, sym, ap, ap₂, ◌∙◌}
use mathlib.Core.Logic.{◌⊎◌, inl, inr, ◌≢◌}
use mathlib.Core.List.{List, [], ◌∷◌}
use native.Mathlib.Omega.{arith}

-- `Ordering::then` and `Ordering::reverse`.
abbrev pub then_by : Ordering → Ordering → Ordering
then_by Ordering.lt p = Ordering.lt
then_by Ordering.eq p = p
then_by Ordering.gt p = Ordering.gt

abbrev pub reverse : Ordering → Ordering
reverse Ordering.lt = Ordering.gt
reverse Ordering.eq = Ordering.eq
reverse Ordering.gt = Ordering.lt

-- A comparison that is a total order.
pub record IsOrder {A : Type 0} (cmp : A → A → Ordering) : Type 0 where
  pub same : (a b : A) → cmp a b ≡ Ordering.eq → a ≡ b
  pub equal : (a : A) → cmp a a ≡ Ordering.eq
  pub flip : (a b : A) → cmp b a ≡ reverse (cmp a b)
  pub trans : (a b c : A) → cmp a b ≡ Ordering.lt → cmp b c ≡ Ordering.lt → cmp a c ≡ Ordering.lt

pub compare-IsOrder : IsOrder compare
compare-IsOrder = record {
  same = λ a b e. ground arith;
  equal = λ a. ground arith;
  flip = λ a b. ground arith;
  trans = λ a b c e f. ground arith;
}

-- The derived comparison of pairs.
abbrev pub compare_pairs :
    {A B : Type 0} → (A → A → Ordering) → (B → B → Ordering) → A × B → A × B → Ordering
compare_pairs ca cb p q = then_by (ca p.0 q.0) (cb p.1 q.1)

-- The derived comparison of sequences, which for texts is the order of their code points, as that of
-- their UTF-8 bytes is.
unfoldable pub compare_lists : {A : Type 0} → (A → A → Ordering) → List A → List A → Ordering
compare_lists cmp [] [] = Ordering.eq
compare_lists cmp [] (b ∷ ys) = Ordering.lt
compare_lists cmp (a ∷ xs) [] = Ordering.gt
compare_lists cmp (a ∷ xs) (b ∷ ys) = then_by (cmp a b) (compare_lists cmp xs ys)

then_by-reverse : (o p : Ordering) → then_by (reverse o) (reverse p) ≡ reverse (then_by o p)
then_by-reverse Ordering.lt p = refl
then_by-reverse Ordering.eq p = refl
then_by-reverse Ordering.gt p = refl

then_by-eq : (o p : Ordering) → then_by o p ≡ Ordering.eq → (o ≡ Ordering.eq) × (p ≡ Ordering.eq)
then_by-eq Ordering.lt p e = absurd (cc)
then_by-eq Ordering.eq p e = (refl, e)
then_by-eq Ordering.gt p e = absurd (cc)

then_by-lt :
    (o p : Ordering)
    → then_by o p ≡ Ordering.lt
    → (o ≡ Ordering.lt) ⊎ ((o ≡ Ordering.eq) × (p ≡ Ordering.lt))
then_by-lt Ordering.lt p e = inl refl
then_by-lt Ordering.eq p e = inr (refl, e)
then_by-lt Ordering.gt p e = absurd (cc)

-- The step of transitivity that products and sequences share.
then_by_trans :
    {A : Type 0} {cmp : A → A → Ordering} (o : IsOrder cmp) (a b c : A) (p q r : Ordering)
    → (p ≡ Ordering.lt → q ≡ Ordering.lt → r ≡ Ordering.lt)
    → then_by (cmp a b) p ≡ Ordering.lt
    → then_by (cmp b c) q ≡ Ordering.lt
    → then_by (cmp a c) r ≡ Ordering.lt
then_by_trans {cmp} o a b c p q r rest e f = elim (then_by-lt (cmp a b) p e) [
  | inl l ↦ elim (then_by-lt (cmp b c) q f) [
    | inl k ↦ rw (o.trans a b c l k) refl
    | inr k ↦ rw (sym (o.same b c k.0), l) refl
  ]
  | inr l ↦ elim (then_by-lt (cmp b c) q f) [
    | inl k ↦ rw (o.same a b l.0, k) refl
    | inr k ↦ rw (o.same a b l.0, k.0) (rest l.1 k.1)
  ]
]

pub compare_pairs-IsOrder :
    {A B : Type 0} (ca : A → A → Ordering) (cb : B → B → Ordering)
    → IsOrder ca
    → IsOrder cb
    → IsOrder (compare_pairs ca cb)
compare_pairs-IsOrder ca cb oa ob = record {
  same = λ p q e.
      let h = then_by-eq (ca p.0 q.0) (cb p.1 q.1) e in
      ap₂ (λ x y. (x, y)) (oa.same p.0 q.0 h.0) (ob.same p.1 q.1 h.1);
  equal = λ p. rw (oa.equal p.0) (ob.equal p.1);
  flip = λ p q. rw (oa.flip p.0 q.0, ob.flip p.1 q.1) (then_by-reverse (ca p.0 q.0) (cb p.1 q.1));
  trans = λ p q r. then_by_trans oa p.0 q.0 r.0 _ _ _ (ob.trans p.1 q.1 r.1);
}

module _ {A : Type 0} (cmp : A → A → Ordering) (o : IsOrder cmp) where
  lists_same : (xs ys : List A) → compare_lists cmp xs ys ≡ Ordering.eq → xs ≡ ys
  unfolding compare_lists
  lists_same [] [] e = refl
  lists_same [] (b ∷ ys) e = absurd (cc)
  lists_same (a ∷ xs) [] e = absurd (cc)
  lists_same (a ∷ xs) (b ∷ ys) e =
      let h = then_by-eq (cmp a b) (compare_lists cmp xs ys) e in
      ap₂ ◌∷◌ (o.same a b h.0) (lists_same xs ys h.1)

  lists_equal : (xs : List A) → compare_lists cmp xs xs ≡ Ordering.eq
  unfolding compare_lists
  lists_equal [] = refl
  lists_equal (a ∷ xs) = rw (o.equal a) (lists_equal xs)

  lists_flip : (xs ys : List A) → compare_lists cmp ys xs ≡ reverse (compare_lists cmp xs ys)
  unfolding compare_lists
  lists_flip [] [] = refl
  lists_flip [] (b ∷ ys) = refl
  lists_flip (a ∷ xs) [] = refl
  lists_flip (a ∷ xs) (b ∷ ys) =
      rw (o.flip a b, lists_flip xs ys) (then_by-reverse (cmp a b) (compare_lists cmp xs ys))

  lists_trans :
      (xs ys zs : List A)
      → compare_lists cmp xs ys ≡ Ordering.lt
      → compare_lists cmp ys zs ≡ Ordering.lt
      → compare_lists cmp xs zs ≡ Ordering.lt
  unfolding compare_lists
  lists_trans [] [] zs e f = absurd (cc)
  lists_trans [] (b ∷ ys) [] e f = absurd (cc)
  lists_trans [] (b ∷ ys) (c ∷ zs) e f = refl
  lists_trans (a ∷ xs) [] zs e f = absurd (cc)
  lists_trans (a ∷ xs) (b ∷ ys) [] e f = absurd (cc)
  lists_trans (a ∷ xs) (b ∷ ys) (c ∷ zs) e f =
      then_by_trans o a b c _ _ _ (lists_trans xs ys zs) e f

  pub compare_lists-IsOrder : IsOrder (compare_lists cmp)
  compare_lists-IsOrder = record {
    same = lists_same;
    equal = lists_equal;
    flip = lists_flip;
    trans = lists_trans;
  }

-- Not behind is transitive, and of two one is not behind the other.
pub not_gt_trans :
    {A : Type 0} {cmp : A → A → Ordering}
    → IsOrder cmp
    → (a b c : A) → cmp a b ≢ Ordering.gt
    → cmp b c ≢ Ordering.gt
    → cmp a c ≢ Ordering.gt
not_gt_trans {cmp} o a b c ab bc ac =
    let ca : cmp c a ≡ Ordering.lt = o.flip a c ∙ ap reverse ac in go (cmp a b) refl
  where
    go : (p : Ordering) → cmp a b ≡ p → ⊥
    go Ordering.lt e = bc (o.flip c b ∙ ap reverse (o.trans c a b (o.flip a c ∙ ap reverse ac) e))
    go Ordering.eq e = bc (ap (λ x. cmp x c) (sym (o.same a b e)) ∙ ac)
    go Ordering.gt e = ab e

pub gt-flip :
    {A : Type 0} {cmp : A → A → Ordering}
    → IsOrder cmp
    → (a b : A) → cmp a b ≡ Ordering.gt
    → cmp b a ≢ Ordering.gt
gt-flip o a b e f = absurd (cc (o.flip a b ∙ ap reverse e))
