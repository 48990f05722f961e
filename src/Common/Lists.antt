-- ===== src/Common/Lists.antt =====
-- Lists measured and cut by native numbers, under the library's names.
use Prim.Native.Nat.{ℕ, zero, suc, ◌+◌, ◌-◌, ◌≤◌, min}
use mathlib.Core.Path.{◌≡◌, refl, sym, ap, ◌∙◌}
use mathlib.Core.Logic.{◌⊎◌}
use mathlib.Core.List.{List, [], ◌∷◌, ◌++◌}
use mathlib.Core.Option.{Option, none, some}
use native.Mathlib.Omega.{arith}

module _ {ℓ} {A : Type ℓ} where
  abbrev pub length : List A → ℕ
  length [] = 0
  length (x ∷ xs) = suc (length xs)

  abbrev pub take : ℕ → List A → List A
  take zero xs = []
  take (suc n) [] = []
  take (suc n) (x ∷ xs) = x ∷ take n xs

  abbrev pub drop : ℕ → List A → List A
  drop zero xs = xs
  drop (suc n) [] = []
  drop (suc n) (x ∷ xs) = drop n xs

  abbrev pub get_elem? : List A → ℕ → Option A
  get_elem? [] i = none
  get_elem? (x ∷ xs) zero = some x
  get_elem? (x ∷ xs) (suc i) = get_elem? xs i

  abbrev pub replicate : ℕ → A → List A
  replicate zero a = []
  replicate (suc n) a = a ∷ replicate n a

  abbrev pub All {κ} : (A → Type κ) → List A → Type κ
  All P [] = Unit {κ}
  All P (x ∷ xs) = P x × All P xs

  pub length-append : (xs ys : List A) → length (xs ++ ys) ≡ length xs + length ys
  length-append [] ys = omega arith
  length-append (x ∷ xs) ys = omega (arith, length-append xs ys)

  pub take-append-drop : (n : ℕ) (xs : List A) → take n xs ++ drop n xs ≡ xs
  take-append-drop zero xs = refl
  take-append-drop (suc n) [] = refl
  take-append-drop (suc n) (x ∷ xs) = ap (λ l. x ∷ l) (take-append-drop n xs)

  pub length-take : (n : ℕ) (xs : List A) → length (take n xs) ≡ min n (length xs)
  length-take zero xs = omega arith
  length-take (suc n) [] = omega arith
  length-take (suc n) (x ∷ xs) = omega (arith, length-take n xs)

  pub length-drop : (n : ℕ) (xs : List A) → length (drop n xs) ≡ length xs - n
  length-drop zero xs = omega arith
  length-drop (suc n) [] = omega arith
  length-drop (suc n) (x ∷ xs) = omega (arith, length-drop n xs)

  pub length-replicate : (n : ℕ) (a : A) → length (replicate n a) ≡ n
  length-replicate zero a = refl
  length-replicate (suc n) a = ap suc (length-replicate n a)

  pub take_all : (n : ℕ) (xs : List A) → length xs ≤ n → take n xs ≡ xs
  take_all zero [] h = refl
  take_all zero (x ∷ xs) h = absurd (omega arith)
  take_all (suc n) [] h = refl
  take_all (suc n) (x ∷ xs) h = ap (λ l. x ∷ l) (take_all n xs (omega arith))

  pub drop_all : (n : ℕ) (xs : List A) → length xs ≤ n → drop n xs ≡ []
  drop_all zero [] h = refl
  drop_all zero (x ∷ xs) h = absurd (omega arith)
  drop_all (suc n) [] h = refl
  drop_all (suc n) (x ∷ xs) h = drop_all n xs (omega arith)

  -- A cut inside the first part.
  pub take-append_left : (n : ℕ) (xs ys : List A) → n ≤ length xs → take n (xs ++ ys) ≡ take n xs
  take-append_left zero xs ys h = refl
  take-append_left (suc n) [] ys h = absurd (omega arith)
  take-append_left (suc n) (x ∷ xs) ys h = ap (λ l. x ∷ l) (take-append_left n xs ys (omega arith))

  pub drop-append_left :
      (n : ℕ) (xs ys : List A) → n ≤ length xs → drop n (xs ++ ys) ≡ drop n xs ++ ys
  drop-append_left zero xs ys h = refl
  drop-append_left (suc n) [] ys h = absurd (omega arith)
  drop-append_left (suc n) (x ∷ xs) ys h = drop-append_left n xs ys (omega arith)

  -- A cut exactly between, and behind, the first part.
  pub take-append_self : (xs ys : List A) → take (length xs) (xs ++ ys) ≡ xs
  take-append_self [] ys = refl
  take-append_self (x ∷ xs) ys = ap (λ l. x ∷ l) (take-append_self xs ys)

  pub drop-append_self : (xs ys : List A) → drop (length xs) (xs ++ ys) ≡ ys
  drop-append_self [] ys = refl
  drop-append_self (x ∷ xs) ys = drop-append_self xs ys

  -- A cut behind the first part.
  pub take-append_right :
      (n : ℕ) (xs ys : List A) → length xs ≤ n → take n (xs ++ ys) ≡ xs ++ take (n - length xs) ys
  take-append_right n [] ys h = let e : n ≡ n - 0 = omega arith in ap (λ k. take k ys) e
  take-append_right zero (x ∷ xs) ys h = absurd (omega arith)
  take-append_right (suc n) (x ∷ xs) ys h =
      let e : n - length xs ≡ suc n - suc (length xs) = omega arith in
      ap (λ l. x ∷ l) (take-append_right n xs ys (omega arith) ∙ ap (λ k. xs ++ take k ys) e)

  pub drop-append_right :
      (n : ℕ) (xs ys : List A) → length xs ≤ n → drop n (xs ++ ys) ≡ drop (n - length xs) ys
  drop-append_right n [] ys h = let e : n ≡ n - 0 = omega arith in ap (λ k. drop k ys) e
  drop-append_right zero (x ∷ xs) ys h = absurd (omega arith)
  drop-append_right (suc n) (x ∷ xs) ys h =
      let e : n - length xs ≡ suc n - suc (length xs) = omega arith in
      drop-append_right n xs ys (omega arith) ∙ ap (λ k. drop k ys) e

pub drop-nil {ℓ} : (A : Type ℓ) (n : ℕ) → drop {A = A} n [] ≡ []
drop-nil A zero = refl
drop-nil A (suc n) = refl

pub take-nil {ℓ} : (A : Type ℓ) (n : ℕ) → take {A = A} n [] ≡ []
take-nil A zero = refl
take-nil A (suc n) = refl

pub drop-drop {ℓ} : {A : Type ℓ} (m n : ℕ) (xs : List A) → drop n (drop m xs) ≡ drop (m + n) xs
drop-drop zero n xs = let e : n ≡ zero + n = omega arith in ap (λ k. drop k xs) e
drop-drop {A} (suc m) n [] = rw (drop-nil A n, drop-nil A (suc m + n))
drop-drop (suc m) n (x ∷ xs) =
    drop-drop m n xs
    ∙ (let e : suc (m + n) ≡ suc m + n = omega arith in ap (λ k. drop k (x ∷ xs)) e)

-- Two cuts, one behind the other, are one.
pub take-append-take {ℓ} :
    {A : Type ℓ} (m n : ℕ) (xs : List A) → take m xs ++ take n (drop m xs) ≡ take (m + n) xs
take-append-take zero n xs = let e : n ≡ zero + n = omega arith in ap (λ k. take k xs) e
take-append-take {A} (suc m) n [] = rw (take-nil A n, take-nil A (suc m + n))
take-append-take (suc m) n (x ∷ xs) =
    ap (λ l. x ∷ l) (take-append-take m n xs)
    ∙ (let e : suc (m + n) ≡ suc m + n = omega arith in ap (λ k. take k (x ∷ xs)) e)

pub take-take {ℓ} : {A : Type ℓ} (m n : ℕ) (xs : List A) → take m (take n xs) ≡ take (min m n) xs
take-take zero n xs = let e : 0 ≡ min 0 n = omega arith in ap (λ k. take k xs) e
take-take {A} (suc m) zero xs = let e : 0 ≡ min (suc m) 0 = omega arith in ap (λ k. take k xs) e
take-take {A} (suc m) (suc n) [] = sym (take-nil A (min (suc m) (suc n)))
take-take (suc m) (suc n) (x ∷ xs) =
    ap (λ l. x ∷ l) (take-take m n xs)
    ∙ (let e : suc (min m n) ≡ min (suc m) (suc n) = omega arith in ap (λ k. take k (x ∷ xs)) e)

pub drop-take {ℓ} :
    {A : Type ℓ} (m n : ℕ) (xs : List A) → m ≤ n → drop m (take n xs) ≡ take (n - m) (drop m xs)
drop-take zero n xs h = let e : n ≡ n - 0 = omega arith in ap (λ k. take k xs) e
drop-take (suc m) zero xs h = absurd (omega arith)
drop-take {A} (suc m) (suc n) [] h = sym (take-nil A (suc n - suc m))
drop-take (suc m) (suc n) (x ∷ xs) h =
    drop-take m n xs (omega arith)
    ∙ (let e : n - m ≡ suc n - suc m = omega arith in ap (λ k. take k (drop m xs)) e)

-- A cut at `n` does not matter where it is behind `m` or behind the end.
pub take-min {ℓ} :
    {A : Type ℓ} (m n : ℕ) (xs : List A) → (m ≤ n) ⊎ (length xs ≤ n) → take (min m n) xs ≡ take m xs
take-min zero n xs h = let e : min 0 n ≡ 0 = omega arith in ap (λ k. take k xs) e
take-min {A} (suc m) n [] h = take-nil A (min (suc m) n)
take-min (suc m) zero (x ∷ xs) h = absurd (omega arith)
take-min (suc m) (suc n) (x ∷ xs) h =
    (let e : min (suc m) (suc n) ≡ suc (min m n) = omega arith in ap (λ k. take k (x ∷ xs)) e)
    ∙ ap (λ l. x ∷ l) (take-min m n xs (omega arith))
