-- ===== src/Media/Indices.antt =====
-- The indices of the entries that pass a test.
use cifs_client_stream.Common.{
  ℕ, zero, suc, ◌+◌, ◌<◌, ◌≡◌, refl, ◌⊎◌, inl, inr, List, [], ◌∷◌, some, Bool, true, false,
  if◌then◌else◌, All, arith, get_elem?, subst,
}
use cifs_client_stream.Media.{MediaEntry, indices_from}

abbrev pub Listed : ℕ → List ℕ → Type 0
Listed i [] = ⊥
Listed i (x ∷ xs) = (i ≡ x) ⊎ Listed i xs

-- An entry at the index that passes the test.
abbrev pub Passes : (MediaEntry → Bool) → List MediaEntry → ℕ → Type 0
Passes test entries j = (e : MediaEntry) × (get_elem? entries j ≡ some e) × (test e ≡ true)

Passes-behind :
    (test : MediaEntry → Bool) (k i : ℕ) (e : MediaEntry) (es : List MediaEntry)
    → (j : ℕ) × (i ≡ suc k + j) × Passes test es j
    → (j : ℕ) × (i ≡ k + j) × Passes test (e ∷ es) j
Passes-behind test k i e es (j, at, passes) = (suc j, omega (arith, at), passes)

pub indices_from-Passes :
    (test : MediaEntry → Bool) (k i : ℕ) (es : List MediaEntry)
    → Listed i (indices_from test k es)
    → (j : ℕ) × (i ≡ k + j) × Passes test es j
indices_from-Passes test k i [] h = absurd h
indices_from-Passes test k i (e ∷ es) h = go (test e) refl (indices_from-Passes test (suc k) i es) h
  where
    go :
        (b : Bool)
        → test e ≡ b
        → (Listed i (indices_from test (suc k) es) → (j : ℕ) × (i ≡ suc k + j) × Passes test es j)
        → Listed i (if b then k ∷ indices_from test (suc k) es else indices_from test (suc k) es)
        → (j : ℕ) × (i ≡ k + j) × Passes test (e ∷ es) j
    go true t later (inl here) = (0, omega (arith, here), (e, refl, t))
    go true t later (inr rest) = Passes-behind test k i e es (later rest)
    go false t later rest = Passes-behind test k i e es (later rest)

Listed-behind :
    (b : Bool) (i k : ℕ) (rest : List ℕ) → Listed i rest → Listed i (if b then k ∷ rest else rest)
Listed-behind true i k rest h = inr h
Listed-behind false i k rest h = h

pub Passes-Listed :
    (test : MediaEntry → Bool) (k j : ℕ) (es : List MediaEntry)
    → Passes test es j
    → Listed (k + j) (indices_from test k es)
Passes-Listed test k j [] (e, h, t) = absurd (cc)
Passes-Listed test k zero (x ∷ es) (e, h, t) =
    let taken : test x ≡ true = cc in rw taken (inl (omega arith))
Passes-Listed test k (suc j) (x ∷ es) (e, h, t) =
    let later = Passes-Listed test (suc k) j es (e, h, t) in
    let same : suc k + j ≡ k + suc j = omega arith in
    Listed-behind (test x) (k + suc j) k (indices_from test (suc k) es)
      (subst (λ n. Listed n (indices_from test (suc k) es)) same later)

abbrev pub Ascending : List ℕ → Type 0
Ascending [] = Unit {0}
Ascending (x ∷ xs) = All (λ y. x < y) xs × Ascending xs

All-above :
    (test : MediaEntry → Bool) (k l : ℕ) (es : List MediaEntry)
    → k < l
    → All (λ j. k < j) (indices_from test l es)
All-above test k l [] lt = tt
All-above test k l (e ∷ es) lt = go (test e) (All-above test k (suc l) es (omega arith))
  where
    go :
        (b : Bool)
        → All (λ j. k < j) (indices_from test (suc l) es)
        → All
            (λ j. k < j)
            (if b then l ∷ indices_from test (suc l) es else indices_from test (suc l) es)
    go true rest = (lt, rest)
    go false rest = rest

pub indices_from-Ascending :
    (test : MediaEntry → Bool) (k : ℕ) (es : List MediaEntry) → Ascending (indices_from test k es)
indices_from-Ascending test k [] = tt
indices_from-Ascending test k (e ∷ es) =
    go (test e) (indices_from-Ascending test (suc k) es) (All-above test k (suc k) es (omega arith))
  where
    go :
        (b : Bool)
        → Ascending (indices_from test (suc k) es)
        → All (λ j. k < j) (indices_from test (suc k) es)
        → Ascending (if b then k ∷ indices_from test (suc k) es else indices_from test (suc k) es)
    go true rest above = (above, rest)
    go false rest above = rest
