-- ===== src/Client/Pool.antt =====
-- The replies that are pending or still to come, as one list.
use cifs_client_stream.Common.{
  ℕ, ◌≡◌, ◌≢◌, refl, sym, List, [], ◌∷◌, ◌++◌, none, some, Bool-cases, inl, inr, ◌==◌, ==_iff, All,
  arith, ◌+◌, length,
}
use cifs_client_stream.Client.{PendingReply, find_reply, remove_reply}

abbrev pub mid_of : PendingReply → ℕ
mid_of p = p.info.mid

-- No two replies have the same multiplex id.
abbrev pub Distinct : List PendingReply → Type 0
Distinct [] = Unit {0}
Distinct (p ∷ ps) = All (λ q. mid_of q ≢ mid_of p) ps × Distinct ps

pub find_append_left :
    (m : ℕ) (ps qs : List PendingReply) (p : PendingReply)
    → find_reply m ps ≡ some p
    → find_reply m (ps ++ qs) ≡ some p
find_append_left m [] qs p h = ground arith
find_append_left m (x ∷ ps) qs p h = ground (arith, find_append_left m ps qs p)

pub find_append_right :
    (m : ℕ) (ps qs : List PendingReply)
    → find_reply m ps ≡ none
    → find_reply m (ps ++ qs) ≡ find_reply m qs
find_append_right m [] qs h = refl
find_append_right m (x ∷ ps) qs h = ground (arith, find_append_right m ps qs)

pub remove_append_left :
    (m : ℕ) (ps qs : List PendingReply) (p : PendingReply)
    → find_reply m ps ≡ some p
    → remove_reply m (ps ++ qs) ≡ remove_reply m ps ++ qs
remove_append_left m [] qs p h = ground arith
remove_append_left m (x ∷ ps) qs p h = ground (arith, remove_append_left m ps qs p)

pub remove_append_right :
    (m : ℕ) (ps qs : List PendingReply)
    → find_reply m ps ≡ none
    → remove_reply m (ps ++ qs) ≡ ps ++ remove_reply m qs
remove_append_right m [] qs h = refl
remove_append_right m (x ∷ ps) qs h = ground (arith, remove_append_right m ps qs)

All-middle :
    (P : PendingReply → Type 0) (ps qs : List PendingReply) (q : PendingReply)
    → All P (ps ++ (q ∷ qs))
    → P q
All-middle P [] qs q h = h.0
All-middle P (x ∷ ps) qs q h = All-middle P ps qs q h.1

-- Before a reply with the same id as one behind it nothing of that id stands.
pub find-Distinct :
    (ps qs : List PendingReply) (q : PendingReply)
    → Distinct (ps ++ (q ∷ qs))
    → find_reply (mid_of q) ps ≡ none
find-Distinct [] qs q d = refl
find-Distinct (x ∷ ps) qs q d = elim (Bool-cases (mid_of x == mid_of q)) [
  | inl same ↦ absurd (
      All-middle (λ y. mid_of y ≢ mid_of x) ps qs q d.0
        (sym ((==_iff (mid_of x) (mid_of q)).0 same)))
  | inr other ↦ rw other (find-Distinct ps qs q d.1)
]

-- A reply of another id is found after a removal as before it.
pub find-remove :
    (m n : ℕ) (ps : List PendingReply) → n ≢ m → find_reply n (remove_reply m ps) ≡ find_reply n ps
find-remove m n [] ne = refl
find-remove m n (x ∷ ps) ne = ground (arith, find-remove m n ps)

-- Exactly the reply that is found is removed.
pub length-remove :
    (m : ℕ) (p : PendingReply) (ps : List PendingReply)
    → find_reply m ps ≡ some p
    → length (remove_reply m ps) + 1 ≡ length ps
length-remove m p [] found = absurd (cc)
length-remove m p (x ∷ ps) found = ground (arith, length-remove m p ps)

All-remove :
    (P : PendingReply → Type 0) (m : ℕ) (ps : List PendingReply)
    → All P ps
    → All P (remove_reply m ps)
All-remove P m [] h = tt
All-remove P m (x ∷ ps) h = elim (Bool-cases (mid_of x == m)) [
  | inl here ↦ rw here h.1
  | inr other ↦ rw other (h.0, All-remove P m ps h.1)
]

pub remove-Distinct : (m : ℕ) (ps : List PendingReply) → Distinct ps → Distinct (remove_reply m ps)
remove-Distinct m [] d = tt
remove-Distinct m (x ∷ ps) d = elim (Bool-cases (mid_of x == m)) [
  | inl here ↦ rw here d.1
  | inr other ↦ rw other (All-remove (λ q. mid_of q ≢ mid_of x) m ps d.0, remove-Distinct m ps d.1)
]
