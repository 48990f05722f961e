-- ===== src/Client/Inserted.antt =====
-- A reply that joins those to come, anywhere among them.
use cifs_client_stream.Common.{
  ℕ, suc, ◌≡◌, ◌≢◌, refl, sym, ap, List, [], ◌∷◌, ◌++◌, some, All, arith, length,
}
use cifs_client_stream.Client.{PendingReply, find_reply}
use cifs_client_stream.Client.Pool.{mid_of, Distinct}

pub data Inserted (p : PendingReply) : List PendingReply → List PendingReply → Type 0 where
  front : (ps : List PendingReply) → Inserted p ps (p ∷ ps)
  behind :
      (q : PendingReply) {ps ps' : List PendingReply}
      → Inserted p ps ps'
      → Inserted p (q ∷ ps) (q ∷ ps')

pub Inserted-append :
    (p : PendingReply) (qs : List PendingReply) {ps ps' : List PendingReply}
    → Inserted p ps ps'
    → Inserted p (qs ++ ps) (qs ++ ps')
Inserted-append p [] h = h
Inserted-append p (q ∷ qs) h = behind q (Inserted-append p qs h)

pub Inserted-length :
    (p : PendingReply) {ps ps' : List PendingReply}
    → Inserted p ps ps'
    → length ps' ≡ suc (length ps)
Inserted-length p (front ps) = refl
Inserted-length p (behind q h) = ap suc (Inserted-length p h)

pub Inserted-All :
    (P : PendingReply → Type 0) (p : PendingReply) {ps ps' : List PendingReply}
    → Inserted p ps ps'
    → P p
    → All P ps
    → All P ps'
Inserted-All P p (front ps) new old = (new, old)
Inserted-All P p (behind q h) new old = (old.0, Inserted-All P p h new old.1)

-- The reply is found by its id, which no other one has, and the others as before.
pub Inserted-find :
    (p : PendingReply) {ps ps' : List PendingReply}
    → Inserted p ps ps'
    → All (λ q. mid_of q ≢ mid_of p) ps
    → find_reply (mid_of p) ps' ≡ some p
Inserted-find p (front ps) others = ground arith
Inserted-find p (behind q h) others = ground (arith, others.0, Inserted-find p h others.1)

pub Inserted-find_other :
    (p : PendingReply) (m : ℕ) {ps ps' : List PendingReply}
    → Inserted p ps ps'
    → mid_of p ≢ m
    → find_reply m ps' ≡ find_reply m ps
Inserted-find_other p m (front ps) other = ground arith
Inserted-find_other p m (behind q h) other = ground (arith, Inserted-find_other p m h other)

pub Inserted-Distinct :
    (p : PendingReply) {ps ps' : List PendingReply}
    → Inserted p ps ps'
    → All (λ q. mid_of q ≢ mid_of p) ps
    → Distinct ps
    → Distinct ps'
Inserted-Distinct p (front ps) others d = (others, d)
Inserted-Distinct p (behind q h) others d = (
  Inserted-All (λ r. mid_of r ≢ mid_of q) p h (λ e. others.0 (sym e)) d.0,
  Inserted-Distinct p h others.1 d.1,
)
