-- ===== src/Smb/Collector/Tests.antt =====
-- Three fragments of a buffer of six bytes, arriving out of order.
use cifs_client_stream.Common.{◌≡◌, refl, [], ◌∷◌, some, ok, arith}
use cifs_client_stream.Smb.Collector.{Fragment, Collector, get, assemble}
use cifs_client_stream.Smb.Collector.Laws.{Reordered, swap, keep, chain, Distinct, get-Reordered}

abbrev front : Fragment
front = record { offset = 0; bytes = 1 ∷ 2 ∷ [] }

abbrev middle : Fragment
middle = record { offset = 2; bytes = 3 ∷ 4 ∷ 5 ∷ [] }

abbrev back : Fragment
back = record { offset = 5; bytes = 6 ∷ [] }

arrival : Reordered (back ∷ front ∷ middle ∷ []) (front ∷ middle ∷ back ∷ [])
arrival = chain (swap back front (middle ∷ [])) (keep front (swap back middle []))

arrival-Distinct : Distinct (back ∷ front ∷ middle ∷ [])
arrival-Distinct = (
  (λ e. absurd (omega (arith, e)), (λ e. absurd (omega (arith, e)), tt)),
  ((λ e. absurd (omega (arith, e)), tt), (tt, tt)),
)

get-Reordered_example :
    get (record { fragments = back ∷ front ∷ middle ∷ []; total = some 6 })
    ≡ get (record { fragments = front ∷ middle ∷ back ∷ []; total = some 6 })
get-Reordered_example =
    get-Reordered (back ∷ front ∷ middle ∷ []) (front ∷ middle ∷ back ∷ []) (some 6) arrival
      arrival-Distinct

abbrev whole : Collector
whole = record { fragments = back ∷ front ∷ middle ∷ []; total = some 6 }

get-whole : get whole ≡ ok (1 ∷ 2 ∷ 3 ∷ 4 ∷ 5 ∷ 6 ∷ [])
unfolding get assemble
get-whole = refl
