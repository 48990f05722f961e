-- ===== src/Smb/Trans2/Search/Pages.antt =====
-- The pages of a directory search: what FindFirst2 and FindNext2 make of the same entries.
use cifs_client_stream.Common.{
  ℕ, zero, suc, ◌+◌, ◌-◌, ◌^◌, ◌≤◌, ◌<◌, ◌≡◌, refl, ap, List, [], ◌∷◌, ◌++◌, append-nil, some, true,
  false, not, ◌&&◌, ltb, leb, ◌==◌, arith, All, length, length-append, map, done, fails,
}
use cifs_client_stream.Stream.Buffer.{Bytes}
use cifs_client_stream.Smb.Codes.{invalid_data}
use cifs_client_stream.Smb.Wire.{Wire}
use cifs_client_stream.Smb.Wire.Plain.{plain, IsWire, of_plain, le_bytes, skip}
use cifs_client_stream.Smb.Wire.Laws.{read_le-le_bytes, length-le_bytes}
use cifs_client_stream.Smb.Trans2.Search.{entries, first_size, next_size, find_first2, find_next2}
use cifs_client_stream.Smb.Trans2.Search.Laws.{
  Sent, IsSent, sent_bytes, received, list_bytes, entry_of_size_lem, entry_of_size_fails,
  length-sent_bytes, length-list_bytes,
}
use cifs_client_stream.Utils.{Chrono}

entries_end : (chrono : Chrono) (fuel : ℕ) → entries plain chrono first_size fuel [] ≡ done ([], [])
unfolding entries
entries_end chrono zero = refl
entries_end chrono (suc fuel) = refl

entries-received :
    (chrono : Chrono) (ss : List Sent) (fuel : ℕ)
    → All IsSent ss
    → length ss ≤ fuel
    → entries plain chrono first_size fuel (list_bytes ss) ≡ done (map (received chrono) ss, [])
unfolding entries
entries-received chrono [] fuel v enough = entries_end chrono fuel
entries-received chrono (s ∷ ss) zero v enough = absurd (omega (arith, enough))
entries-received chrono (s ∷ []) (suc fuel) v enough =
    let filled : (length (le_bytes 4 0 ++ sent_bytes s) == 0) ≡ false =
      ground (arith, length-append (le_bytes 4 0) (sent_bytes s), length-sent_bytes s) in
    let four : ltb (length (le_bytes 4 0 ++ sent_bytes s)) 4 ≡ false =
      ground (arith, length-append (le_bytes 4 0) (sent_bytes s), length-le_bytes 4 0) in
    let some_left : (length (sent_bytes s) == 0) ≡ false = ground (arith, length-sent_bytes s) in
    rw (filled, four, read_le-le_bytes 4 0 (sent_bytes s) (omega arith), some_left)
      (rw (append-nil (sent_bytes s)) at (
        entry_of_size_lem chrono s [] [] [] (entries plain chrono first_size fuel) v.0
          (entries_end chrono fuel)))
entries-received chrono (s ∷ t ∷ ss) (suc fuel) v enough =
    let n = length (sent_bytes s) in
    let rest = sent_bytes s ++ list_bytes (t ∷ ss) in
    let all = length (le_bytes 4 (4 + n) ++ rest) in
    let filled : (all == 0) ≡ false =
      ground (arith, length-append (le_bytes 4 (4 + n)) rest, length-le_bytes 4 (4 + n)) in
    let four : ltb all 4 ≡ false =
      ground (arith, length-append (le_bytes 4 (4 + n)) rest, length-le_bytes 4 (4 + n)) in
    let next : (4 + n == 0) ≡ false = ground arith in
    let more : leb 4 (4 + n) ≡ true = ground arith in
    let size : 4 + n - 4 ≡ n = omega arith in
    let some_left : (n == 0) ≡ false = ground (arith, length-sent_bytes s) in
    let small : 4 + n < 256 ^ 4 = omega (arith, length-sent_bytes s, v.0.name_short) in
    rw (filled, four, read_le-le_bytes 4 (4 + n) rest small, next, more, size, some_left)
      (entry_of_size_lem chrono s (list_bytes (t ∷ ss)) (map (received chrono) (t ∷ ss)) []
        (entries plain chrono first_size fuel) v.0
        (entries-received chrono (t ∷ ss) fuel v.1 (omega (arith, enough))))

-- The same bytes under FindNext2, which refuses the last entry.
entries_refused :
    (chrono : Chrono) (s : Sent) (ss : List Sent) (fuel : ℕ)
    → All IsSent (s ∷ ss)
    → length (s ∷ ss) ≤ fuel
    → entries plain chrono next_size fuel (list_bytes (s ∷ ss)) ≡ fails invalid_data
unfolding entries
entries_refused chrono s ss zero v enough = absurd (omega (arith, enough))
entries_refused chrono s [] (suc fuel) v enough =
    let filled : (length (le_bytes 4 0 ++ sent_bytes s) == 0) ≡ false =
      ground (arith, length-append (le_bytes 4 0) (sent_bytes s), length-sent_bytes s) in
    let four : ltb (length (le_bytes 4 0 ++ sent_bytes s)) 4 ≡ false =
      ground (arith, length-append (le_bytes 4 0) (sent_bytes s), length-le_bytes 4 0) in
    rw (filled, four, read_le-le_bytes 4 0 (sent_bytes s) (omega arith)) refl
entries_refused chrono s (t ∷ ss) (suc fuel) v enough =
    let n = length (sent_bytes s) in
    let rest = sent_bytes s ++ list_bytes (t ∷ ss) in
    let all = length (le_bytes 4 (4 + n) ++ rest) in
    let filled : (all == 0) ≡ false =
      ground (arith, length-append (le_bytes 4 (4 + n)) rest, length-le_bytes 4 (4 + n)) in
    let four : ltb all 4 ≡ false =
      ground (arith, length-append (le_bytes 4 (4 + n)) rest, length-le_bytes 4 (4 + n)) in
    let next : ltb (4 + n) 4 ≡ false = ground arith in
    let size : 4 + n - 4 ≡ n = omega arith in
    let some_left : (n == 0) ≡ false = ground (arith, length-sent_bytes s) in
    let small : 4 + n < 256 ^ 4 = omega (arith, length-sent_bytes s, v.0.name_short) in
    rw (filled, four, read_le-le_bytes 4 (4 + n) rest small, next, size, some_left)
      (entry_of_size_fails chrono s (list_bytes (t ∷ ss)) invalid_data
        (entries plain chrono next_size fuel) v.0
        (entries_refused chrono t ss fuel v.1 (omega (arith, enough))))

-- The parameter words of both replies, with the offset of the last entry behind them.
abbrev pub first_words : ℕ → ℕ → ℕ → ℕ → ℕ → Bytes → Bytes
first_words sid count end ea last rest =
    le_bytes 2 sid
    ++ (le_bytes 2 count ++ (le_bytes 2 end ++ (le_bytes 2 ea ++ (le_bytes 2 last ++ rest))))

abbrev pub next_words : ℕ → ℕ → ℕ → ℕ → Bytes → Bytes
next_words count end ea last rest =
    le_bytes 2 count ++ (le_bytes 2 end ++ (le_bytes 2 ea ++ (le_bytes 2 last ++ rest)))

ten :
    (sid count end ea last : ℕ) (rest : Bytes)
    → ltb (length (first_words sid count end ea last rest)) 10 ≡ false
unfolding le_bytes
ten sid count end ea last rest = ground arith

eight :
    (count end ea last : ℕ) (rest : Bytes)
    → ltb (length (next_words count end ea last rest)) 4 ≡ false
unfolding le_bytes
eight count end ea last rest = ground arith

length-map : (chrono : Chrono) (ss : List Sent) → length (map (received chrono) ss) ≡ length ss
length-map chrono [] = refl
length-map chrono (s ∷ ss) = ap suc (length-map chrono ss)

skip_ea : (x : ℕ) (rest : Bytes) → skip 2 (le_bytes 2 x ++ rest) ≡ some rest
unfolding skip le_bytes
skip_ea x rest = refl

plain_first :
    (chrono : Chrono) (s : Sent) (ss : List Sent) (sid end ea last : ℕ) (rest : Bytes)
    → All IsSent (s ∷ ss)
    → sid < 65536
    → end < 65536
    → length (s ∷ ss) < 65536
    → find_first2 plain chrono
        (first_words sid (length (s ∷ ss)) end ea last rest)
        (list_bytes (s ∷ ss))
      ≡ done (record { sid = sid; end = not (end == 0); info = map (received chrono) (s ∷ ss) })
unfolding find_first2
plain_first chrono s ss sid end ea last rest v i e c =
    let n = length (s ∷ ss) in
    let same : (length (map (received chrono) (s ∷ ss)) == n) ≡ true =
      ground (arith, length-map chrono (s ∷ ss)) in
    let filled : (not (not (end == 0)) && n == 0) ≡ false = ground arith in
    rw
      (
        ten sid n end ea last rest,
        read_le-le_bytes 2 sid _ i,
        read_le-le_bytes 2 n _ c,
        read_le-le_bytes 2 end _ e,
        skip_ea ea,
        entries-received chrono (s ∷ ss) (length (list_bytes (s ∷ ss))) v
            (length-list_bytes (s ∷ ss)),
        same,
        filled,
      )
      refl

plain_next :
    (chrono : Chrono) (s : Sent) (ss : List Sent) (count end ea last : ℕ) (rest : Bytes)
    → All IsSent (s ∷ ss)
    → end < 65536
    → count < 65536
    → find_next2 plain chrono (next_words count end ea last rest) (list_bytes (s ∷ ss))
      ≡ fails invalid_data
unfolding find_next2
plain_next chrono s ss count end ea last rest v e c =
    rw
      (
        eight count end ea last rest,
        read_le-le_bytes 2 count _ c,
        read_le-le_bytes 2 end _ e,
        entries_refused chrono s ss (length (list_bytes (s ∷ ss))) v (length-list_bytes (s ∷ ss)),
      )
      refl

-- A list of entries in which each gives the distance to the next one, and the last gives 0: the reply
-- to FindFirst2 is read as exactly these entries, and the reply to FindNext2 with the same bytes is
-- refused.
pub find_first2-find_next2 :
    (wire : Wire)
    → IsWire wire
    → (chrono : Chrono) (s : Sent) (ss : List Sent) (sid end ea last : ℕ) (rest : Bytes)
    → All IsSent (s ∷ ss)
    → sid < 65536
    → end < 65536
    → length (s ∷ ss) < 65536
    → (find_first2 wire chrono
          (first_words sid (length (s ∷ ss)) end ea last rest)
          (list_bytes (s ∷ ss))
        ≡ done (record { sid = sid; end = not (end == 0); info = map (received chrono) (s ∷ ss) }))
      × (find_next2 wire chrono
            (next_words (length (s ∷ ss)) end ea last rest)
            (list_bytes (s ∷ ss))
          ≡ fails invalid_data)
find_first2-find_next2 wire w chrono s ss sid end ea last rest v i e c =
    of_plain
      (λ wire.
        (find_first2 wire chrono (first_words sid (length (s ∷ ss)) end ea last rest)
            (list_bytes (s ∷ ss))
          ≡ done
              (record { sid = sid; end = not (end == 0); info = map (received chrono) (s ∷ ss) }))
        × (find_next2 wire chrono (next_words (length (s ∷ ss)) end ea last rest)
              (list_bytes (s ∷ ss))
            ≡ fails invalid_data))
      wire w
      (
        plain_first chrono s ss sid end ea last rest v i e c,
        plain_next chrono s ss (length (s ∷ ss)) end ea last rest v e c,
      )
