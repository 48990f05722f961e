-- ===== src/Smb/Collector.antt =====
-- `Collector` and `CollectTrans2` of src/smb/trans2/collector.rs. A refused fragment drops the
-- collector together with the call that fails. The texts of the errors leave their numbers out.
pub mod Laws
mod Tests
use cifs_client_stream.Common.{
  ℕ, ◌+◌, List, [], ◌∷◌, ◌++◌, Option, none, some, Bool, true, false, ◌&&◌, ◌||◌, leb, ltb, not,
  ◌==◌, if◌then◌else◌, Result, ok, err, ◌>>=◌, length,
}
use cifs_client_stream.Stream.Buffer.{Bytes, is_nil}
use cifs_client_stream.Smb.Codes.{SmbError, invalid_data, reassemble}

-- An entry of the map `fragments`.
pub record Fragment : Type 0 where
  pub offset : ℕ
  pub bytes : Bytes

pub record Collector : Type 0 where
  pub fragments : List Fragment
  pub total : Option ℕ

-- `Collector::new`.
abbrev pub new_collector : Collector
new_collector = record { fragments = []; total = none }

unfoldable pub has_offset : ℕ → List Fragment → Bool
has_offset offset [] = false
has_offset offset (f ∷ fs) = f.offset == offset || has_offset offset fs

-- `Collector::add` behind its check of the total.
unfoldable pub add_fragment : Bytes → ℕ → Collector → Result SmbError Collector
unfolding has_offset
add_fragment bytes offset c =
    if is_nil bytes
    then ok c
    else if has_offset offset c.fragments
    then err (reassemble "got fragment at the same offset twice")
    else ok (record c { fragments = record { offset = offset; bytes = bytes } ∷ c.fragments })

-- The check of the total: the first one is kept, and another one is refused.
unfoldable pub check_total : ℕ → Option ℕ → Collector → Result SmbError Collector
check_total total none c = ok (record c { total = some total })
check_total total (some saved) c =
    if not (saved == total)
    then err (reassemble "server changed it's mind about total packet size")
    else ok c

-- `Collector::add`.
unfoldable pub add : Bytes → ℕ → ℕ → Collector → Result SmbError Collector
unfolding check_total add_fragment
add bytes offset total c = check_total total c.total c >>= add_fragment bytes offset

abbrev pub sum_lengths : List Fragment → ℕ
sum_lengths [] = 0
sum_lengths (f ∷ fs) = length f.bytes + sum_lengths fs

-- `Collector::len`.
abbrev pub collected : Collector → ℕ
collected c = sum_lengths c.fragments

-- `Collector::is_ready`.
pub is_ready : Collector → Bool
is_ready c = elim c.total [ some total ↦ leb total (collected c) | none ↦ false ]

-- `sorted()` on the entries: no two have the same offset, so their order is that of the offsets.
abbrev pub place : Fragment → List Fragment → List Fragment
place f [] = f ∷ []
place f (g ∷ gs) = let rest = place f gs in if ltb f.offset g.offset then f ∷ g ∷ gs else g ∷ rest

abbrev pub sorted : List Fragment → List Fragment
sorted [] = []
sorted (f ∷ fs) = place f (sorted fs)

-- The `for` loop of `Collector::get`.
unfoldable pub assemble : Bytes → List Fragment → Result SmbError Bytes
assemble buffer [] = ok buffer
assemble buffer (f ∷ fs) =
    let rest = assemble (buffer ++ f.bytes) fs in
    if not (length buffer == f.offset) then err (reassemble "offset mismatch") else rest

-- `Collector::get`.
unfoldable pub get : Collector → Result SmbError Bytes
unfolding assemble
get c = elim c.total [
  | none ↦ err invalid_data
  | some total ↦
      if not (collected c == total)
      then err (reassemble "length does not match")
      else assemble [] (sorted c.fragments)
]

-- `CollectTrans2`; `content` is its field `data`, and so is `bytes` in `Part`.
pub record CollectTrans2 : Type 0 where
  pub parameter : Collector
  pub content : Collector

abbrev pub new_collect : CollectTrans2
new_collect = record { parameter = new_collector; content = new_collector }

-- What `CollectTrans2::add` takes of a reply.
pub record Part : Type 0 where
  pub parameter : Bytes
  pub parameter_offset : ℕ
  pub parameter_total : ℕ
  pub bytes : Bytes
  pub data_offset : ℕ
  pub data_total : ℕ

-- `CollectTrans2::add`.
pub add_part : Part → CollectTrans2 → Result SmbError (Bool × CollectTrans2)
unfolding add is_ready
add_part m c = do
  parameter ← add m.parameter m.parameter_offset m.parameter_total c.parameter
  content ← add m.bytes m.data_offset m.data_total c.content
  ok (is_ready parameter && is_ready content, record { parameter = parameter; content = content })
