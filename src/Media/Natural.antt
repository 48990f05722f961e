-- ===== src/Media/Natural.antt =====
-- The order of a directory listing (src/lib.rs): folders first, then by names in which a run of
-- digits counts as a number.
mod Tests
pub mod Laws
pub mod Keys
pub mod Sorted
pub mod Names
use Prim.Native.Nat.{Ordering, compare}
use cifs_client_stream.Common.{
  ℕ, zero, suc, List, [], ◌∷◌, Option, Bool, true, false, not, ◌&&◌, leb, ◌==◌, if◌then◌else◌, max,
  length,
}
use cifs_client_stream.Common.Order.{compare_pairs, compare_lists}
use cifs_client_stream.Stream.Buffer.{is_nil}
use cifs_client_stream.Media.{DirInfo, directory_bit}
use cifs_client_stream.Media.Names.{Name}

-- `NaturalToken`, `NaturalNameKey` and `DirectorySortKey`.
pub data NaturalToken : Type 0 where
  number : (significant_len : ℕ) → (significant : Name) → (raw_len : ℕ) → NaturalToken
  text : Name → NaturalToken

abbrev pub NaturalNameKey : Type 0
NaturalNameKey = List NaturalToken

pub record DirectorySortKey : Type 0 where
  pub file : Bool
  pub name : NaturalNameKey

-- Their derived orders: constructors in the order of their declaration, fields in theirs.
abbrev pub compare_names : Name → Name → Ordering
compare_names = compare_lists compare

abbrev pub compare_numbers : ℕ × (Name × ℕ) → ℕ × (Name × ℕ) → Ordering
compare_numbers = compare_pairs compare (compare_pairs compare_names compare)

unfoldable pub compare_tokens : NaturalToken → NaturalToken → Ordering
compare_tokens (number l s r) (number m t k) = compare_numbers (l, (s, r)) (m, (t, k))
compare_tokens (number l s r) (text b) = Ordering.lt
compare_tokens (text a) (number m t k) = Ordering.gt
compare_tokens (text a) (text b) = compare_names a b

abbrev pub compare_bools : Bool → Bool → Ordering
compare_bools false false = Ordering.eq
compare_bools false true = Ordering.lt
compare_bools true false = Ordering.gt
compare_bools true true = Ordering.eq

abbrev pub compare_name_keys : NaturalNameKey → NaturalNameKey → Ordering
compare_name_keys = compare_lists compare_tokens

abbrev pub compare_keys : DirectorySortKey → DirectorySortKey → Ordering
compare_keys j k = compare_pairs compare_bools compare_name_keys (j.file, j.name) (k.file, k.name)

-- `char::is_ascii_digit`, and the inner loops: a run of digits or of other characters, and the rest.
abbrev pub is_digit : ℕ → Bool
is_digit c = leb 48 c && leb c 57

unfoldable pub digit_run : Name → Name × Name
digit_run [] = ([], [])
digit_run (c ∷ cs) =
    let (run, rest) = digit_run cs in if is_digit c then (c ∷ run, rest) else ([], c ∷ cs)

unfoldable pub text_run : Name → Name × Name
text_run [] = ([], [])
text_run (c ∷ cs) =
    let (run, rest) = text_run cs in if is_digit c then ([], c ∷ cs) else (c ∷ run, rest)

-- `trim_start_matches('0')`.
unfoldable pub trim_zeros : Name → Name
trim_zeros [] = []
trim_zeros (c ∷ cs) = let rest = trim_zeros cs in if c == 48 then rest else c ∷ cs

unfoldable pub number_token : Name → NaturalToken
unfolding trim_zeros
number_token raw =
    let significant = trim_zeros raw in
    number (max (length significant) 1) (if is_nil significant then 48 ∷ [] else significant)
      (length raw)

-- The order of a listing, with `str::to_lowercase` as a parameter.
module _ (to_lowercase : Name → Name) where
  -- The loop of `natural_name_key`, on fuel: each turn takes a run off.
  unfoldable pub tokens : ℕ → Name → List NaturalToken
  tokens zero cs = []
  tokens (suc fuel) [] = []
  tokens (suc fuel) (c ∷ cs) =
      let (raw, behind_number) = digit_run (c ∷ cs) in
      let (run, behind_text) = text_run (c ∷ cs) in
      let numbered = tokens fuel behind_number in
      let worded = tokens fuel behind_text in
      if is_digit c then number_token raw ∷ numbered else text (to_lowercase run) ∷ worded

  unfoldable pub natural_name_key : Name → NaturalNameKey
  unfolding tokens
  natural_name_key name = tokens (length name) name

  -- `directory_sort_key`.
  unfoldable pub directory_sort_key : DirInfo → DirectorySortKey
  unfolding natural_name_key
  directory_sort_key entry = record {
    file = not (directory_bit entry.attributes);
    name = natural_name_key entry.filename;
  }

  -- `sort_by_cached_key` of a slice, which keeps entries with equal keys in their order.
  abbrev pub place_entry : Ordering → DirInfo → DirInfo → List DirInfo → List DirInfo → List DirInfo
  place_entry Ordering.gt e f behind whole = f ∷ behind
  place_entry Ordering.lt e f behind whole = e ∷ f ∷ whole
  place_entry Ordering.eq e f behind whole = e ∷ f ∷ whole

  unfoldable pub insert_entry : DirInfo → List DirInfo → List DirInfo
  insert_entry e [] = e ∷ []
  insert_entry e (f ∷ fs) =
      place_entry (compare_keys (directory_sort_key e) (directory_sort_key f)) e f
        (insert_entry e fs) fs

  -- `sort_dir_entries`.
  unfoldable pub sort_dir_entries : List DirInfo → List DirInfo
  unfolding insert_entry
  sort_dir_entries [] = []
  sort_dir_entries (e ∷ es) = insert_entry e (sort_dir_entries es)
