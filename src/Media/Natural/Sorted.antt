-- ===== src/Media/Natural/Sorted.antt =====
-- A sorted listing: the same entries, folders first, each not behind the next.
use Prim.Native.Nat.{Ordering}
use mathlib.Core.List.{Perm}
use mathlib.Core.List.Perm
use cifs_client_stream.Common.{◌≡◌, ◌≢◌, refl, sym, ◌∙◌, List, [], ◌∷◌, Bool, true, false, All}
use cifs_client_stream.Common.Order.{not_gt_trans, gt-flip}
use cifs_client_stream.Media.{DirInfo, directory_bit}
use cifs_client_stream.Media.Names.{Name}
use cifs_client_stream.Media.Natural.{
  NaturalToken, compare_keys, directory_sort_key, place_entry, insert_entry, sort_dir_entries,
}
use cifs_client_stream.Media.Natural.Keys.{keys-IsOrder}

module _ (to_lowercase : Name → Name) where
  abbrev key_of : DirInfo → Bool × List NaturalToken
  key_of e = let k = directory_sort_key to_lowercase e in (k.file, k.name)

  abbrev NotBehind : DirInfo → DirInfo → Type 0
  NotBehind e f =
      compare_keys (directory_sort_key to_lowercase e) (directory_sort_key to_lowercase f)
      ≢ Ordering.gt

  abbrev pub Ordered : List DirInfo → Type 0
  Ordered [] = Unit {0}
  Ordered (e ∷ es) = All (NotBehind e) es × Ordered es

  -- Behind a file come only files.
  abbrev pub FoldersFirst : List DirInfo → Type 0
  FoldersFirst [] = Unit {0}
  FoldersFirst (e ∷ es) =
      (directory_bit e.attributes ≡ false → All (λ f. directory_bit f.attributes ≡ false) es)
      × FoldersFirst es

  NotBehind-trans : (e f g : DirInfo) → NotBehind e f → NotBehind f g → NotBehind e g
  NotBehind-trans e f g h k = not_gt_trans keys-IsOrder (key_of e) (key_of f) (key_of g) h k

  All-NotBehind :
      (e f : DirInfo) (fs : List DirInfo)
      → NotBehind e f
      → All (NotBehind f) fs
      → All (NotBehind e) fs
  All-NotBehind e f [] h all = tt
  All-NotBehind e f (g ∷ gs) h all = (NotBehind-trans e f g h all.0, All-NotBehind e f gs h all.1)

  insert_entry-All :
      (P : DirInfo → Type 0) (e : DirInfo) (fs : List DirInfo)
      → P e
      → All P fs
      → All P (insert_entry to_lowercase e fs)
  unfolding insert_entry
  insert_entry-All P e [] h all = (h, tt)
  insert_entry-All P e (f ∷ fs) h all = go (insert_entry-All P e fs h all.1) _
    where
      go :
          All P (insert_entry to_lowercase e fs)
          → (o : Ordering)
          → All P (place_entry to_lowercase o e f (insert_entry to_lowercase e fs) fs)
      go later Ordering.lt = (h, all)
      go later Ordering.eq = (h, all)
      go later Ordering.gt = (all.0, later)

  insert_entry-Ordered :
      (e : DirInfo) (fs : List DirInfo) → Ordered fs → Ordered (insert_entry to_lowercase e fs)
  unfolding insert_entry
  insert_entry-Ordered e [] v = (tt, tt)
  insert_entry-Ordered e (f ∷ fs) v = go (insert_entry-Ordered e fs v.1) _ refl
    where
      before : NotBehind e f → Ordered (e ∷ f ∷ fs)
      before h = ((h, All-NotBehind e f fs h v.0), v)

      go :
          Ordered (insert_entry to_lowercase e fs)
          → (o : Ordering)
          → compare_keys (directory_sort_key to_lowercase e) (directory_sort_key to_lowercase f) ≡ o
          → Ordered (place_entry to_lowercase o e f (insert_entry to_lowercase e fs) fs)
      go later Ordering.lt h = before (λ k. absurd (cc (sym h ∙ k)))
      go later Ordering.eq h = before (λ k. absurd (cc (sym h ∙ k)))
      go later Ordering.gt h = (
        insert_entry-All (NotBehind f) e fs (gt-flip keys-IsOrder (key_of e) (key_of f) h) v.0,
        later,
      )

  insert_entry-Perm :
      (e : DirInfo) (fs : List DirInfo) → Perm (insert_entry to_lowercase e fs) (e ∷ fs)
  unfolding insert_entry
  insert_entry-Perm e [] = Perm.rfl
  insert_entry-Perm e (f ∷ fs) = go (insert_entry-Perm e fs) _
    where
      go :
          Perm (insert_entry to_lowercase e fs) (e ∷ fs)
          → (o : Ordering)
          → Perm (place_entry to_lowercase o e f (insert_entry to_lowercase e fs) fs) (e ∷ f ∷ fs)
      go later Ordering.lt = Perm.rfl
      go later Ordering.eq = Perm.rfl
      go later Ordering.gt = Perm.trans (Perm.cons f later) (Perm.swap e f fs)

  file_behind :
      (e f : DirInfo)
      → NotBehind e f
      → directory_bit e.attributes ≡ false
      → directory_bit f.attributes ≡ false
  unfolding directory_sort_key
  file_behind e f h file = go (directory_bit f.attributes) refl
    where
      go : (b : Bool) → directory_bit f.attributes ≡ b → b ≡ false
      go false k = refl
      go true k = absurd (h (rw (file, k) refl))

  Ordered-FoldersFirst : (es : List DirInfo) → Ordered es → FoldersFirst es
  Ordered-FoldersFirst [] v = tt
  Ordered-FoldersFirst (e ∷ es) v = (λ file. behind es v.0 file, Ordered-FoldersFirst es v.1)
    where
      behind :
          (fs : List DirInfo)
          → All (NotBehind e) fs
          → directory_bit e.attributes ≡ false
          → All (λ f. directory_bit f.attributes ≡ false) fs
      behind [] all file = tt
      behind (f ∷ fs) all file = (file_behind e f all.0 file, behind fs all.1 file)

  sort_dir_entries-Ordered : (es : List DirInfo) → Ordered (sort_dir_entries to_lowercase es)
  unfolding sort_dir_entries
  sort_dir_entries-Ordered [] = tt
  sort_dir_entries-Ordered (e ∷ es) = insert_entry-Ordered e _ (sort_dir_entries-Ordered es)

  sort_dir_entries-Perm : (es : List DirInfo) → Perm (sort_dir_entries to_lowercase es) es
  unfolding sort_dir_entries
  sort_dir_entries-Perm [] = Perm.rfl
  sort_dir_entries-Perm (e ∷ es) =
      Perm.trans (insert_entry-Perm e (sort_dir_entries to_lowercase es))
        (Perm.cons e (sort_dir_entries-Perm es))

  -- A sorted listing has the entries it was given, none behind one that its key puts later, and all
  -- folders before the files.
  pub sort_dir_entries_lem :
      (es : List DirInfo)
      → Perm (sort_dir_entries to_lowercase es) es
        × Ordered (sort_dir_entries to_lowercase es)
        × FoldersFirst (sort_dir_entries to_lowercase es)
  sort_dir_entries_lem es = (
    sort_dir_entries-Perm es,
    sort_dir_entries-Ordered es,
    Ordered-FoldersFirst _ (sort_dir_entries-Ordered es),
  )
