-- ===== src/Media/Shown.antt =====
-- What is kept of a directory, and how each entry is shown.
use cifs_client_stream.Common.{
  ℕ, zero, suc, ◌+◌, ◌<◌, ◌≡◌, ◌≢◌, ◌==◌, ◌↔◌, Bool-cases, inl, inr, refl, ap, ap₂, ◌∙◌, List, [],
  ◌∷◌, Option, none, some, Bool, true, false, ==_iff, if◌then◌else◌, arith, get_elem?, length,
  subst,
}
use cifs_client_stream.Media.Names.{
  Name, to_ascii_lowercase, is_among, video_extensions, file_extension, is_audio_extension,
  is_media_extension,
}
use cifs_client_stream.Media.{
  DirInfo, directory_bit, is_hidden_entry, is_media_file, is_media_entry, media_kind, video,
  MediaEntry, FolderSummary, MediaFolderSummary, MediaPresentation, MediaKind, folder_from,
  from_kind, folder_kind, is_folder, folder_summary, from_entry, can_collapse_to_movie, shown_from,
  media_presentations_with_summaries, folder, audio, folder_shown, movie_folder, playable_file,
}

-- What is known of an entry that is kept and counts as a video.
pub record IsVideoFile (d : DirInfo) : Type 0 where
  pub visible : is_hidden_entry d ≡ false
  pub file : directory_bit d.attributes ≡ false
  pub extension : Name
  pub named : file_extension d.filename ≡ some extension
  pub listed : is_among (to_ascii_lowercase extension) video_extensions ≡ true

-- An entry that `is_media_entry` keeps and that `media_kind` calls a video is a visible file with
-- one of the video extensions, although `media_kind` itself asks for no video extension.
pub media_kind-IsVideoFile :
    (d : DirInfo) → is_media_entry d ≡ true → media_kind d ≡ video → IsVideoFile d
unfolding is_media_entry media_kind is_media_file is_media_extension is_audio_extension
media_kind-IsVideoFile d kept called =
    go (is_hidden_entry d) refl (directory_bit d.attributes) refl (file_extension d.filename) refl
      kept called
  where
    go :
        (h : Bool)
        → is_hidden_entry d ≡ h
        → (b : Bool) → directory_bit d.attributes ≡ b
        → (x : Option Name) → file_extension d.filename ≡ x
        → (if h then false else if b then true else is_media_file x) ≡ true
        → (if b then folder else elim x [
          | none ↦ video
          | some extension ↦ if is_audio_extension extension then audio else video
        ])
          ≡ video
        → IsVideoFile d
    go true eh b eb x ex kept called = absurd (cc)
    go false eh true eb x ex kept called = absurd (cc)
    go false eh false eb none ex kept called = absurd (cc)
    go false eh false eb (some x) ex kept called = record {
      visible = eh;
      file = eb;
      extension = x;
      named = ex;
      listed = ground arith;
    }

-- The summary given for index `i`: that of the first `(index, summary)` with this index.
pub record Given (summaries : List FolderSummary) (i : ℕ) (s : MediaFolderSummary) : Type 0 where
  pub at : ℕ
  pub found : get_elem? summaries at ≡ some (record { index = i; summary = s })
  pub first :
      (j : ℕ) (other : FolderSummary)
      → j < at
      → get_elem? summaries j ≡ some other
      → other.index ≢ i

-- How the entry at index `i` is shown: a folder by the summary that is given for it, and anything else
-- as a file to play.
pub record Presents (i : ℕ) (e : MediaEntry) (summaries : List FolderSummary)
    (p : MediaPresentation) : Type 0 where
  pub movie :
      (s : MediaFolderSummary)
      → (p ≡ movie_folder i s)
        ↔ ((is_folder e ≡ true) × Given summaries i s × (length s.primary_videos ≡ 1))
  pub shown : (p ≡ folder_shown i) ↔ (
      (is_folder e ≡ true)
      × ((s : MediaFolderSummary) → Given summaries i s → length s.primary_videos ≢ 1))
  pub playable : (p ≡ playable_file i) ↔ (is_folder e ≡ false)

Given-later :
    (summaries : List FolderSummary) (f : FolderSummary) (i : ℕ) (s : MediaFolderSummary)
    → f.index ≢ i
    → Given summaries i s
    → Given (f ∷ summaries) i s
Given-later summaries f i s other g = record { at = suc g.at; found = g.found; first = earlier }
  where
    earlier :
        (j : ℕ) (o : FolderSummary)
        → j < suc g.at
        → get_elem? (f ∷ summaries) j ≡ some o
        → o.index ≢ i
    earlier zero o lt here h = let same : f ≡ o = cc in other (ap (λ x. x.index) same ∙ h)
    earlier (suc j) o lt here h = g.first j o (omega arith) here h

folder_summary-Given :
    (summaries : List FolderSummary) (i : ℕ) (s : MediaFolderSummary)
    → folder_summary summaries i ≡ some s
    → Given summaries i s
folder_summary-Given [] i s h = absurd (cc)
folder_summary-Given (f ∷ summaries) i s h = elim (Bool-cases (f.index == i)) [
  | inl here ↦
      let summary : some f.summary ≡ some s = rw here at h in
      let same : f.summary ≡ s = cc in
      record {
        at = zero;
        found =
            ap₂ (λ n t. some (record { index = n; summary = t })) ((==_iff f.index i).0 here) same;
        first = λ j o lt. absurd (omega arith);
      }
  | inr other ↦
      let later : folder_summary summaries i ≡ some s = rw other at h in
      Given-later summaries f i s (λ e. absurd (ground (arith, e)))
        (folder_summary-Given summaries i s later)
]

Given-folder_summary :
    (summaries : List FolderSummary) (i : ℕ) (s : MediaFolderSummary) (at : ℕ)
    → get_elem? summaries at ≡ some (record { index = i; summary = s })
    → ((j : ℕ) (o : FolderSummary) → j < at → get_elem? summaries j ≡ some o → o.index ≢ i)
    → folder_summary summaries i ≡ some s
Given-folder_summary [] i s at found first = absurd (cc)
Given-folder_summary (f ∷ summaries) i s zero found first =
    let same : f ≡ record { index = i; summary = s } = cc in
    let here : (f.index == i) ≡ true = (==_iff f.index i).1 (ap (λ x. x.index) same) in
    rw (here) (ap (λ x. some x.summary) same)
Given-folder_summary (f ∷ summaries) i s (suc at) found first =
    let ne = first zero f (omega arith) refl in
    let other : (f.index == i) ≡ false = ground (arith, ne) in
    rw (other) (
      Given-folder_summary summaries i s at found
        (λ j o lt there. first (suc j) o (omega arith) there))

given :
    (summaries : List FolderSummary) (i : ℕ) (s : MediaFolderSummary)
    → Given summaries i s
    → folder_summary summaries i ≡ some s
given summaries i s g = Given-folder_summary summaries i s g.at g.found g.first

-- What is no folder is playable, and no movie folder.
file-Presents :
    (i : ℕ) (e : MediaEntry) (summaries : List FolderSummary)
    → is_folder e ≡ false
    → Presents i e summaries (playable_file i)
file-Presents i e summaries other = record {
  movie = λ s. (λ h. absurd (cc), λ h. absurd (cc));
  shown = (λ h. absurd (cc), λ h. absurd (cc));
  playable = (λ h. other, λ h. refl);
}

-- A folder by its summary.
folder-Presents :
    (i : ℕ) (e : MediaEntry) (summaries : List FolderSummary) (o : Option MediaFolderSummary)
    → is_folder e ≡ true
    → folder_summary summaries i ≡ o
    → Presents i e summaries (folder_from i o)
folder-Presents i e summaries none is_one found = record {
  movie = λ s. (λ h. absurd (cc), λ h. let g = given summaries i s h.1 in absurd (cc));
  shown = (λ h. (is_one, λ s g one. let no = given summaries i s g in absurd (cc)), λ h. refl);
  playable = (λ h. absurd (cc), λ h. absurd (cc));
}
folder-Presents i e summaries (some s) is_one found = go (can_collapse_to_movie s) refl
  where
    same : (t : MediaFolderSummary) → Given summaries i t → s ≡ t
    same t g = let at = given summaries i t g in cc

    go :
        (b : Bool)
        → can_collapse_to_movie s ≡ b
        → Presents i e summaries (if b then movie_folder i s else folder_shown i)
    go true one =
        let single = (==_iff (length s.primary_videos) 1).0 one in
        record {
          movie = λ t. (
            λ h.
                let is_t : s ≡ t = cc in
                subst
                  (λ y. (is_folder e ≡ true) × Given summaries i y × (length y.primary_videos ≡ 1))
                  is_t (is_one, folder_summary-Given summaries i s found, single),
            λ h. ap (movie_folder i) (same t h.1),
          );
          shown = (
            λ h. absurd (cc),
            λ h. absurd (h.1 s (folder_summary-Given summaries i s found) single),
          );
          playable = (λ h. absurd (cc), λ h. absurd (cc));
        }
    go false many =
        let refuted : (t : MediaFolderSummary) → Given summaries i t → length t.primary_videos ≢ 1 =
          λ t g one.
            let counted =
              (==_iff (length s.primary_videos) 1).1
                (ap (λ y. length y.primary_videos) (same t g) ∙ one) in
            absurd (cc) in
        record {
          movie = λ t. (λ h. absurd (cc), λ h. absurd (refuted t h.1 h.2));
          shown = (λ h. (is_one, refuted), λ h. refl);
          playable = (λ h. absurd (cc), λ h. absurd (cc));
        }

from_entry-Presents :
    (i : ℕ) (e : MediaEntry) (summaries : List FolderSummary)
    → Presents i e summaries (from_entry i e (folder_summary summaries i))
from_entry-Presents i e summaries = go e.kind refl
  where
    go :
        (k : MediaKind)
        → e.kind ≡ k
        → Presents i e summaries (from_kind i k (folder_summary summaries i))
    go folder is_k =
        folder-Presents i e summaries (folder_summary summaries i) (ap folder_kind is_k) refl
    go audio is_k = file-Presents i e summaries (ap folder_kind is_k)
    go video is_k = file-Presents i e summaries (ap folder_kind is_k)

shown_from-Presents :
    (k i : ℕ) (entries : List MediaEntry) (summaries : List FolderSummary) (e : MediaEntry)
    → get_elem? entries i ≡ some e
    → (p : MediaPresentation) × (get_elem? (shown_from k entries summaries) i ≡ some p)
      × Presents (k + i) e summaries p
shown_from-Presents k i [] summaries e h = absurd (cc)
shown_from-Presents k zero (x ∷ entries) summaries e h =
    let same : x ≡ e = cc in
    let zero_more : k ≡ k + 0 = omega arith in
    (
      from_entry k x (folder_summary summaries k),
      refl,
      subst (λ n. Presents n e summaries (from_entry k x (folder_summary summaries k))) zero_more
          (subst (λ y. Presents k y summaries (from_entry k x (folder_summary summaries k))) same
            (from_entry-Presents k x summaries)),
    )
shown_from-Presents k (suc i) (x ∷ entries) summaries e h =
    let (p, at, shown) = shown_from-Presents (suc k) i entries summaries e h in
    let one_more : suc k + i ≡ k + suc i = omega arith in
    (p, at, subst (λ n. Presents n e summaries p) one_more shown)

length-shown_from :
    (k : ℕ) (entries : List MediaEntry) (summaries : List FolderSummary)
    → length (shown_from k entries summaries) ≡ length entries
length-shown_from k [] summaries = refl
length-shown_from k (e ∷ es) summaries = ap suc (length-shown_from (suc k) es summaries)

-- `media_presentations_with_summaries` gives one presentation for each entry, in their order: a folder
-- is a movie folder with the first summary that is given for its index exactly if that summary has one
-- primary video, any other folder is shown as such, and what is no folder as a file to play.
pub media_presentations_with_summaries-Presents :
    (entries : List MediaEntry) (summaries : List FolderSummary)
    → (length (media_presentations_with_summaries entries summaries) ≡ length entries)
      × ((i : ℕ) (e : MediaEntry)
          → get_elem? entries i ≡ some e
          → (p : MediaPresentation) × (get_elem?
                (media_presentations_with_summaries entries summaries)
                i
              ≡ some p)
            × Presents i e summaries p)
unfolding media_presentations_with_summaries
media_presentations_with_summaries-Presents entries summaries = (
  length-shown_from 0 entries summaries,
  λ i e h.
      let (p, at, shown) = shown_from-Presents 0 i entries summaries e h in
      let same : 0 + i ≡ i = omega arith in
      (p, at, subst (λ n. Presents n e summaries p) same shown),
)
