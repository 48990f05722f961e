-- ===== src/Media.antt =====
-- Entries of a directory as a player shows them (src/lib.rs): which entries are kept, the main video
-- of a folder, and the presentation of each entry.
pub mod Names
pub mod Indices
pub mod Main
pub mod Shown
pub mod Natural
mod Tests
use cifs_client_stream.Common.{
  ℕ, suc, ◌/◌, ◌%◌, List, [], ◌∷◌, Option, none, some, Bool, true, false, ◌&&◌, ◌||◌, not, ltb,
  ◌==◌, if◌then◌else◌, length, get_elem?,
}
use cifs_client_stream.Media.Names.{
  Name, starts_with, is_likely_extra_name, file_extension, is_audio_extension, is_media_extension,
  is_subtitle_extension, is_ignored_system_name,
}

-- What this part reads of a `DirInfo`; the attributes are their bits.
pub record DirInfo : Type 0 where
  pub filename : Name
  pub filesize : ℕ
  pub attributes : ℕ

-- `ExtFileAttr::HIDDEN`, `SYSTEM` and `DIRECTORY` in the attributes.
abbrev pub hidden_bit : ℕ → Bool
hidden_bit attributes = attributes / 0x2 % 2 == 1

abbrev pub system_bit : ℕ → Bool
system_bit attributes = attributes / 0x4 % 2 == 1

abbrev pub directory_bit : ℕ → Bool
directory_bit attributes = attributes / 0x10 % 2 == 1

-- `is_hidden_entry`.
unfoldable pub is_hidden_entry : DirInfo → Bool
unfolding is_ignored_system_name
is_hidden_entry entry =
    is_ignored_system_name entry.filename
    || (starts_with entry.filename (46 ∷ [])
        || (hidden_bit entry.attributes || system_bit entry.attributes))

-- What `is_media_entry` asks of a file.
unfoldable pub is_media_file : Option Name → Bool
unfolding is_media_extension is_subtitle_extension
is_media_file none = false
is_media_file (some extension) =
    is_media_extension extension && not (is_subtitle_extension extension)

-- `is_media_entry`.
unfoldable pub is_media_entry : DirInfo → Bool
unfolding is_hidden_entry file_extension is_media_file
is_media_entry entry =
    if is_hidden_entry entry
    then false
    else if directory_bit entry.attributes
    then true
    else is_media_file (file_extension entry.filename)

-- `retain_media_entries`.
unfoldable pub retain_media_entries : List DirInfo → List DirInfo
unfolding is_media_entry
retain_media_entries [] = []
retain_media_entries (e ∷ es) =
    let rest = retain_media_entries es in if is_media_entry e then e ∷ rest else rest

pub data MediaKind : Type 0 where
  folder audio video : MediaKind

abbrev file_kind : Option Name → MediaKind
file_kind none = video
file_kind (some extension) = if is_audio_extension extension then audio else video

-- `media_kind`.
unfoldable pub media_kind : DirInfo → MediaKind
unfolding file_extension is_audio_extension
media_kind entry =
    if directory_bit entry.attributes then folder else file_kind (file_extension entry.filename)

pub record MediaEntry : Type 0 where
  pub name : Name
  pub size : ℕ
  pub kind : MediaKind

-- `From<DirInfo> for MediaEntry`.
pub media_entry : DirInfo → MediaEntry
unfolding media_kind
media_entry entry = record { name = entry.filename; size = entry.filesize; kind = media_kind entry }

abbrev pub folder_kind : MediaKind → Bool
folder_kind folder = true
folder_kind _ = false

abbrev pub is_folder : MediaEntry → Bool
is_folder e = folder_kind e.kind

abbrev pub is_audio : MediaEntry → Bool
is_audio e = elim e.kind [ audio ↦ true | _ ↦ false ]

abbrev pub is_video : MediaEntry → Bool
is_video e = elim e.kind [ video ↦ true | _ ↦ false ]

-- `is_likely_extra_video`, and the test of `primary_video_indices`.
abbrev pub is_likely_extra_video : MediaEntry → Bool
is_likely_extra_video e = is_video e && is_likely_extra_name e.name

abbrev pub is_primary_video : MediaEntry → Bool
is_primary_video e = is_video e && not (is_likely_extra_video e)

-- `enumerate`, `filter` and `map` to the index, from the index of the first entry on.
abbrev pub indices_from : (MediaEntry → Bool) → ℕ → List MediaEntry → List ℕ
indices_from test i [] = []
indices_from test i (e ∷ es) =
    let rest = indices_from test (suc i) es in if test e then i ∷ rest else rest

-- `primary_video_indices`.
abbrev pub primary_video_indices : List MediaEntry → List ℕ
primary_video_indices entries = indices_from is_primary_video 0 entries

-- `entries[index].size`; the index is always one of the entries'.
abbrev pub size_at : List MediaEntry → ℕ → ℕ
size_at entries i = elim (get_elem? entries i) [ some e ↦ e.size | none ↦ 0 ]

-- `max_by_key` behind its first element: of equal keys it keeps the last.
abbrev pub largest_from : List MediaEntry → ℕ → List ℕ → ℕ
largest_from entries best [] = best
largest_from entries best (i ∷ is) =
    largest_from entries (if ltb (size_at entries i) (size_at entries best) then best else i) is

-- `largest_video_index`.
abbrev pub largest_video_index : List MediaEntry → List ℕ → Option ℕ
largest_video_index entries [] = none
largest_video_index entries (i ∷ is) = some (largest_from entries i is)

-- `main_video_index`.
unfoldable pub main_video_index : List MediaEntry → Option ℕ
main_video_index entries = largest_video_index entries (primary_video_indices entries)

pub record MediaFolderSummary : Type 0 where
  pub main_video : Option ℕ
  pub primary_videos : List ℕ
  pub extras : List ℕ
  pub audio_tracks : List ℕ

-- `MediaFolderSummary::from_entries`.
unfoldable pub from_entries : List MediaEntry → MediaFolderSummary
from_entries entries = record {
  main_video = largest_video_index entries (primary_video_indices entries);
  primary_videos = primary_video_indices entries;
  extras = indices_from is_likely_extra_video 0 entries;
  audio_tracks = indices_from is_audio 0 entries;
}

-- `MediaFolderSummary::can_collapse_to_movie`.
abbrev pub can_collapse_to_movie : MediaFolderSummary → Bool
can_collapse_to_movie s = length s.primary_videos == 1

pub data MediaPresentation : Type 0 where
  folder_shown : ℕ → MediaPresentation
  movie_folder : ℕ → MediaFolderSummary → MediaPresentation
  playable_file : ℕ → MediaPresentation

abbrev pub folder_from : ℕ → Option MediaFolderSummary → MediaPresentation
folder_from index none = folder_shown index
folder_from index (some s) =
    if can_collapse_to_movie s then movie_folder index s else folder_shown index

-- `MediaPresentation::from_entry`, by the kind of the entry.
abbrev pub from_kind : ℕ → MediaKind → Option MediaFolderSummary → MediaPresentation
from_kind index folder summary = folder_from index summary
from_kind index audio summary = playable_file index
from_kind index video summary = playable_file index

abbrev pub from_entry : ℕ → MediaEntry → Option MediaFolderSummary → MediaPresentation
from_entry index e summary = from_kind index e.kind summary

-- `MediaPresentation::index`, `is_movie_folder` and `is_playable`.
abbrev pub index_of : MediaPresentation → ℕ
index_of (folder_shown index) = index
index_of (movie_folder index s) = index
index_of (playable_file index) = index

abbrev pub is_movie_folder : MediaPresentation → Bool
is_movie_folder (movie_folder index s) = true
is_movie_folder _ = false

abbrev pub is_playable : MediaPresentation → Bool
is_playable (folder_shown index) = false
is_playable _ = true

pub record FolderSummary : Type 0 where
  pub index : ℕ
  pub summary : MediaFolderSummary

-- `folder_summary`.
abbrev pub folder_summary : List FolderSummary → ℕ → Option MediaFolderSummary
folder_summary [] index = none
folder_summary (s ∷ ss) index = if s.index == index then some s.summary else folder_summary ss index

-- `media_presentations_with_summaries`, from the index of the first entry on.
abbrev pub shown_from : ℕ → List MediaEntry → List FolderSummary → List MediaPresentation
shown_from i [] summaries = []
shown_from i (e ∷ es) summaries =
    from_entry i e (folder_summary summaries i) ∷ shown_from (suc i) es summaries

unfoldable pub media_presentations_with_summaries :
    List MediaEntry → List FolderSummary → List MediaPresentation
media_presentations_with_summaries entries summaries = shown_from 0 entries summaries

-- `media_presentations`, from the index of the first entry on.
abbrev pub plain_from : ℕ → List MediaEntry → List MediaPresentation
plain_from i [] = []
plain_from i (e ∷ es) = from_entry i e none ∷ plain_from (suc i) es

unfoldable pub media_presentations : List MediaEntry → List MediaPresentation
media_presentations entries = plain_from 0 entries
