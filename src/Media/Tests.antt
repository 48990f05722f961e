-- ===== src/Media/Tests.antt =====
-- A folder with a film, its trailer, a second film of the same size and a song.
use cifs_client_stream.Common.{◌≡◌, refl, List, [], ◌∷◌, some, true}
use cifs_client_stream.Media.Names.{
  Name, file_extension, is_audio_extension, is_media_extension, is_subtitle_extension,
  is_ignored_system_name,
}
use cifs_client_stream.Media.{
  DirInfo, MediaEntry, MediaPresentation, FolderSummary, folder, video, audio, from_entries,
  is_media_entry, is_media_file, is_hidden_entry, media_kind, media_presentations_with_summaries,
}
use cifs_client_stream.Media.Main.{IsSummary, from_entries-IsSummary}
use cifs_client_stream.Media.Shown.{Presents, media_presentations_with_summaries-Presents}
use cifs_client_stream.Common.{ℕ, get_elem?, length}

-- `a.mkv`, `a-trailer.mkv`, `b.mkv` and `c.mp3`.
abbrev film : Name
film = 97 ∷ 46 ∷ 109 ∷ 107 ∷ 118 ∷ []

abbrev trailer_name : Name
trailer_name = 97 ∷ 45 ∷ 116 ∷ 114 ∷ 97 ∷ 105 ∷ 108 ∷ 101 ∷ 114 ∷ 46 ∷ 109 ∷ 107 ∷ 118 ∷ []

abbrev other_film : Name
other_film = 98 ∷ 46 ∷ 109 ∷ 107 ∷ 118 ∷ []

abbrev song_name : Name
song_name = 99 ∷ 46 ∷ 109 ∷ 112 ∷ 51 ∷ []

abbrev entries : List MediaEntry
entries =
    record { name = film; size = 700; kind = video }
    ∷ record { name = trailer_name; size = 900; kind = video }
    ∷ record { name = other_film; size = 700; kind = video }
    ∷ record { name = song_name; size = 5; kind = audio }
    ∷ record { name = 100 ∷ []; size = 0; kind = folder }
    ∷ []

from_entries-IsSummary_example : IsSummary entries (from_entries entries)
from_entries-IsSummary_example = from_entries-IsSummary entries

abbrev one_film : FolderSummary
one_film = record {
  index = 4;
  summary = record { main_video = some 0; primary_videos = 0 ∷ []; extras = []; audio_tracks = [] };
}

media_presentations_with_summaries-Presents_example :
    (length (media_presentations_with_summaries entries (one_film ∷ [])) ≡ length entries)
    × ((i : ℕ) (e : MediaEntry)
        → get_elem? entries i ≡ some e
        → (p : MediaPresentation) × (get_elem?
              (media_presentations_with_summaries entries (one_film ∷ []))
              i
            ≡ some p)
          × Presents i e (one_film ∷ []) p)
media_presentations_with_summaries-Presents_example =
    media_presentations_with_summaries-Presents entries (one_film ∷ [])

abbrev film_info : DirInfo
film_info = record { filename = film; filesize = 700; attributes = 0x20 }

film_info-kept : is_media_entry film_info ≡ true
unfolding is_media_entry is_hidden_entry is_ignored_system_name file_extension is_media_file
    is_media_extension is_subtitle_extension
film_info-kept = refl

film_info-video : media_kind film_info ≡ video
unfolding media_kind file_extension is_audio_extension
film_info-video = refl
