-- ===== src/Media/Names.antt =====
-- Names of media files (src/lib.rs): extensions, markers of extras, system names. A name is the list
-- of its code points.
use cifs_client_stream.Common.{
  ℕ, ◌+◌, List, [], ◌∷◌, Option, none, some, Bool, true, false, ◌&&◌, ◌||◌, leb, ◌==◌,
  if◌then◌else◌,
}
use cifs_client_stream.Stream.Buffer.{is_nil}

abbrev pub Name : Type 0
Name = List ℕ

-- `to_ascii_lowercase`.
abbrev pub to_ascii_lowercase : Name → Name
to_ascii_lowercase [] = []
to_ascii_lowercase (c ∷ cs) = (if leb 65 c && leb c 90 then c + 32 else c) ∷ to_ascii_lowercase cs

abbrev pub same_name : Name → Name → Bool
same_name [] [] = true
same_name [] (d ∷ ds) = false
same_name (c ∷ cs) [] = false
same_name (c ∷ cs) (d ∷ ds) = c == d && same_name cs ds

abbrev pub starts_with : Name → Name → Bool
starts_with cs [] = true
starts_with [] (d ∷ ds) = false
starts_with (c ∷ cs) (d ∷ ds) = c == d && starts_with cs ds

-- `str::contains`.
abbrev pub contains : Name → Name → Bool
contains [] part = starts_with [] part
contains (c ∷ cs) part = starts_with (c ∷ cs) part || contains cs part

-- `contains` of a slice of names.
abbrev pub is_among : Name → List Name → Bool
is_among name [] = false
is_among name (n ∷ ns) = same_name name n || is_among name ns

-- `AUDIO_EXTENSIONS`: aac, aiff, alac, flac, m4a, mp3, ogg, opus, wav.
abbrev pub audio_extensions : List Name
audio_extensions =
    (97 ∷ 97 ∷ 99 ∷ [])
    ∷ (97 ∷ 105 ∷ 102 ∷ 102 ∷ [])
    ∷ (97 ∷ 108 ∷ 97 ∷ 99 ∷ [])
    ∷ (102 ∷ 108 ∷ 97 ∷ 99 ∷ [])
    ∷ (109 ∷ 52 ∷ 97 ∷ [])
    ∷ (109 ∷ 112 ∷ 51 ∷ [])
    ∷ (111 ∷ 103 ∷ 103 ∷ [])
    ∷ (111 ∷ 112 ∷ 117 ∷ 115 ∷ [])
    ∷ (119 ∷ 97 ∷ 118 ∷ [])
    ∷ []

-- `VIDEO_EXTENSIONS`: avi, divx, m2ts, m4v, mkv, mov, mp4, mpeg, mpg, mts, ts, webm, wmv.
abbrev pub video_extensions : List Name
video_extensions =
    (97 ∷ 118 ∷ 105 ∷ [])
    ∷ (100 ∷ 105 ∷ 118 ∷ 120 ∷ [])
    ∷ (109 ∷ 50 ∷ 116 ∷ 115 ∷ [])
    ∷ (109 ∷ 52 ∷ 118 ∷ [])
    ∷ (109 ∷ 107 ∷ 118 ∷ [])
    ∷ (109 ∷ 111 ∷ 118 ∷ [])
    ∷ (109 ∷ 112 ∷ 52 ∷ [])
    ∷ (109 ∷ 112 ∷ 101 ∷ 103 ∷ [])
    ∷ (109 ∷ 112 ∷ 103 ∷ [])
    ∷ (109 ∷ 116 ∷ 115 ∷ [])
    ∷ (116 ∷ 115 ∷ [])
    ∷ (119 ∷ 101 ∷ 98 ∷ 109 ∷ [])
    ∷ (119 ∷ 109 ∷ 118 ∷ [])
    ∷ []

-- `SUBTITLE_EXTENSIONS`: ass, idx, smi, srt, ssa, sub, sup, ttml, vtt.
abbrev pub subtitle_extensions : List Name
subtitle_extensions =
    (97 ∷ 115 ∷ 115 ∷ [])
    ∷ (105 ∷ 100 ∷ 120 ∷ [])
    ∷ (115 ∷ 109 ∷ 105 ∷ [])
    ∷ (115 ∷ 114 ∷ 116 ∷ [])
    ∷ (115 ∷ 115 ∷ 97 ∷ [])
    ∷ (115 ∷ 117 ∷ 98 ∷ [])
    ∷ (115 ∷ 117 ∷ 112 ∷ [])
    ∷ (116 ∷ 116 ∷ 109 ∷ 108 ∷ [])
    ∷ (118 ∷ 116 ∷ 116 ∷ [])
    ∷ []

-- The names that `is_ignored_system_name` lists: .ds_store, .trashes, .spotlight-v100, .fseventsd, @eadir,
-- $recycle.bin, system volume information, temporary items, network trash folder, thevolumesettingsfolder.
abbrev pub system_names : List Name
system_names =
    (46 ∷ 100 ∷ 115 ∷ 95 ∷ 115 ∷ 116 ∷ 111 ∷ 114 ∷ 101 ∷ [])
    ∷ (46 ∷ 116 ∷ 114 ∷ 97 ∷ 115 ∷ 104 ∷ 101 ∷ 115 ∷ [])
    ∷ (46 ∷ 115 ∷ 112 ∷ 111 ∷ 116 ∷ 108 ∷ 105 ∷ 103 ∷ 104 ∷ 116 ∷ 45 ∷ 118 ∷ 49 ∷ 48 ∷ 48 ∷ [])
    ∷ (46 ∷ 102 ∷ 115 ∷ 101 ∷ 118 ∷ 101 ∷ 110 ∷ 116 ∷ 115 ∷ 100 ∷ [])
    ∷ (64 ∷ 101 ∷ 97 ∷ 100 ∷ 105 ∷ 114 ∷ [])
    ∷ (36 ∷ 114 ∷ 101 ∷ 99 ∷ 121 ∷ 99 ∷ 108 ∷ 101 ∷ 46 ∷ 98 ∷ 105 ∷ 110 ∷ [])
    ∷ (115 ∷ 121 ∷ 115 ∷ 116 ∷ 101 ∷ 109 ∷ 32 ∷ 118 ∷ 111 ∷ 108 ∷ 117 ∷ 109 ∷ 101 ∷ 32 ∷ 105 ∷ 110
        ∷ 102 ∷ 111 ∷ 114 ∷ 109 ∷ 97 ∷ 116 ∷ 105 ∷ 111 ∷ 110 ∷ [])
    ∷ (116 ∷ 101 ∷ 109 ∷ 112 ∷ 111 ∷ 114 ∷ 97 ∷ 114 ∷ 121 ∷ 32 ∷ 105 ∷ 116 ∷ 101 ∷ 109 ∷ 115 ∷ [])
    ∷ (110 ∷ 101 ∷ 116 ∷ 119 ∷ 111 ∷ 114 ∷ 107 ∷ 32 ∷ 116 ∷ 114 ∷ 97 ∷ 115 ∷ 104 ∷ 32 ∷ 102 ∷ 111
        ∷ 108 ∷ 100 ∷ 101 ∷ 114 ∷ [])
    ∷ (116 ∷ 104 ∷ 101 ∷ 118 ∷ 111 ∷ 108 ∷ 117 ∷ 109 ∷ 101 ∷ 115 ∷ 101 ∷ 116 ∷ 116 ∷ 105 ∷ 110 ∷ 103
        ∷ 115 ∷ 102 ∷ 111 ∷ 108 ∷ 100 ∷ 101 ∷ 114 ∷ [])
    ∷ []

-- `MediaExtraKind`.
pub data MediaExtraKind : Type 0 where
  extra bonus deleted_scene short trailer teaser featurette behind_the_scenes interview :
      MediaExtraKind
  sample : MediaExtraKind

-- A marker and what it stands for.
pub record Marker : Type 0 where
  pub text : Name
  pub means : MediaExtraKind

-- The flags of `media_extra_kind`: --deleted-scenes, --deleted-scene, --deleted, --behind-the-scenes, --behind,
-- --featurette, --interview, --trailer, --teaser, --sample, --short, --bonus, --extra.
abbrev pub flags : List Marker
flags =
    record {
      text =
          45 ∷ 45 ∷ 100 ∷ 101 ∷ 108 ∷ 101 ∷ 116 ∷ 101 ∷ 100 ∷ 45 ∷ 115 ∷ 99 ∷ 101 ∷ 110 ∷ 101 ∷ 115
          ∷ [];
      means = deleted_scene;
    }
    ∷ record {
      text =
          45 ∷ 45 ∷ 100 ∷ 101 ∷ 108 ∷ 101 ∷ 116 ∷ 101 ∷ 100 ∷ 45 ∷ 115 ∷ 99 ∷ 101 ∷ 110 ∷ 101 ∷ [];
      means = deleted_scene;
    }
    ∷ record {
      text = 45 ∷ 45 ∷ 100 ∷ 101 ∷ 108 ∷ 101 ∷ 116 ∷ 101 ∷ 100 ∷ [];
      means = deleted_scene;
    }
    ∷ record {
      text =
          45 ∷ 45 ∷ 98 ∷ 101 ∷ 104 ∷ 105 ∷ 110 ∷ 100 ∷ 45 ∷ 116 ∷ 104 ∷ 101 ∷ 45 ∷ 115 ∷ 99 ∷ 101
          ∷ 110 ∷ 101 ∷ 115 ∷ [];
      means = behind_the_scenes;
    }
    ∷ record { text = 45 ∷ 45 ∷ 98 ∷ 101 ∷ 104 ∷ 105 ∷ 110 ∷ 100 ∷ []; means = behind_the_scenes }
    ∷ record {
      text = 45 ∷ 45 ∷ 102 ∷ 101 ∷ 97 ∷ 116 ∷ 117 ∷ 114 ∷ 101 ∷ 116 ∷ 116 ∷ 101 ∷ [];
      means = featurette;
    }
    ∷ record {
      text = 45 ∷ 45 ∷ 105 ∷ 110 ∷ 116 ∷ 101 ∷ 114 ∷ 118 ∷ 105 ∷ 101 ∷ 119 ∷ [];
      means = interview;
    }
    ∷ record { text = 45 ∷ 45 ∷ 116 ∷ 114 ∷ 97 ∷ 105 ∷ 108 ∷ 101 ∷ 114 ∷ []; means = trailer }
    ∷ record { text = 45 ∷ 45 ∷ 116 ∷ 101 ∷ 97 ∷ 115 ∷ 101 ∷ 114 ∷ []; means = teaser }
    ∷ record { text = 45 ∷ 45 ∷ 115 ∷ 97 ∷ 109 ∷ 112 ∷ 108 ∷ 101 ∷ []; means = sample }
    ∷ record { text = 45 ∷ 45 ∷ 115 ∷ 104 ∷ 111 ∷ 114 ∷ 116 ∷ []; means = short }
    ∷ record { text = 45 ∷ 45 ∷ 98 ∷ 111 ∷ 110 ∷ 117 ∷ 115 ∷ []; means = bonus }
    ∷ record { text = 45 ∷ 45 ∷ 101 ∷ 120 ∷ 116 ∷ 114 ∷ 97 ∷ []; means = extra }
    ∷ []

-- Its markers: behind, deleted, extras, extra, featurette, interview, sample, teaser, trailer.
abbrev pub markers : List Marker
markers =
    record { text = 98 ∷ 101 ∷ 104 ∷ 105 ∷ 110 ∷ 100 ∷ []; means = behind_the_scenes }
    ∷ record { text = 100 ∷ 101 ∷ 108 ∷ 101 ∷ 116 ∷ 101 ∷ 100 ∷ []; means = deleted_scene }
    ∷ record { text = 101 ∷ 120 ∷ 116 ∷ 114 ∷ 97 ∷ 115 ∷ []; means = extra }
    ∷ record { text = 101 ∷ 120 ∷ 116 ∷ 114 ∷ 97 ∷ []; means = extra }
    ∷ record {
      text = 102 ∷ 101 ∷ 97 ∷ 116 ∷ 117 ∷ 114 ∷ 101 ∷ 116 ∷ 116 ∷ 101 ∷ [];
      means = featurette;
    }
    ∷ record { text = 105 ∷ 110 ∷ 116 ∷ 101 ∷ 114 ∷ 118 ∷ 105 ∷ 101 ∷ 119 ∷ []; means = interview }
    ∷ record { text = 115 ∷ 97 ∷ 109 ∷ 112 ∷ 108 ∷ 101 ∷ []; means = sample }
    ∷ record { text = 116 ∷ 101 ∷ 97 ∷ 115 ∷ 101 ∷ 114 ∷ []; means = teaser }
    ∷ record { text = 116 ∷ 114 ∷ 97 ∷ 105 ∷ 108 ∷ 101 ∷ 114 ∷ []; means = trailer }
    ∷ []

-- A loop of `media_extra_kind`.
abbrev pub first_marker : Name → List Marker → Option MediaExtraKind
first_marker name [] = none
first_marker name (m ∷ ms) =
    let rest = first_marker name ms in if contains name m.text then some m.means else rest

-- `media_extra_kind`.
unfoldable pub media_extra_kind : Name → Option MediaExtraKind
media_extra_kind name = elim (first_marker (to_ascii_lowercase name) flags) [
  | some kind ↦ some kind
  | none ↦ first_marker (to_ascii_lowercase name) markers
]

-- `is_likely_extra_name`.
unfoldable pub is_likely_extra_name : Name → Bool
unfolding media_extra_kind
is_likely_extra_name name = elim (media_extra_kind name) [ some kind ↦ true | none ↦ false ]

-- `rsplit_once('.')`, its second part.
abbrev pub after_last_dot : Name → Option Name
after_last_dot [] = none
after_last_dot (c ∷ cs) = elim (after_last_dot cs) [
  | some extension ↦ some extension
  | none ↦ if c == 46 then some cs else none
]

-- `file_extension`.
unfoldable pub file_extension : Name → Option Name
file_extension name = elim (after_last_dot name) [
  | none ↦ none
  | some extension ↦ if is_nil extension then none else some extension
]

-- `is_audio_extension`, `is_media_extension` and `is_subtitle_extension`.
unfoldable pub is_audio_extension : Name → Bool
is_audio_extension extension = is_among (to_ascii_lowercase extension) audio_extensions

unfoldable pub is_media_extension : Name → Bool
is_media_extension extension =
    is_among (to_ascii_lowercase extension) audio_extensions
    || is_among (to_ascii_lowercase extension) video_extensions

unfoldable pub is_subtitle_extension : Name → Bool
is_subtitle_extension extension = is_among (to_ascii_lowercase extension) subtitle_extensions

-- Unicode's `White_Space`, which `trim` takes off both ends.
abbrev pub is_whitespace : ℕ → Bool
is_whitespace c =
    (leb 9 c && leb c 13)
    || (c == 32
        || (c == 0x85
            || (c == 0xa0
                || (c == 0x1680
                    || ((leb 0x2000 c && leb c 0x200a)
                        || (c == 0x2028
                            || (c == 0x2029 || (c == 0x202f || (c == 0x205f || c == 0x3000)))))))))

abbrev pub trim_start : Name → Name
trim_start [] = []
trim_start (c ∷ cs) = if is_whitespace c then trim_start cs else c ∷ cs

abbrev pub trim_end : Name → Name
trim_end [] = []
trim_end (c ∷ cs) =
    let rest = trim_end cs in if is_nil rest && is_whitespace c then [] else c ∷ rest

-- `is_ignored_system_name`.
unfoldable pub is_ignored_system_name : Name → Bool
is_ignored_system_name name =
    let trimmed = trim_end (trim_start name) in
    if is_nil trimmed then true else is_among (to_ascii_lowercase trimmed) system_names
