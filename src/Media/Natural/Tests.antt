-- ===== src/Media/Natural/Tests.antt =====
-- A folder and two episodes, and the names of two episodes.
use mathlib.Core.List.{Perm}
use cifs_client_stream.Common.{ℕ, ◌≡◌, ◌++◌, List, [], ◌∷◌, refl, arith}
use Prim.Native.Nat.{Ordering}
use cifs_client_stream.Ffi.Text.{codes}
use cifs_client_stream.Media.{DirInfo}
use cifs_client_stream.Media.Names.{Name, to_ascii_lowercase}
use cifs_client_stream.Media.Natural.{sort_dir_entries, natural_name_key, compare_name_keys}
use cifs_client_stream.Media.Natural.Sorted.{Ordered, FoldersFirst, sort_dir_entries_lem}
use cifs_client_stream.Media.Natural.Names.{natural_name_key-value}

abbrev shown : Name → ℕ → DirInfo
shown name bits = record { filename = name; filesize = 1; attributes = bits }

abbrev listing : List DirInfo
listing =
    shown (codes "Episode 10.mkv") 0x20
    ∷ shown (codes "Episode 2.mkv") 0x20
    ∷ shown (codes "season") 0x10
    ∷ []

sort_dir_entries_lem_example :
    Perm (sort_dir_entries to_ascii_lowercase listing) listing
    × Ordered to_ascii_lowercase (sort_dir_entries to_ascii_lowercase listing)
    × FoldersFirst to_ascii_lowercase (sort_dir_entries to_ascii_lowercase listing)
sort_dir_entries_lem_example = sort_dir_entries_lem to_ascii_lowercase listing

natural_name_key-value_example :
    compare_name_keys
      (natural_name_key to_ascii_lowercase (codes "Episode " ++ codes "002" ++ codes ".mkv"))
      (natural_name_key to_ascii_lowercase (codes "Episode " ++ codes "10" ++ codes " b.mkv"))
    ≡ Ordering.lt
unfolding codes
natural_name_key-value_example =
    natural_name_key-value to_ascii_lowercase (codes "Episode ") (codes "002") (codes "10")
      (codes ".mkv") (codes " b.mkv")
      (refl, (refl, (refl, (refl, (refl, (refl, (refl, (refl, tt))))))))
      (
        (
          (omega arith, omega arith),
          ((omega arith, omega arith), ((omega arith, omega arith), tt)),
        ),
        omega arith,
      )
      (((omega arith, omega arith), ((omega arith, omega arith), tt)), omega arith) refl refl
      (omega arith)
