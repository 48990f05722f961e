-- ===== src/Client/Commands/Files.antt =====
-- Streams, directory readers and complete listings of `Cifs`, and the media pages of
-- `DirectoryReader` (src/lib.rs).
pub mod Pages
pub mod Laws
pub mod Resuming
mod Tests
use cifs_client_stream.Common.{
  ℕ, zero, suc, List, [], ◌∷◌, ◌++◌, map, Option, none, some, Bool, true, false, if◌then◌else◌,
  done, fails, panics, Run,
}
use cifs_client_stream.Errors.{Error}
use cifs_client_stream.Media.{DirInfo, MediaEntry, media_entry, retain_media_entries}
use cifs_client_stream.Media.Names.{Name}
use cifs_client_stream.Media.Natural.{sort_dir_entries}
use cifs_client_stream.Smb.Handle.{Handle}
use cifs_client_stream.Smb.Reply.{Share}
use cifs_client_stream.Smb.Trans2.Search.{find_next2, DirEntry, FirstPage, NextPage}
use cifs_client_stream.Smb.Trans2.{find_next2_cmd}
use cifs_client_stream.Smb.Wire.{Wire}
use cifs_client_stream.Stream.Options.{MediaOptions, default_media_options}
use cifs_client_stream.Stream.Seek.{FileStream, new_stream}
use cifs_client_stream.Stream.Worker.{MediaStream, new_media_stream, media_into_stream}
use cifs_client_stream.Utils.{Chrono}
use cifs_client_stream.Client.Commands.{
  Cifs, Network, Call, ◌>>=◌, ◌>>◌, pure, out_of_fuel, from_run, from_result, openfile, close_ref,
  umount_ref, find_first, find_next, transact2,
}
use cifs_client_stream.Client.Directory.{
  DirectoryReader, FindFirst2, FindNext2, Search, Step, last_filename, new_reader, next,
}

-- What the readers use of the entries of a page.
abbrev pub infos : {chrono : Chrono} → List (DirEntry chrono) → List DirInfo
infos es = map (λ e. e.info) es

-- `Option::unwrap`, and what follows.
abbrev pub unwrap : {N A B : Type 0} → Option A → (A → Call N B) → Call N B
unwrap none next = from_run panics
unwrap (some a) next = next a

-- `DirectoryReader::next_media` and `next_media_entries` behind `next`.
abbrev pub media_of : (Name → Name) → List DirInfo → List DirInfo
media_of to_lowercase entries = sort_dir_entries to_lowercase (retain_media_entries entries)

abbrev pub on_page :
    {W A B : Type 0}
    → (A → B)
    → Option (Run Error (Option A)) × DirectoryReader × W
    → Option (Run Error (Option B)) × DirectoryReader × W
on_page f (none, r, w) = (none, r, w)
on_page f (some (fails e), r, w) = (some (fails e), r, w)
on_page f (some panics, r, w) = (some panics, r, w)
on_page f (some (done none), r, w) = (some (done none), r, w)
on_page f (some (done (some page)), r, w) = (some (done (some (f page))), r, w)

unfoldable pub next_media : {W : Type 0} → (Name → Name) → Search W → DirectoryReader → W → Step W
next_media to_lowercase search r w = on_page (media_of to_lowercase) (next search r w)

unfoldable pub next_media_entries :
    {W : Type 0}
    → (Name → Name)
    → Search W
    → DirectoryReader
    → W
    → Option (Run Error (Option (List MediaEntry))) × DirectoryReader × W
next_media_entries to_lowercase search r w =
    on_page (map media_entry) (next_media to_lowercase search r w)

module _ {N : Type 0} (wire : Wire) (network : Network N) (fuel : ℕ) where
  -- `open_stream`, `open_media_stream_with_options` and `open_media_stream`.
  unfoldable pub open_stream : Share → Name → Call N FileStream
  open_stream share path =
      openfile wire network fuel share path >>= λ handle. pure (new_stream handle)

  unfoldable pub open_media_stream_with_options : Share → Name → MediaOptions → Call N MediaStream
  open_media_stream_with_options share path options =
      open_stream share path >>= λ stream. from_result (new_media_stream stream options)

  -- The default options are valid, so that their `expect` is never the error here.
  unfoldable pub open_media_stream : Share → Name → Call N MediaStream
  open_media_stream share path =
      from_result default_media_options >>= open_media_stream_with_options share path

  -- `close`, `close_stream`, `close_media_stream` and `umount`.
  unfoldable pub close : Handle → Call N (Unit {0})
  close file = close_ref wire network fuel file

  unfoldable pub close_stream : FileStream → Call N (Unit {0})
  close_stream stream = close stream.handle

  unfoldable pub close_media_stream : MediaStream → Call N (Unit {0})
  close_media_stream stream = close_stream (media_into_stream stream)

  unfoldable pub umount : Share → Call N (Unit {0})
  umount share = umount_ref wire network fuel share

  module _ (chrono : Chrono) where
    -- `open_dir_reader`, and the search that `DirectoryReader::next` asks.
    unfoldable pub open_dir_reader : Share → Name → Call N DirectoryReader
    open_dir_reader share pattern = do
      reply ← find_first wire network fuel chrono share pattern
      let page : FindFirst2 = record { sid = reply.sid; end = reply.end; info = infos reply.info }
      pure (new_reader share.tid page)

    -- The `transact2` of `DirectoryReader::next`, and the part of its page that the reader takes.
    abbrev pub next_page : NextPage chrono → FindNext2
    next_page page = record { end = page.end; info = infos page.info }

    unfoldable pub search_of : Search (Cifs N)
    search_of tid sid last_file =
        transact2 wire network fuel tid (find_next2_cmd wire sid last_file) (find_next2 wire chrono)
        >>= λ page. pure (next_page page)

    -- The loop of `list`, on fuel: the `unwrap` of the last entry, and the next page.
    unfoldable pub list_from :
        ℕ → Share → ℕ → List (DirEntry chrono) → Call N (List (DirEntry chrono))
    list_from zero share sid result = out_of_fuel
    list_from (suc left) share sid result = unwrap (last_filename (infos result)) λ last_file.
        find_next wire network fuel chrono share sid last_file >>= λ reply.
        if reply.end
        then pure (result ++ reply.info)
        else list_from left share sid (result ++ reply.info)

    -- `list`.
    unfoldable pub list : Share → Name → Call N (List (DirEntry chrono))
    list share pattern = find_first wire network fuel chrono share pattern >>= λ reply.
        if reply.end then pure reply.info else list_from fuel share reply.sid reply.info
