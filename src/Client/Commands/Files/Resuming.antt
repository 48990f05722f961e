-- ===== src/Client/Commands/Files/Resuming.antt =====
-- A directory reader over the client always has a point to go on from.
use cifs_client_stream.Common.{◌≡◌, List, some}
use cifs_client_stream.Media.{DirInfo}
use cifs_client_stream.Smb.Reply.{Share}
use cifs_client_stream.Smb.Trans2.Search.Filled.{Filled}
use cifs_client_stream.Smb.Wire.{Wire}
use cifs_client_stream.Client.Commands.{Call, transact2}
use cifs_client_stream.Client.Commands
use cifs_client_stream.Client.Directory.{DirectoryReader, CanResume, GoesOnFrom}

-- A reader as it is opened: the first page waits, and the reader goes on from its last entry.
pub record Opened (share : Share) (r : DirectoryReader) : Type 0 where
  pub tree : r.tid ≡ share.tid
  pub first : List DirInfo
  pub waits : r.pending ≡ some first
  pub from_last : GoesOnFrom first r
  pub can : CanResume r
