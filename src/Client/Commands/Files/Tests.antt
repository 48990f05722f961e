-- ===== src/Client/Commands/Files/Tests.antt =====
-- A listing of two pages, of one entry each.
use cifs_client_stream.Common.{
  ℕ, ◌+◌, ◌-◌, ◌≡◌, ◌⊎◌, ◌++◌, List, [], ◌∷◌, none, some, true, length, Run, done, fails,
}
use cifs_client_stream.Errors.{Error, internal_error}
use cifs_client_stream.Stream.Buffer.{Bytes}
use cifs_client_stream.Smb.Codes.{Cmd}
use cifs_client_stream.Smb.Collector.{Part}
use cifs_client_stream.Smb.Info.{default_info}
use cifs_client_stream.Smb.Reply.{Share}
use cifs_client_stream.Smb.Trans2.Laws.{part_words}
use cifs_client_stream.Smb.Trans2.Search.Laws.{Sent, list_bytes}
use cifs_client_stream.Smb.Trans2.Search.Pages.{first_words, next_words}
use cifs_client_stream.Smb.Wire.Plain.{plain, le_bytes}
use cifs_client_stream.Utils.{Chrono}
use cifs_client_stream.Client.{PendingReply}
use cifs_client_stream.Client.Stats.{no_stats}
use cifs_client_stream.Client.Commands.{Cifs, Network}
use cifs_client_stream.Client.Commands.Files.{list}
use cifs_client_stream.Client.Commands.Files.Laws.{Listed, list-Listed}

abbrev ticks : Chrono
ticks = record {
  Date = ℕ;
  windows_epoch = 0;
  plus_microseconds = λ date us. date + us;
  microseconds_since = λ later date. some (later - date);
}

abbrev entry : ℕ → Sent
entry letter = record {
  index = 0;
  creation_time = 10;
  access_time = 20;
  write_time = 30;
  change_time = 40;
  filesize = 1;
  allocation = 1;
  attributes = 0x20;
  filename = letter ∷ [];
  padding = [];
}

abbrev page_part : Bytes → Bytes → Part
page_part parameter bytes = record {
  parameter = parameter;
  parameter_offset = 0;
  parameter_total = length parameter;
  bytes = bytes;
  data_offset = 0;
  data_total = length bytes;
}

-- The parameter stands at 56, behind the header, the ten words and a byte of padding.
abbrev page_body : Bytes → Bytes → Bytes
page_body parameter bytes =
    10 ∷ part_words (page_part parameter bytes) 0 56 (56 + length parameter) (0 ∷ 0 ∷ [])
    ++ le_bytes 2 (1 + length parameter + length bytes)
    ++ (0 ∷ parameter)
    ++ bytes

abbrev reply : ℕ → Bytes → Bytes → PendingReply
reply mid parameter bytes = record {
  info = record (default_info Cmd.transact2) { mid = mid };
  body = page_body parameter bytes;
}

abbrev take_next : List PendingReply → Run Error PendingReply × List PendingReply
take_next [] = (fails (internal_error "closed"), [])
take_next (p ∷ ps) = (done p, ps)

abbrev network : Network (List PendingReply)
network = record {
  send_message = λ frame replies. (some (done tt), replies);
  recv_frame = take_next;
  now = λ replies. 0;
}

abbrev waiting : Cifs (List PendingReply)
waiting = record {
  inbox = record {
    netbios =
        reply 7 (first_words 3 1 0 0 0 []) (list_bytes (entry 97 ∷ []))
        ∷ reply 8 (next_words 1 1 0 0 []) (list_bytes (entry 98 ∷ []))
        ∷ [];
    pending = [];
  };
  auth = record { user = []; workstation = []; domain = []; password = [] };
  max_smb_size = 4096;
  use_unicode = true;
  uid = 0;
  mid = 7;
  io_stats = no_stats;
}

abbrev share : Share
share = record { access_rights = none; guest_rights = none; service = []; filesystem = []; tid = 1 }

-- The second page ends with a distance of zero, which FindNext2 refuses.
list-Listed_example :
    ((list plain network 4 ticks share (42 ∷ []) waiting).0 ≡ none)
    ⊎ Listed plain network 4 ticks share
        (42 ∷ [])
        waiting
        (list plain network 4 ticks share (42 ∷ []) waiting)
list-Listed_example = list-Listed plain network 4 ticks share (42 ∷ []) waiting
