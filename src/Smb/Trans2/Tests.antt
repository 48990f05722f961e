-- ===== src/Smb/Trans2/Tests.antt =====
-- A search for two entries, and the reply to a transaction.
use cifs_client_stream.Common.{
  ℕ, ◌≡◌, ◌<◌, ◌+◌, ◌-◌, refl, List, [], ◌∷◌, some, true, arith, length, map, done, fails,
}
use cifs_client_stream.Smb.Codes.{Cmd, invalid_data}
use cifs_client_stream.Smb.Collector.{Part}
use cifs_client_stream.Smb.Info.{default_info}
use cifs_client_stream.Smb.Trans2.{Transact2, SubCmd, search_command, create_part}
use cifs_client_stream.Smb.Trans2.Laws.{create_part_lem, part_words, IsPart}
use cifs_client_stream.Smb.Trans2.Search.{find_first2, find_next2}
use cifs_client_stream.Smb.Trans2.Search.Laws.{Sent, IsSent, received, list_bytes}
use cifs_client_stream.Smb.Trans2.Search.Pages.{first_words, next_words, find_first2-find_next2}
use cifs_client_stream.Smb.Wire.Plain.{plain, plain-IsWire, le_bytes}
use cifs_client_stream.Utils.{Chrono}
use cifs_client_stream.Utils.Unicode.{encode_utf16le, encode_utf16, le_units, utf16_units}

-- Dates as microseconds since 1601.
abbrev ticks : Chrono
ticks = record {
  Date = ℕ;
  windows_epoch = 0;
  plus_microseconds = λ date us. date + us;
  microseconds_since = λ later date. some (later - date);
}

abbrev command : SubCmd
command = search_command 1 (1 ∷ 2 ∷ 3 ∷ [])

abbrev part : Part
part = record {
  parameter = 1 ∷ 2 ∷ [];
  parameter_offset = 0;
  parameter_total = 2;
  bytes = 7 ∷ 8 ∷ 9 ∷ [];
  data_offset = 0;
  data_total = 3;
}

part-IsPart : IsPart part 56 60
part-IsPart = record {
  parameter_total_small = omega arith;
  data_total_small = omega arith;
  parameter_small = omega arith;
  parameter_at_small = omega arith;
  parameter_offset_small = omega arith;
  bytes_small = omega arith;
  data_at_small = omega arith;
  data_offset_small = omega arith;
}

create_part_lem_example :
    create_part plain (record {
      info = default_info Cmd.transact2;
      parameter = part_words part 0 56 60 [];
      content = 0 ∷ 1 ∷ 2 ∷ 0 ∷ 0 ∷ 7 ∷ 8 ∷ 9 ∷ [];
      data_offset = 55;
    })
    ≡ done part
create_part_lem_example =
    create_part_lem plain plain-IsWire (default_info Cmd.transact2) part 0 55 (0 ∷ []) (0 ∷ 0 ∷ [])
      [] [] part-IsPart

abbrev entry : ℕ → ℕ → Sent
entry letter size = record {
  index = 0;
  creation_time = 10;
  access_time = 20;
  write_time = 30;
  change_time = 40;
  filesize = size;
  allocation = size;
  attributes = 0x20;
  filename = letter ∷ [];
  padding = [];
}

entry_small :
    (length (encode_utf16le (97 ∷ [])) + 0 < 65536)
    × (length (encode_utf16le (98 ∷ [])) + 0 < 65536)
unfolding encode_utf16le encode_utf16 le_units utf16_units le_bytes
entry_small = (omega arith, omega arith)

a-IsSent : IsSent (entry 97 5)
a-IsSent = record {
  creation_small = omega arith;
  access_small = omega arith;
  write_small = omega arith;
  change_small = omega arith;
  size_small = omega arith;
  attributes_small = omega arith;
  attributes_known = refl;
  text = (refl, tt);
  name_short = entry_small.0;
}

b-IsSent : IsSent (entry 98 6)
b-IsSent = record {
  creation_small = omega arith;
  access_small = omega arith;
  write_small = omega arith;
  change_small = omega arith;
  size_small = omega arith;
  attributes_small = omega arith;
  attributes_known = refl;
  text = (refl, tt);
  name_short = entry_small.1;
}

abbrev both : List Sent
both = entry 97 5 ∷ entry 98 6 ∷ []

find_first2-find_next2_example :
    (find_first2 plain ticks (first_words 3 2 1 0 0 []) (list_bytes both)
      ≡ done (record { sid = 3; end = true; info = map (received ticks) both }))
    × (find_next2 plain ticks (next_words 2 1 0 0 []) (list_bytes both) ≡ fails invalid_data)
find_first2-find_next2_example =
    find_first2-find_next2 plain plain-IsWire ticks (entry 97 5) (entry 98 6 ∷ []) 3 1 0 0 []
      (a-IsSent, (b-IsSent, tt)) (omega arith) (omega arith) (omega arith)

abbrev transaction : Transact2
transaction = record { tid = 1; subcmd = command }
