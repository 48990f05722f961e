-- ===== src/Client/Commands/Tests.antt =====
-- Two reads of a file of five bytes, on a connection that gives the latest reply first.
use cifs_client_stream.Common.{
  ℕ, ◌+◌, ◌*◌, ◌/◌, ◌%◌, ◌^◌, ◌≤◌, ◌<◌, ◌≡◌, refl, sym, ap, ◌∙◌, List, [], ◌∷◌, Option, none, some,
  true, false, ap₂, arith, length, length-take, take, drop, get_elem?, Run, done, fails,
}
use cifs_client_stream.Errors.{Error, internal_error}
use cifs_client_stream.Stream.Buffer.{Bytes}
use cifs_client_stream.Smb.Codes.{Cmd}
use cifs_client_stream.Smb.Handle.{Handle}
use cifs_client_stream.Smb.Info.{Info, default_info, write_info}
use cifs_client_stream.Smb.Frame.{write, write_andx}
use cifs_client_stream.Smb.Msg.{read_handle_at, Read}
use cifs_client_stream.Smb.Wire.Plain.{plain, plain-IsWire, le_bytes}
use cifs_client_stream.Ntlm.Auth.{Auth}
use cifs_client_stream.Client.{PendingReply}
use cifs_client_stream.Client.Inserted.{front}
use cifs_client_stream.Client.Stats.{no_stats}
use cifs_client_stream.Client.Commands.{Cifs, Network, read_at_pipelined}
use cifs_client_stream.Client.Commands.Laws.{Serves}
use cifs_client_stream.Client.Commands.Pipelined.{Answered, read_at_pipelined_lem}
use cifs_client_stream.Ffi.Media.{Timer, Media, bytes_read, media_read_at}
use cifs_client_stream.Ffi.Media.Laws.{Copied, media_read_at_lem}
use cifs_client_stream.Ffi.Media.Bounds.{WritesWithin, media_read_at-WritesWithin}
use cifs_client_stream.Client.Streaming.{play, play_lem}
use cifs_client_stream.Stream.Options.{default_worker_options}
use cifs_client_stream.Stream.State.Invariant.{Inv}
use cifs_client_stream.Stream.Worker.{StreamingWorker}
use cifs_client_stream.Client.Commands.Reading.{
  data_message, unwrap, data_written, read_frame, plain_read_written, done_inj,
}

abbrev five : Bytes
five = 10 ∷ 20 ∷ 30 ∷ 40 ∷ 50 ∷ []

abbrev handle : Handle
handle = record {
  tid = 1;
  fid = 2;
  oplock = 0;
  disposition = 1;
  create_time = 0;
  access_time = 0;
  write_time = 0;
  change_time = 0;
  attributes = 0x80;
  allocation_size = 5;
  size = 5;
  file_type = 0;
  directory = false;
}

abbrev reply_info : ℕ → Info
reply_info mid = record (default_info Cmd.read) { mid = mid }

abbrev reply_of : ℕ → Bytes → PendingReply
reply_of mid d = record {
  info = reply_info mid;
  body = unwrap (write plain (data_message d) (reply_info mid) []);
}

abbrev or_zero : Option ℕ → ℕ
or_zero (some b) = b
or_zero none = 0

abbrev byte : ℕ → Bytes → ℕ
byte i frame = or_zero (get_elem? frame i)

-- The server takes the id, the offset and the count from their places in the frame.
abbrev answer : Bytes → PendingReply
answer frame =
    reply_of (byte 30 frame + 256 * byte 31 frame)
      (take (byte 43 frame) (drop (byte 39 frame) five))

abbrev take_next : List PendingReply → Run Error PendingReply × List PendingReply
take_next [] = (fails (internal_error "closed"), [])
take_next (p ∷ ps) = (done p, ps)

abbrev network : Network (List PendingReply)
network = record {
  send_message = λ frame replies. (some (done tt), answer frame ∷ replies);
  recv_frame = take_next;
  now = λ replies. length replies;
}

read_frame_bytes :
    (m : Read) (info : Info)
    → (byte 30 (read_frame m info) ≡ info.mid % 256)
      × (byte 31 (read_frame m info) ≡ info.mid / 256 % 256)
      × (byte 39 (read_frame m info) ≡ m.offset % 2 ^ 32 % 256)
      × (byte 43 (read_frame m info) ≡ m.count % 65536 % 256)
unfolding write_info le_bytes write_andx
read_frame_bytes m info = (refl, refl, refl, refl)

answer_lem :
    (offset count : ℕ) (info : Info)
    → offset + count ≤ 5
    → info.mid < 65536
    → answer (read_frame (read_handle_at handle offset count) info)
      ≡ reply_of info.mid (take count (drop offset five))
answer_lem offset count info inside small =
    let (a, b, c, d) = read_frame_bytes (read_handle_at handle offset count) info in
    let mid : info.mid % 256 + 256 * (info.mid / 256 % 256) ≡ info.mid = omega arith in
    let at : offset % 2 ^ 32 % 256 ≡ offset = omega arith in
    let size : count % 65536 % 256 ≡ count = omega arith in
    ap₂ reply_of (ap₂ (λ x y. x + 256 * y) a b ∙ mid)
      (ap₂ (λ x y. take x (drop y five)) (d ∙ size) (c ∙ at))

serves : Serves plain network (λ replies. replies) five handle
serves = record {
  source = record { gives = λ n p ps e. (ps, ap take_next e, refl) };
  takes = λ offset count info frame n inside small id written.
      let same : read_frame (read_handle_at handle offset count) info ≡ frame =
        done_inj _ frame
          (sym (plain_read_written (read_handle_at handle offset count) info) ∙ written) in
      let p = reply_of info.mid (take count (drop offset five)) in
      (
        p ∷ n,
        p,
        ap (λ q. (some (done tt), q ∷ n))
            (ap answer (sym same) ∙ answer_lem offset count info inside id),
        front n,
        refl,
        (
          refl,
          refl,
          data_written plain plain-IsWire (take count (drop offset five)) (reply_info info.mid)
              (omega (arith, length-take count (drop offset five), small)),
        ),
      );
}

abbrev guest : Auth
guest = record { user = []; workstation = []; domain = []; password = [] }

abbrev fresh : Cifs (List PendingReply)
fresh = record {
  inbox = record { netbios = []; pending = [] };
  auth = guest;
  max_smb_size = 1024;
  use_unicode = true;
  uid = 0;
  mid = 7;
  io_stats = no_stats;
}

read_at_pipelined_lem_example :
    Answered plain plain-IsWire network 2
      (λ replies. replies)
      five
      handle
      serves
      ((10 ∷ 20 ∷ []) ∷ (30 ∷ 40 ∷ 50 ∷ []) ∷ [])
      fresh
      (read_at_pipelined plain network 2 handle
        (record { offset = 0; len = 2 } ∷ record { offset = 2; len = 3 } ∷ [])
        fresh)
read_at_pipelined_lem_example =
    read_at_pipelined_lem plain plain-IsWire network 2 (λ replies. replies) five handle serves
      (record { offset = 0; len = 2 } ∷ record { offset = 2; len = 3 } ∷ []) fresh
      ((omega arith, omega arith), ((omega arith, omega arith), tt)) (tt, tt) (omega arith)
      (omega arith) (omega arith)

-- A worker at the start of the file.
abbrev listener : StreamingWorker
listener = record {
  stream = record { handle = handle; position = 0 };
  state = record {
    options = default_worker_options;
    buffer = record { chunks = []; buffered = 0 };
    playback_position = 0;
    source_position = 0;
    file_size = 5;
    source_eof = false;
  };
}

listener-Inv : Inv listener.state
listener-Inv = record {
  options = ground arith;
  buffer = record { counted = refl; full = tt; small = omega arith };
  aligned = refl;
  source_small = omega arith;
  size_small = omega arith;
  eof = refl;
}

play_lem_example :
    play plain plain-IsWire network 16
      (λ replies. replies)
      five
      handle
      serves
      (2 ∷ 1 ∷ 4 ∷ [])
      listener
      fresh
    ≡ some five
play_lem_example =
    play_lem plain plain-IsWire network 16 (λ replies. replies) five handle serves (2 ∷ 1 ∷ 4 ∷ [])
      listener fresh refl listener-Inv (record { sized = refl; matches = refl }) (refl, omega arith)
      (omega arith) (omega arith, (omega arith, (omega arith, tt)))

-- The file through the C interface, with a timer that never runs out.
abbrev no_timer : Timer (List PendingReply)
no_timer = record { elapses = λ ms call c. false; abandoned = λ ms call c. c }

abbrev media : Media (List PendingReply)
media = record {
  session = some (record { inner = some fresh });
  handle = some handle;
  file_size = 5;
}

media_read_at_lem_example :
    Copied plain plain-IsWire network 16
      (λ replies. replies)
      five
      handle
      serves
      (omega arith)
      no_timer
      (λ ms call c. refl)
      (omega arith)
      media
      3
      4
      (0 ∷ 0 ∷ 0 ∷ 0 ∷ [])
      (media_read_at plain network no_timer 16 (some media) 3 (some (0 ∷ 0 ∷ 0 ∷ 0 ∷ [])) 4 0)
media_read_at_lem_example =
    media_read_at_lem plain plain-IsWire network 16 (λ replies. replies) five handle serves
      (omega arith) no_timer (λ ms call c. refl) (omega arith) media 3 4 0 (0 ∷ 0 ∷ 0 ∷ 0 ∷ [])
      fresh refl refl refl (omega arith) (refl, omega arith)

media_read_at-WritesWithin_example :
    WritesWithin bytes_read 4
      (0 ∷ 0 ∷ 0 ∷ 0 ∷ [])
      (media_read_at plain network no_timer 16 (some media) 3 (some (0 ∷ 0 ∷ 0 ∷ 0 ∷ [])) 4 0)
media_read_at-WritesWithin_example =
    media_read_at-WritesWithin plain network no_timer 16 (some media) (0 ∷ 0 ∷ 0 ∷ 0 ∷ []) 3 4 0
