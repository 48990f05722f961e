-- ===== src/Lib.antt =====
-- Verification library of cifs-client-stream, an SMB1 client (Rust) that streams media files.
--
-- The program. `NetBios` (src/netbios.rs) frames messages on a TCP stream. `Cifs` (src/lib.rs) sends
-- SMB messages (src/smb) in such frames and hands each reply to the request with its multiplex id; replies of a
-- Transact2 command come in fragments (src/smb/trans2/collector.rs). `StreamingWorker` (src/lib.rs)
-- reads a file ahead of the player by pipelined reads, through a `StreamingWorkerState` with a
-- `StreamingBuffer`. The media listing (src/lib.rs) turns directory entries into what a player shows.
--
-- The modules.
--   Common     shared names: Boolean tests, lists over the native numbers, `Result`, signed integers.
--   Win, Smb   status and command codes (src/win.rs, src/smb/info.rs, src/smb/error.rs), `Handle`, and
--              Smb.Collector for the reassembly. Smb.Wire has what the messages use of the crates
--              `bytes` and `bitflags`; over it stand Smb.Info (the header), Smb.Frame (`Msg::write`,
--              `Reply::parse`, `AndX`), Smb.Msg (src/smb/msg.rs), Smb.Reply (src/smb/reply.rs),
--              Smb.Trans2 and Smb.Trans2.Search (src/smb/trans2, `DirInfo` of src/smb/common.rs).
--   Utils      alignment, paths, times, UTF-8 and UTF-16 (src/utils.rs).
--   Errors     `Error` and its classification (src/error.rs).
--   Netbios    frames and the session (src/netbios.rs), `encode_netbios_name` (src/utils.rs).
--   Ntlm       packets with fields that point to data, the initial message, the challenge and the answers to
--              it (src/ntlm), over the digests and the cipher as a parameter.
--   Client     `Cifs::recv`, `parse_reply`, `CifsIoStats` and `DirectoryReader::next` (src/lib.rs);
--              Client.Commands sends messages, waits for their replies, and has the operations on
--              shares, files and searches that do this; Client.Commands.Setup opens a connection, and
--              Client.Commands.Files has streams, directory readers and complete listings.
--              Client.Streaming puts the worker of Stream on `read_at_pipelined` of the client.
--   Media      names, kinds, main video, summaries and presentations, and the order of a listing
--              (src/lib.rs).
--   Ffi        the C interface (src/ffi.rs): texts and JSON, listings, and reads of a media file.
--   Stream     options, buffer, seek, worker state, worker and media stream (src/lib.rs).
--
-- How code and model correspond. A struct is a record and an enum a data type with the source's names;
-- where a Rust name is taken by another item or by the language, the comment at the definition names
-- the item. A method that changes `self` returns the new value beside its result. `Bytes` is the list
-- of its bytes, and a `HashMap` the list of its entries. `+` and `-` on `usize` and `u64` wrap at
-- 2 ^ 64. An operation of an external crate is a parameter: the socket's operations are the record
-- `Socket`, of which `IsReliable` and `IsWriter` state what a socket without I/O errors does. The worker
-- stands on a `Reader`, the connection's `read_at_pipelined`, of which `IsFaithful` states that the
-- bytes are the file's and that no read within the file comes short. `Inbox` is the part of `Cifs` that
-- `recv` uses, over a source of parsed messages, of which `IsSource` says that it gives them in turn.
--
-- `Run` is the outcome of code that can fail or panic. The buffers of the messages are a parameter
-- `Wire`, of which `IsWire` states what the crates document of each operation; `Plain` is an instance.
-- The dates of `chrono` are a parameter as well. `Network` is the connection under the commands; `Serves`
-- states that a server on it takes each read within the file and puts the reply with its data anywhere
-- among those to come. A text is the list of its characters, and a flag set is its bits.
--
-- Fuel. `fill` has one unit for each byte of the file and one more, since each round moves the source
-- position; `extend` one for each chunk and one more; `read_loop` and `write_loop` one for each byte.
-- `recv_message` waits for a message for ever while keepalives come, and `recv_loop` while other
-- replies come: both take their fuel as an argument, and `none` says that it ran out. So does `gather`,
-- the loop of `transact2`. The loops over a buffer (`str_loop`, `utf16_loop`, `entries`) have one unit
-- for what each turn takes of the bytes that remain, so that at zero there is nothing left to take.
--
-- The loop of `list` takes its fuel as an argument too. `read_chunks` has one unit for each byte asked for and
-- one more, and `natural_name_key` one for each character.
--
-- `str::to_lowercase` and the timer of the runtime are parameters. In Ffi a pointer is null or leads to what it
-- was made for, and the messages of a failed read are constructors of `MediaError`.
--
-- Not modelled: `resolve_smb_uri`, a regular expression of a crate.
-- Left out: the timers of src/lib.rs, logging, `Display`, the sessions and the plain-text listing of the C interface,
-- and the smoke test program.
pub mod Common
pub mod Win
pub mod Utils
pub mod Smb
pub mod Errors
pub mod Ffi
pub mod Netbios
pub mod Ntlm
pub mod Client
pub mod Media
pub mod Stream
pub mod Tests
