-- ===== src/Client/Commands.antt =====
-- The commands of `Cifs` (src/lib.rs): sending a message, waiting for its reply, and the operations
-- on shares, files and directories that do this.
mod Monad
pub mod Reading
pub mod Laws
pub mod Pipelined
pub mod Setup
pub mod Files
mod Tests
pub use Monad.*
use cifs_client_stream.Common.{
  ℕ, zero, suc, ◌+◌, ◌-◌, ◌%◌, ◌^◌, List, [], ◌∷◌, Option, none, some, Bool, true, false, leb,
  if◌then◌else◌, Result, ok, err, Run, done, fails, panics, length,
}
use cifs_client_stream.Errors.{Error, smb_error, internal_error}
use cifs_client_stream.Media.Names.{Name}
use cifs_client_stream.Smb.Codes.{Cmd, SmbError}
use cifs_client_stream.Smb.Collector.{CollectTrans2, new_collect, add_part, get}
use cifs_client_stream.Smb.Handle.{Handle}
use cifs_client_stream.Smb.Info.{Info, default_info, has_flag, flag_unicode, write_info}
use cifs_client_stream.Smb.Frame.{Message, Reply, write, parse_body}
use cifs_client_stream.Smb.Msg.{
  open_msg, file_ro, close_msg, close_handle, read_msg, read_handle_at, tree_connect_msg,
  new_tree_connect, tree_disconnect_msg, negotiate_msg, session_setup_msg, with_auth, with_blob,
}
use cifs_client_stream.Smb.Reply.{
  ServerSetup, SessionSetup, Share, server_setup_reply, session_setup_reply, share_reply,
  handle_reply, read_reply, tree_disconnect_reply, close_reply,
}
use cifs_client_stream.Smb.Trans2.{
  SubCmd, transact2_msg, transact2_reply, find_first2_cmd, find_next2_cmd,
}
use cifs_client_stream.Smb.Trans2.Search.{FirstPage, NextPage, find_first2, find_next2}
use cifs_client_stream.Smb.Wire.{Wire}
use cifs_client_stream.Stream.Buffer.{Bytes}
use cifs_client_stream.Stream.State.{Request}
use cifs_client_stream.Utils.{Chrono, sanitize_path}
use cifs_client_stream.Client.{PendingReply, ReplyType, Inbox, recv}
use cifs_client_stream.Client.Stats.{record_read}

-- `Info::default` with the fields that `send` sets, before `fix_header`.
abbrev pub set_unicode : Bool → ℕ → ℕ
set_unicode true bits = if has_flag bits flag_unicode then bits else bits + flag_unicode
set_unicode false bits = if has_flag bits flag_unicode then bits - flag_unicode else bits

unfoldable pub request_info : {N : Type 0} → Cmd → Cifs N → Info
request_info cmd c =
    let info = default_info cmd in
    record info { uid = c.uid; mid = c.mid; flags2 = set_unicode c.use_unicode info.flags2 }

-- `len.try_into()` for a u32.
abbrev pub to_u32 : ℕ → Result Error ℕ
to_u32 n = if leb (2 ^ 32) n then err (internal_error "numeric conversion failed") else ok n

-- `FileAttr::HIDDEN | FileAttr::SYSTEM | FileAttr::DIRECTORY`.
abbrev pub search_flags : ℕ
search_flags = 0x0016

abbrev pub as_reply_type : {A : Type 0} → Wire → Reply A → ReplyType A
as_reply_type wire r = record { cmd = r.cmd; parse = parse_body wire r }

module _ {N : Type 0} (wire : Wire) (network : Network N) (fuel : ℕ) where
  -- `send` behind the body of the message.
  abbrev pub transmit_frame : Info → Message → Call N (Unit {0})
  transmit_frame info m = do
    frame ← from_smb (write wire m info (write_info wire info []))
    transmit network frame

  -- `Cifs::send`: the ids are u16.
  unfoldable pub send : Message → Call N ℕ
  send m c =
      let info = m.fix_header (request_info m.cmd c) in
      (transmit_frame info m >> pure c.mid) (record c { mid = (c.mid + 1) % 65536 })

  -- `Cifs::recv` for a reply type.
  unfoldable pub recv_reply : {A : Type 0} → Reply A → ℕ → Call N A
  recv_reply r mid c = on_inbox (recv network.recv_frame (as_reply_type wire r) fuel mid c.inbox) c

  -- `Cifs::command`.
  unfoldable pub command : {A : Type 0} → Message → Reply A → Call N A
  command m r = send m >>= recv_reply r

  -- `mount_password` and `mount`, `umount_ref`, `openfile` and `close_ref`.
  unfoldable pub mount_password : Name → Name → Call N Share
  mount_password path password =
      command (tree_connect_msg wire (new_tree_connect (sanitize_path path) password))
        (share_reply wire)

  unfoldable pub mount : Name → Call N Share
  mount path = mount_password path []

  unfoldable pub umount_ref : Share → Call N (Unit {0})
  umount_ref share = command (tree_disconnect_msg share.tid) tree_disconnect_reply

  unfoldable pub openfile : Share → Name → Call N Handle
  openfile share path =
      command (open_msg wire (file_ro share.tid (sanitize_path path))) (handle_reply wire)

  unfoldable pub close_ref : Handle → Call N (Unit {0})
  close_ref file = command (close_msg wire (close_handle file)) close_reply

  -- A reply to Read, recorded with the time since it was asked for.
  unfoldable pub timed_reply : ℕ → ℕ → Call N Bytes
  timed_reply mid started c =
      (recv_reply (read_reply wire) mid >>= λ content. λ c₁. pure content (record c₁ {
        io_stats =
            record_read (length content) (network.now c₁.inbox.netbios - started) c₁.io_stats;
      }))
        c

  -- `read_at`.
  unfoldable pub read_at : Handle → ℕ → ℕ → Call N Bytes
  read_at file offset zero c = pure [] c
  read_at file offset (suc count) c =
      let started = network.now c.inbox.netbios in
      (send (read_msg wire (read_handle_at file offset (suc count))) >>= λ mid.
      timed_reply mid started)
        c

  -- The first loop of `read_at_pipelined`: the ids of the requests with their starts.
  unfoldable pub send_reads : Handle → List Request → Call N (List (ℕ × ℕ))
  send_reads file [] c = pure [] c
  send_reads file (r ∷ rs) c =
      let started = network.now c.inbox.netbios in
      (do
        count ← from_result (to_u32 r.len)
        mid ← send (read_msg wire (read_handle_at file r.offset count))
        others ← send_reads file rs
        pure ((mid, started) ∷ others))
        c

  -- Its second loop.
  unfoldable pub collect_reads : List (ℕ × ℕ) → Call N (List Bytes)
  collect_reads [] = pure []
  collect_reads (m ∷ ms) = do
    content ← timed_reply m.0 m.1
    others ← collect_reads ms
    pure (content ∷ others)

  -- `read_at_pipelined`.
  unfoldable pub read_at_pipelined : Handle → List Request → Call N (List Bytes)
  read_at_pipelined file [] = pure []
  read_at_pipelined file (r ∷ []) = do
    count ← from_result (to_u32 r.len)
    chunk ← read_at file r.offset count
    pure (chunk ∷ [])
  read_at_pipelined file (r ∷ s ∷ rs) = do
    in_flight ← send_reads file (r ∷ s ∷ rs)
    collect_reads in_flight

  -- The loop of `transact2`, on fuel: `add` until both parts are complete.
  unfoldable pub gather : ℕ → ℕ → CollectTrans2 → Call N CollectTrans2
  gather zero mid ctx = out_of_fuel
  gather (suc left) mid ctx = do
    reply ← recv_reply (transact2_reply wire) mid
    added ← from_smb_result (add_part reply ctx)
    if added.0 then pure added.1 else gather left mid added.1

  -- `transact2`, and `CollectTrans2::get_subreply`.
  unfoldable pub transact2 : {A : Type 0} → ℕ → SubCmd → (Bytes → Bytes → Run SmbError A) → Call N A
  transact2 tid subcmd parse = do
    mid ← send (transact2_msg wire (record { tid = tid; subcmd = subcmd }))
    ctx ← gather fuel mid new_collect
    parameter ← from_smb_result (get ctx.parameter)
    content ← from_smb_result (get ctx.content)
    from_smb (parse parameter content)

  -- `find_first` and `find_next`.
  unfoldable pub find_first : (chrono : Chrono) → Share → Name → Call N (FirstPage chrono)
  find_first chrono share pattern =
      transact2 share.tid (find_first2_cmd wire (sanitize_path pattern) search_flags)
        (find_first2 wire chrono)

  unfoldable pub find_next : (chrono : Chrono) → Share → ℕ → Name → Call N (NextPage chrono)
  find_next chrono share sid last_file =
      transact2 share.tid (find_next2_cmd wire sid last_file) (find_next2 wire chrono)

  -- `negotiate`, `session_setup` and `session_setup_ntlmv2`.
  unfoldable pub negotiate : (chrono : Chrono) → Call N (ServerSetup chrono)
  negotiate chrono = command (negotiate_msg wire) (server_setup_reply wire chrono)

  unfoldable pub session_setup : Name → Name → Bytes → Call N SessionSetup
  session_setup user domain secret =
      command (session_setup_msg wire (with_auth user domain secret)) (session_setup_reply wire)

  unfoldable pub session_setup_ntlmv2 : Bytes → Call N SessionSetup
  session_setup_ntlmv2 blob =
      command (session_setup_msg wire (with_blob blob)) (session_setup_reply wire)
