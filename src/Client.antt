-- ===== src/Client.antt =====
-- The reply side of `Cifs` (src/lib.rs): a reply goes to the request with its multiplex id, and
-- one that arrives early waits in `pending_replies`.
pub mod Pool
pub mod Receiving
pub mod Unfinished
pub mod Stats
pub mod Directory
pub mod Commands
pub mod Inserted
pub mod Streaming
mod Tests
use cifs_client_stream.Common.{
  ℕ, zero, suc, List, [], ◌∷◌, ◌++◌, Option, none, some, Bool, true, false, ◌==◌, if◌then◌else◌,
  Run, done, fails, panics,
}
use cifs_client_stream.Win.{NtStatus}
use cifs_client_stream.Smb.Info.{Info}
use cifs_client_stream.Smb.Codes.{Cmd, code, SmbError, Status, known, unknown}
use cifs_client_stream.Errors.{Error, smb_error, internal_error, unexpected_reply, server_error}
use cifs_client_stream.Stream.Buffer.{Bytes}

pub record PendingReply : Type 0 where
  pub info : Info
  pub body : Bytes

-- A reply type: its command, and its `parse`.
pub record ReplyType (A : Type 0) : Type 0 where
  pub cmd : Cmd
  pub parse : Info → Bytes → Run SmbError A

-- `e.into()` on the error of a parser.
abbrev pub lift_smb : {A : Type 0} → Run SmbError A → Run Error A
lift_smb (done a) = done a
lift_smb (fails e) = fails (smb_error e)
lift_smb panics = panics

-- The test of the status in `Cifs::parse_reply`.
unfoldable pub status_allowed : Cmd → Status → Bool
status_allowed cmd (known NtStatus.success) = true
status_allowed Cmd.session_setup (known NtStatus.more_processing) = true
status_allowed cmd s = false

-- `Cifs::parse_reply`.
unfoldable pub parse_reply : {A : Type 0} → ReplyType A → PendingReply → Run Error A
unfolding code status_allowed
parse_reply r p =
    if code p.info.cmd == code r.cmd
    then (if status_allowed p.info.cmd p.info.status
        then lift_smb (r.parse p.info p.body)
        else fails (server_error p.info.status))
    else fails (unexpected_reply r.cmd p.info.cmd)

-- `pending_replies` as a list of entries: `remove`, split into the entry and the others, and the
-- test of `insert`.
abbrev pub find_reply : ℕ → List PendingReply → Option PendingReply
find_reply mid [] = none
find_reply mid (p ∷ ps) = if p.info.mid == mid then some p else find_reply mid ps

abbrev pub remove_reply : ℕ → List PendingReply → List PendingReply
remove_reply mid [] = []
remove_reply mid (p ∷ ps) = if p.info.mid == mid then ps else p ∷ remove_reply mid ps

-- What `recv` uses of `Cifs`; the connection's state is an `N`.
pub record Inbox (N : Type 0) : Type 0 where
  pub netbios : N
  pub pending : List PendingReply

-- What a call returns: `none` says that its fuel ran out.
abbrev pub Outcome : Type 0 → Type 0 → Type 0
Outcome N A = Option (Run Error A) × Inbox N

-- `recv_frame`: the header and the body of the next message.
abbrev pub Source : Type 0 → Type 0
Source N = N → Run Error PendingReply × N

module _ {N A : Type 0} (recv_frame : Source N) (r : ReplyType A) where
  -- The `loop` of `Cifs::recv` behind its `recv_frame`. An entry that is there already is replaced
  -- before the call fails.
  pub dispatch :
      (Inbox N → Outcome N A) → ℕ → List PendingReply → Run Error PendingReply × N → Outcome N A
  dispatch next mid pending (fails e, n) =
      (some (fails e), record { netbios = n; pending = pending })
  dispatch next mid pending (panics, n) = (some panics, record { netbios = n; pending = pending })
  dispatch next mid pending (done p, n) =
      if p.info.mid == mid
      then (some (parse_reply r p), record { netbios = n; pending = pending })
      else elim (find_reply p.info.mid pending) [
        | some old ↦ (
          some (fails (internal_error "duplicate pending SMB reply")),
          record { netbios = n; pending = remove_reply p.info.mid pending ++ p ∷ [] },
        )
        | none ↦ next (record { netbios = n; pending = pending ++ p ∷ [] })
      ]

  -- The `loop` of `Cifs::recv`, on fuel.
  pub recv_loop : ℕ → ℕ → Inbox N → Outcome N A
  unfolding dispatch
  recv_loop zero mid c = (none, c)
  recv_loop (suc fuel) mid c = dispatch (recv_loop fuel mid) mid c.pending (recv_frame c.netbios)

  -- `Cifs::recv`.
  pub recv : ℕ → ℕ → Inbox N → Outcome N A
  unfolding recv_loop
  recv fuel mid c = elim (find_reply mid c.pending) [
    | some p ↦ (some (parse_reply r p), record c { pending = remove_reply mid c.pending })
    | none ↦ recv_loop fuel mid c
  ]
