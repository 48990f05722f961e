-- ===== src/Client/Unfinished.antt =====
-- Replies of a server that has not finished a session setup, and `recv` on them (src/lib.rs).
use cifs_client_stream.Common.{
  ℕ, zero, suc, ◌≡◌, ◌⊎◌, inl, inr, refl, sym, ap, List, [], ◌∷◌, ◌++◌, map, Option, none, some,
  true, false, Bool-cases, ◌==◌, Run, done, fails, panics,
}
use cifs_client_stream.Errors.{Error}
use cifs_client_stream.Win.{NtStatus}
use cifs_client_stream.Smb.Codes.{Cmd, Status, known}
use cifs_client_stream.Smb.Info.{Info}
use cifs_client_stream.Stream.Buffer.{Bytes}
use cifs_client_stream.Client.{
  PendingReply, ReplyType, parse_reply, status_allowed, find_reply, remove_reply, Inbox, Outcome,
  Source, dispatch, recv_loop, recv,
}

-- In place of SUCCESS, a session setup says that more processing is required.
abbrev pub raise : Cmd → Status → Status
raise Cmd.session_setup (known NtStatus.success) = known NtStatus.more_processing
raise cmd s = s

abbrev pub with_status : Status → Info → Info
with_status s info = record info { status = s }

abbrev pub unfinished : PendingReply → PendingReply
unfinished p = record p { info = with_status (raise p.info.cmd p.info.status) p.info }

abbrev pub unfinished_next : {N : Type 0} → Run Error PendingReply × N → Run Error PendingReply × N
unfinished_next (done p, n) = (done (unfinished p), n)
unfinished_next (fails e, n) = (fails e, n)
unfinished_next (panics, n) = (panics, n)

raise_lem :
    (cmd : Cmd) (s : Status)
    → (raise cmd s ≡ s)
      ⊎ ((status_allowed cmd s ≡ true) × (status_allowed cmd (raise cmd s) ≡ true))
unfolding status_allowed
raise_lem Cmd.session_setup (known NtStatus.success) = inr (refl, refl)
raise_lem cmd s = inl refl

-- A parser that does not look at the status.
abbrev pub IsBlind : {A : Type 0} → ReplyType A → Type 0
IsBlind r =
    (s : Status) (info : Info) (body : Bytes)
    → r.parse (with_status s info) body ≡ r.parse info body

parse_reply_lem :
    {A : Type 0} (r : ReplyType A) (p : PendingReply)
    → IsBlind r
    → parse_reply r (unfinished p) ≡ parse_reply r p
unfolding parse_reply
parse_reply_lem r p blind = elim (raise_lem p.info.cmd p.info.status) [
  | inl same ↦ ap (λ s. parse_reply r (record p { info = with_status s p.info })) same
  | inr allowed ↦
      rw (allowed.0, allowed.1, blind (raise p.info.cmd p.info.status) p.info p.body) refl
]

abbrev seen_entry : Option PendingReply → Option PendingReply
seen_entry none = none
seen_entry (some p) = some (unfinished p)

find_reply_lem :
    (m : ℕ) (ps : List PendingReply)
    → find_reply m (map unfinished ps) ≡ seen_entry (find_reply m ps)
find_reply_lem m [] = refl
find_reply_lem m (p ∷ ps) = elim (Bool-cases (p.info.mid == m)) [
  | inl here ↦ rw here refl
  | inr other ↦ rw other (find_reply_lem m ps)
]

remove_reply_lem :
    (m : ℕ) (ps : List PendingReply)
    → remove_reply m (map unfinished ps) ≡ map unfinished (remove_reply m ps)
remove_reply_lem m [] = refl
remove_reply_lem m (p ∷ ps) = elim (Bool-cases (p.info.mid == m)) [
  | inl here ↦ rw here refl
  | inr other ↦ rw other (ap (λ l. unfinished p ∷ l) (remove_reply_lem m ps))
]

map_behind :
    (ps : List PendingReply) (p : PendingReply)
    → map unfinished (ps ++ p ∷ []) ≡ map unfinished ps ++ unfinished p ∷ []
map_behind [] p = refl
map_behind (q ∷ ps) p = ap (λ l. unfinished q ∷ l) (map_behind ps p)

-- The same inbox, with the pending replies of the other server.
abbrev pub seen_inbox : {N : Type 0} → Inbox N → Inbox N
seen_inbox c = record c { pending = map unfinished c.pending }

abbrev seen_outcome : {N A : Type 0} → Outcome N A → Outcome N A
seen_outcome o = (o.0, seen_inbox o.1)

module _ {N A : Type 0} (rf : Source N) (r : ReplyType A) (blind : IsBlind r) where
  abbrev rf' : Source N
  rf' n = unfinished_next (rf n)

  dispatch_lem :
      (next next' : Inbox N → Outcome N A) (mid : ℕ) (pending : List PendingReply)
      (x : Run Error PendingReply × N)
      → ((c : Inbox N) → next' (seen_inbox c) ≡ seen_outcome (next c))
      → dispatch rf' r next' mid (map unfinished pending) (unfinished_next x)
        ≡ seen_outcome (dispatch rf r next mid pending x)
  unfolding dispatch
  dispatch_lem next next' mid pending (fails e, n) h = refl
  dispatch_lem next next' mid pending (panics, n) h = refl
  dispatch_lem next next' mid pending (done p, n) h = elim (Bool-cases (p.info.mid == mid)) [
    | inl here ↦ rw (here, parse_reply_lem r p blind) refl
    | inr other ↦ kept other (find_reply p.info.mid pending) refl
  ]
    where
      kept :
          (p.info.mid == mid) ≡ false
          → (o : Option PendingReply) → find_reply p.info.mid pending ≡ o
          → dispatch rf' r next' mid (map unfinished pending) (done (unfinished p), n)
            ≡ seen_outcome (dispatch rf r next mid pending (done p, n))
      kept other (some old) e =
          rw
            (
              other,
              find_reply_lem p.info.mid pending,
              e,
              remove_reply_lem p.info.mid pending,
              map_behind (remove_reply p.info.mid pending) p,
            )
            refl
      kept other none e =
          rw (other, find_reply_lem p.info.mid pending, e, sym (map_behind pending p))
            (h (record { netbios = n; pending = pending ++ p ∷ [] }))

  recv_loop_lem :
      (fuel mid : ℕ) (c : Inbox N)
      → recv_loop rf' r fuel mid (seen_inbox c) ≡ seen_outcome (recv_loop rf r fuel mid c)
  unfolding recv_loop
  recv_loop_lem zero mid c = refl
  recv_loop_lem (suc fuel) mid c =
      dispatch_lem (recv_loop rf r fuel mid) (recv_loop rf' r fuel mid) mid c.pending (rf c.netbios)
        (recv_loop_lem fuel mid)

  pub recv_lem :
      (fuel mid : ℕ) (c : Inbox N)
      → recv rf' r fuel mid (seen_inbox c) ≡ seen_outcome (recv rf r fuel mid c)
  unfolding recv
  recv_lem fuel mid c = go (find_reply mid c.pending) refl
    where
      go :
          (o : Option PendingReply)
          → find_reply mid c.pending ≡ o
          → recv rf' r fuel mid (seen_inbox c) ≡ seen_outcome (recv rf r fuel mid c)
      go (some p) e =
          rw
            (
              find_reply_lem mid c.pending,
              e,
              parse_reply_lem r p blind,
              remove_reply_lem mid c.pending,
              recv,
            )
            refl
      go none e = rw (find_reply_lem mid c.pending, e, recv) (recv_loop_lem fuel mid c)
