-- ===== src/Client/Commands/Laws.antt =====
-- `read_at_pipelined` against a server that holds the file and answers in any order.
use cifs_client_stream.Common.{
  ℕ, suc, ◌+◌, ◌%◌, ◌≤◌, ◌<◌, ◌≡◌, ◌≢◌, refl, sym, ap, subst, ◌∙◌, List, [], ◌∷◌, Option, none,
  some, All, arith, length, take, drop, Run, done, fails, panics,
}
use cifs_client_stream.Errors.{Error}
use cifs_client_stream.Stream.Buffer.{Bytes}
use cifs_client_stream.Stream.State.{Request}
use cifs_client_stream.Smb.Handle.{Handle}
use cifs_client_stream.Smb.Info.{Info, write_info}
use cifs_client_stream.Smb.Frame.{write}
use cifs_client_stream.Smb.Msg.{read_msg, read_handle_at}
use cifs_client_stream.Smb.Reply.{read_reply}
use cifs_client_stream.Smb.Wire.{Wire}
use cifs_client_stream.Smb.Wire.Plain.{IsWire}
use cifs_client_stream.Client.{PendingReply, find_reply, remove_reply, parse_reply}
use cifs_client_stream.Client.Pool.{mid_of, Distinct, find-remove, length-remove, remove-Distinct}
use cifs_client_stream.Client.Receiving.{IsSource, pool, recv-Answers}
use cifs_client_stream.Client.Inserted.{Inserted, Inserted-append, Inserted-length}
use cifs_client_stream.Client.Commands.{
  Cifs, Network, Call, then_call, as_reply_type, request_info, send, timed_reply, collect_reads,
  recv_reply,
}
use cifs_client_stream.Client.Commands.Reading.{IsDataReply, read_written}

abbrev pub slice_of : Bytes → Request → Bytes
slice_of file r = take r.len (drop r.offset file)

-- A connection to a server that holds the file: it takes each read within the file, and sooner or
-- later the reply with its data and its id is among those to come, before or behind the others.
pub record Serves {N : Type 0} (wire : Wire) (network : Network N) (coming : N → List PendingReply)
    (file : Bytes) (h : Handle) : Type 0 where
  pub source : IsSource network.recv_frame coming
  pub takes :
      (offset count : ℕ) (info : Info) (frame : Bytes) (n : N)
      → offset + count ≤ length file
      → count < 65536
      → info.mid < 65536
      → write wire (read_msg wire (read_handle_at h offset count)) info (write_info wire info [])
        ≡ done frame
      → (n' : N) × (p : PendingReply) × (network.send_message frame n ≡ (some (done tt), n'))
        × Inserted p (coming n) (coming n')
        × (mid_of p ≡ info.mid)
        × IsDataReply wire (take count (drop offset file)) p

pub then_call-done :
    {N A B : Type 0} (o : Option (Run Error A) × Cifs N) (a : A) (next : A → Call N B)
    → o.0 ≡ some (done a)
    → then_call o next ≡ next a o.1
then_call-done (none, c) a next e = absurd (cc)
then_call-done (some (fails x), c) a next e = absurd (cc)
then_call-done (some panics, c) a next e = absurd (cc)
then_call-done (some (done b), c) a next e = let same : b ≡ a = cc in ap (λ v. next v c) same

pub All-weaken :
    (P Q : PendingReply → Type 0) (ps : List PendingReply)
    → ((p : PendingReply) → P p → Q p)
    → All P ps
    → All Q ps
All-weaken P Q [] f h = tt
All-weaken P Q (p ∷ ps) f h = (f p h.0, All-weaken P Q ps f h.1)

module _ {N : Type 0} (wire : Wire) (w : IsWire wire) (network : Network N) (fuel : ℕ)
    (coming : N → List PendingReply) (file : Bytes) (h : Handle)
    (server : Serves wire network coming file h) where
  abbrev pub pool_of : Cifs N → List PendingReply
  pool_of c = pool coming c.inbox

  pub record SentOne (offset count : ℕ) (c c' : Cifs N) : Type 0 where
    pub reply : PendingReply
    pub sent :
        send wire network fuel (read_msg wire (read_handle_at h offset count)) c
        ≡ (some (done c.mid), c')
    pub next_id : c'.mid ≡ (c.mid + 1) % 65536
    pub joins : Inserted reply (pool_of c) (pool_of c')
    pub numbered : mid_of reply ≡ c.mid
    pub carries : IsDataReply wire (take count (drop offset file)) reply
    pub one_more : length (coming c'.inbox.netbios) ≡ suc (length (coming c.inbox.netbios))

  pub send_read :
      (offset count : ℕ) (c : Cifs N)
      → offset + count ≤ length file
      → count < 65536
      → c.mid < 65536
      → (c' : Cifs N) × SentOne offset count c c'
  unfolding send request_info
  send_read offset count c inside small id =
      let m = read_handle_at h offset count in
      let info = (read_msg wire m).fix_header (request_info (read_msg wire m).cmd c) in
      let written = read_written wire w m info in
      let (n', p, taken, joins, numbered, carries) =
        server.takes offset count info written.0 c.inbox.netbios inside small id written.1 in
      (
        record c {
          mid = (c.mid + 1) % 65536;
          inbox = record { netbios = n'; pending = c.inbox.pending };
        },
        record {
          reply = p;
          sent = rw (written.1, taken) refl;
          next_id = refl;
          joins = Inserted-append p c.inbox.pending joins;
          numbered = numbered;
          carries = carries;
          one_more = Inserted-length p joins;
        },
      )

  -- Each id has a reply in the pool, which carries the answer.
  abbrev pub Awaited : List (ℕ × ℕ) → List Bytes → List PendingReply → Type 0
  Awaited [] [] ps = Unit {0}
  Awaited [] (a ∷ as') ps = ⊥
  Awaited (i ∷ is) [] ps = ⊥
  Awaited (i ∷ is) (a ∷ as') ps =
      ((p : PendingReply) × (find_reply i.0 ps ≡ some p)
        × (parse_reply (as_reply_type wire (read_reply wire)) p ≡ done a))
      × Awaited is as' ps

  abbrev pub DistinctIds : List (ℕ × ℕ) → Type 0
  DistinctIds [] = Unit {0}
  DistinctIds (i ∷ is) = All (λ j. j.0 ≢ i.0) is × DistinctIds is

  Awaited-remove :
      (m : ℕ) (ids : List (ℕ × ℕ)) (answers : List Bytes) (ps : List PendingReply)
      → All (λ j. j.0 ≢ m) ids
      → Awaited ids answers ps
      → Awaited ids answers (remove_reply m ps)
  Awaited-remove m [] [] ps others ready = tt
  Awaited-remove m [] (a ∷ as') ps others ready = ready
  Awaited-remove m (i ∷ is) [] ps others ready = ready
  Awaited-remove m (i ∷ is) (a ∷ as') ps others ((p, there, parsed), ready) = (
    (p, find-remove m i.0 ps others.0 ∙ there, parsed),
    Awaited-remove m is as' ps others.1 ready,
  )

  pub timed_reply_lem :
      (mid started : ℕ) (p : PendingReply) (a : Bytes) (c : Cifs N)
      → Distinct (pool_of c)
      → find_reply mid (pool_of c) ≡ some p
      → parse_reply (as_reply_type wire (read_reply wire)) p ≡ done a
      → length (coming c.inbox.netbios) ≤ fuel
      → (c' : Cifs N) × (timed_reply wire network fuel mid started c ≡ (some (done a), c'))
        × (pool_of c' ≡ remove_reply mid (pool_of c))
        × (c'.mid ≡ c.mid)
        × (length (coming c'.inbox.netbios) ≤ length (coming c.inbox.netbios))
  unfolding timed_reply recv_reply
  timed_reply_lem mid started p a c distinct there parsed enough =
      let o =
        recv-Answers network.recv_frame (as_reply_type wire (read_reply wire)) coming fuel mid p
          c.inbox server.source distinct there enough in
      (
        _,
        then_call-done (recv_reply wire network fuel (read_reply wire) mid c) a _
            (o.answer ∙ ap some parsed),
        o.left,
        refl,
        o.fewer,
      )

  pub collect_reads_lem :
      (ids : List (ℕ × ℕ)) (answers : List Bytes) (c : Cifs N)
      → Distinct (pool_of c)
      → DistinctIds ids
      → Awaited ids answers (pool_of c)
      → length (coming c.inbox.netbios) ≤ fuel
      → (c' : Cifs N) × (collect_reads wire network fuel ids c ≡ (some (done answers), c'))
        × (length (pool_of c') + length ids ≡ length (pool_of c))
        × (c'.mid ≡ c.mid)
  unfolding collect_reads
  collect_reads_lem [] [] c distinct different ready enough = (c, refl, omega arith, refl)
  collect_reads_lem [] (a ∷ as') c distinct different ready enough = absurd ready
  collect_reads_lem (i ∷ is) [] c distinct different ready enough = absurd ready
  collect_reads_lem (i ∷ is) (a ∷ as') c distinct different ((p, there, parsed), ready) enough =
      let (c₁, got, left, same, fewer) =
        timed_reply_lem i.0 i.1 p a c distinct there parsed enough in
      let (c₂, rest, emptied, kept) =
        collect_reads_lem is as' c₁
          (subst Distinct (sym left) (remove-Distinct i.0 (pool_of c) distinct)) different.1
          (subst (Awaited is as') (sym left)
            (Awaited-remove i.0 is as' (pool_of c) different.0 ready))
          (omega (arith, fewer, enough)) in
      let one_less = length-remove i.0 p (pool_of c) there in
      (
        c₂,
        rw (got) (
            then_call-done (collect_reads wire network fuel is c₁) as' _ (ap (λ o. o.0) rest)
            ∙ ap (λ o. (some (done (a ∷ as')), o.1)) rest),
        omega (arith, emptied, one_less, ap length left),
        kept ∙ same,
      )
