-- ===== src/Client/Commands/Pipelined.antt =====
-- The reads of a block, sent ahead and collected.
use cifs_client_stream.Common.{
  ℕ, zero, suc, ◌+◌, ◌-◌, ◌%◌, ◌^◌, ◌≤◌, ◌<◌, ◌≡◌, ◌≢◌, refl, sym, ap, subst, ◌∙◌, List, [], ◌∷◌,
  map, Option, some, false, leb, All, arith, length, length-take, take, drop, Run, ok, done,
}
use cifs_client_stream.Errors.{Error}
use cifs_client_stream.Stream.Buffer.{Bytes}
use cifs_client_stream.Stream.State.{Request}
use cifs_client_stream.Smb.Handle.{Handle}
use cifs_client_stream.Smb.Wire.{Wire}
use cifs_client_stream.Smb.Wire.Plain.{IsWire}
use cifs_client_stream.Client.{PendingReply, find_reply}
use cifs_client_stream.Client.Pool.{mid_of, Distinct, length-remove}
use cifs_client_stream.Client.Inserted.{
  Inserted-All, Inserted-find, Inserted-find_other, Inserted-Distinct, Inserted-length,
}
use cifs_client_stream.Client.Commands.{
  Cifs, Network, to_u32, send_reads, collect_reads, read_at, read_at_pipelined,
}
use cifs_client_stream.Client.Commands.Laws.{
  slice_of, Serves, then_call-done, All-weaken, pool_of, send_read, Awaited, DistinctIds,
  collect_reads_lem, timed_reply_lem,
}
use cifs_client_stream.Client.Commands.Reading.{parse_reply-IsDataReply}

-- A request within the file that fits the count of a reply.
abbrev pub Within : Bytes → Request → Type 0
Within file r = (r.offset + r.len ≤ length file) × (r.len < 65536)

to_u32_lem : (n : ℕ) → n < 65536 → to_u32 n ≡ ok n
to_u32_lem n h = let small : leb (2 ^ 32) n ≡ false = ground arith in rw (small) refl

-- How far an id is behind the next one to give out, round the 65536 ids.
abbrev pub ahead : ℕ → ℕ → ℕ
ahead next id = (id + 65536 - next) % 65536

module _ {N : Type 0} (wire : Wire) (w : IsWire wire) (network : Network N) (fuel : ℕ)
    (coming : N → List PendingReply) (file : Bytes) (h : Handle)
    (server : Serves wire network coming file h) where
  -- No two replies share an id, and none has one of the next `k` ids.
  abbrev pub Open : ℕ → Cifs N → Type 0
  Open k c =
      Distinct (pool_of wire w network fuel coming file h server c)
      × All (λ q. k ≤ ahead c.mid (mid_of q)) (pool_of wire w network fuel coming file h server c)

  abbrev FoundIn : Cifs N → ℕ → PendingReply → Type 0
  FoundIn c m p = find_reply m (pool_of wire w network fuel coming file h server c) ≡ some p

  -- What sending the requests leaves: the ids, each with the answer to its request.
  record Sent (rs : List Request) (c : Cifs N) (o : Option (Run Error (List (ℕ × ℕ))) × Cifs N)
      : Type 0 where
    ids : List (ℕ × ℕ)
    sent : o.0 ≡ some (done ids)
    awaited :
        Awaited wire w network fuel coming file h server ids
          (map (slice_of file) rs)
          (pool_of wire w network fuel coming file h server o.1)
    distinct : Distinct (pool_of wire w network fuel coming file h server o.1)
    fresh : All (λ i. ahead c.mid i.0 < length rs) ids
    different : DistinctIds wire w network fuel coming file h server ids
    keeps : (m : ℕ) (p : PendingReply) → length rs ≤ ahead c.mid m → FoundIn c m p → FoundIn o.1 m p
    bounded : length (coming o.1.inbox.netbios) ≡ length (coming c.inbox.netbios) + length rs
    joined :
        length (pool_of wire w network fuel coming file h server o.1)
        ≡ length (pool_of wire w network fuel coming file h server c) + length rs
    counted : length ids ≡ length rs
    small : o.1.mid < 65536

  fresh_later :
      (k m n : ℕ) (ids : List (ℕ × ℕ))
      → m < 65536
      → k < 65536
      → n ≡ (m + 1) % 65536
      → All (λ i. ahead n i.0 < k) ids
      → All (λ i. ahead m i.0 < suc k) ids × All (λ i. i.0 ≢ m) ids
  fresh_later k m n [] small few e f = (tt, tt)
  fresh_later k m n (i ∷ is) small few e f =
      let (low, other) = fresh_later k m n is small few e f.1 in
      ((omega (arith, f.0, e), low), (λ same. absurd (omega (arith, e, same, f.0)), other))

  send_reads-Sent :
      (rs : List Request) (c : Cifs N)
      → All (Within file) rs
      → Open (length rs) c
      → c.mid < 65536
      → length rs ≤ 65536
      → Sent rs c (send_reads wire network fuel h rs c)
  unfolding send_reads
  send_reads-Sent [] c v open_c small few = record {
    ids = [];
    sent = refl;
    awaited = tt;
    distinct = open_c.0;
    fresh = tt;
    different = tt;
    keeps = λ m p less e. e;
    bounded = omega arith;
    joined = omega arith;
    counted = refl;
    small = small;
  }
  send_reads-Sent (r ∷ rs) c v open_c small few =
      let (c₁, one) =
        send_read wire w network fuel coming file h server r.offset r.len c v.0.0 v.0.1 small in
      let pool_c = pool_of wire w network fuel coming file h server c in
      let others : All (λ q. mid_of q ≢ mid_of one.reply) pool_c =
        All-weaken (λ q. suc (length rs) ≤ ahead c.mid (mid_of q)) _ _
          (λ q far e. omega (arith, far, e, one.numbered, small)) open_c.1 in
      let farther : All (λ q. length rs ≤ ahead c₁.mid (mid_of q))
          (pool_of wire w network fuel coming file h server c₁) =
        Inserted-All (λ q. length rs ≤ ahead c₁.mid (mid_of q)) one.reply one.joins
          (omega (arith, one.numbered, one.next_id, small, few))
          (All-weaken (λ q. suc (length rs) ≤ ahead c.mid (mid_of q)) _ _
            (λ q far. omega (arith, far, one.next_id, small)) open_c.1) in
      let rest =
        send_reads-Sent rs c₁ v.1 (Inserted-Distinct one.reply one.joins others open_c.0, farther)
          (omega (arith, one.next_id)) (omega (arith, few)) in
      let o = send_reads wire network fuel h rs c₁ in
      let started = network.now c.inbox.netbios in
      let (low, other) =
        fresh_later (length rs) c.mid c₁.mid rest.ids small (omega (arith, few)) one.next_id
          rest.fresh in
      let there : FoundIn o.1 c.mid one.reply =
        rest.keeps c.mid one.reply (omega (arith, one.next_id, small, few)) (
          ap (λ m. find_reply m (pool_of wire w network fuel coming file h server c₁))
            (sym one.numbered)
          ∙ Inserted-find one.reply one.joins others) in
      let short : length (slice_of file r) < 65536 =
        omega (arith, length-take r.len (drop r.offset file), v.0.1) in
      let parsed = parse_reply-IsDataReply wire w (slice_of file r) one.reply short one.carries in
      let whole : send_reads wire network fuel h (r ∷ rs) c
          ≡ (some (done ((c.mid, started) ∷ rest.ids)), o.1) =
        rw (to_u32_lem r.len v.0.1, one.sent) (then_call-done o rest.ids _ rest.sent) in
      subst (Sent (r ∷ rs) c) (sym whole) (record {
        ids = (c.mid, started) ∷ rest.ids;
        sent = refl;
        awaited = ((one.reply, there, parsed), rest.awaited);
        distinct = rest.distinct;
        fresh = (omega (arith, small), low);
        different = (other, rest.different);
        keeps = λ m p far e. rest.keeps m p (omega (arith, far, one.next_id, small)) (
            Inserted-find_other one.reply m one.joins
              (λ same. omega (arith, same, one.numbered, far, small))
            ∙ e);
        bounded = omega (arith, rest.bounded, one.one_more);
        joined = omega (arith, rest.joined, Inserted-length one.reply one.joins);
        counted = ap suc rest.counted;
        small = rest.small;
      })

  -- The bytes are there, and besides them the connection is as before.
  pub record Answered {A : Type 0} (a : A) (c : Cifs N) (o : Option (Run Error A) × Cifs N)
      : Type 0 where
    pub answered : o.0 ≡ some (done a)
    pub settled :
        length (pool_of wire w network fuel coming file h server o.1)
        ≡ length (pool_of wire w network fuel coming file h server c)
    pub next_id : o.1.mid < 65536

  pub read_at_lem :
      (offset count : ℕ) (c : Cifs N)
      → offset + count ≤ length file
      → count < 65536
      → Open 1 c
      → c.mid < 65536
      → length (coming c.inbox.netbios) + 1 ≤ fuel
      → Answered (take count (drop offset file)) c (read_at wire network fuel h offset count c)
  unfolding read_at
  read_at_lem offset zero c inside small open_c id enough = record {
    answered = refl;
    settled = refl;
    next_id = id;
  }
  read_at_lem offset (suc count) c inside small open_c id enough =
      let (c₁, one) =
        send_read wire w network fuel coming file h server offset (suc count) c inside small id in
      let others : All (λ q. mid_of q ≢ mid_of one.reply)
          (pool_of wire w network fuel coming file h server c) =
        All-weaken (λ q. 1 ≤ ahead c.mid (mid_of q)) _ _
          (λ q far e. omega (arith, far, e, one.numbered, id)) open_c.1 in
      let there : FoundIn c₁ c.mid one.reply =
        ap (λ m. find_reply m (pool_of wire w network fuel coming file h server c₁))
          (sym one.numbered)
        ∙ Inserted-find one.reply one.joins others in
      let short : length (take (suc count) (drop offset file)) < 65536 =
        omega (arith, length-take (suc count) (drop offset file), small) in
      let (c₂, got, left, same, fewer) =
        timed_reply_lem wire w network fuel coming file h server c.mid (network.now c.inbox.netbios)
          one.reply (take (suc count) (drop offset file)) c₁
          (Inserted-Distinct one.reply one.joins others open_c.0) there
          (parse_reply-IsDataReply wire w _ one.reply short one.carries)
          (omega (arith, one.one_more, enough)) in
      let one_less = length-remove c.mid one.reply _ there in
      rw (one.sent, got)
        (record {
          answered = refl;
          settled = omega (arith, ap length left, one_less, Inserted-length one.reply one.joins);
          next_id = omega (arith, same, one.next_id);
        })

  -- For at most 65536 requests within the file whose lengths fit a reply, no reply that shares an id with
  -- another or has one of the ids to be given out, and fuel for the replies to come and those asked for:
  -- `read_at_pipelined` returns, for no request, one or several, the bytes of the file at each, in the
  -- order of the requests, in whatever order the server answers. It leaves as many replies as there
  -- were before, and an id within its 16 bits, round which it counts.
  pub read_at_pipelined_lem :
      (rs : List Request) (c : Cifs N)
      → All (Within file) rs
      → Open (length rs) c
      → c.mid < 65536
      → length rs ≤ 65536
      → length (coming c.inbox.netbios) + length rs ≤ fuel
      → Answered (map (slice_of file) rs) c (read_at_pipelined wire network fuel h rs c)
  unfolding read_at_pipelined
  read_at_pipelined_lem [] c v open_c id few enough = record {
    answered = refl;
    settled = refl;
    next_id = id;
  }
  read_at_pipelined_lem (r ∷ []) c v open_c id few enough =
      let one = read_at_lem r.offset r.len c v.0.0 v.0.1 open_c id enough in
      let o = read_at wire network fuel h r.offset r.len c in
      rw (to_u32_lem r.len v.0.1, then_call-done o (slice_of file r) _ one.answered)
        (record { answered = refl; settled = one.settled; next_id = one.next_id })
  read_at_pipelined_lem (r ∷ s ∷ rs) c v open_c id few enough =
      let all = send_reads-Sent (r ∷ s ∷ rs) c v open_c id few in
      let o = send_reads wire network fuel h (r ∷ s ∷ rs) c in
      let (c', got, emptied, kept) =
        collect_reads_lem wire w network fuel coming file h server all.ids
          (map (slice_of file) (r ∷ s ∷ rs)) o.1 all.distinct all.different all.awaited
          (omega (arith, all.bounded, enough)) in
      let whole : read_at_pipelined wire network fuel h (r ∷ s ∷ rs) c
          ≡ (some (done (map (slice_of file) (r ∷ s ∷ rs))), c') =
        then_call-done o all.ids (collect_reads wire network fuel) all.sent ∙ got in
      subst (Answered (map (slice_of file) (r ∷ s ∷ rs)) c) (sym whole) (record {
        answered = refl;
        settled = omega (arith, emptied, all.joined, all.counted);
        next_id = omega (arith, kept, all.small);
      })
