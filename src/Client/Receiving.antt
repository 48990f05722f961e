-- ===== src/Client/Receiving.antt =====
-- `recv` finds the reply to its request, in whatever order the replies arrive.
use cifs_client_stream.Common.{
  ℕ, zero, suc, ◌≤◌, ◌≡◌, refl, sym, ap, subst, ◌∙◌, List, [], ◌∷◌, ◌++◌, Option, none, some,
  Bool-cases, inl, inr, ◌==◌, arith, length, done, append_assoc,
}
use cifs_client_stream.Client.{
  PendingReply, ReplyType, parse_reply, find_reply, remove_reply, Inbox, Outcome, Source, dispatch,
  recv_loop, recv,
}
use cifs_client_stream.Client.Pool.{
  mid_of, Distinct, find_append_left, find_append_right, remove_append_left, remove_append_right,
  find-Distinct,
}

-- What `recv_frame` does while replies are to come: it gives the next one.
pub record IsSource {N : Type 0} (recv_frame : Source N) (coming : N → List PendingReply)
    : Type 0 where
  pub gives :
      (n : N) (p : PendingReply) (ps : List PendingReply)
      → coming n ≡ p ∷ ps
      → (n' : N) × (recv_frame n ≡ (done p, n')) × (coming n' ≡ ps)

module _ {N : Type 0} (coming : N → List PendingReply) where
  -- The replies that are pending, then those to come.
  abbrev pub pool : Inbox N → List PendingReply
  pool c = c.pending ++ coming c.netbios

  -- The answer to `mid` is the reply `p`, which leaves the pool; no other reply does.
  pub record Answers {A : Type 0} (r : ReplyType A) (mid : ℕ) (p : PendingReply) (c : Inbox N)
      (o : Outcome N A) : Type 0 where
    pub answer : o.0 ≡ some (parse_reply r p)
    pub left : pool o.1 ≡ remove_reply mid (pool c)
    pub fewer : length (coming o.1.netbios) ≤ length (coming c.netbios)

module _ {N A : Type 0} (recv_frame : Source N) (r : ReplyType A)
    (coming : N → List PendingReply) where
  recv_loop-Answers :
      (fuel mid : ℕ) (p : PendingReply) (fs : List PendingReply) (c : Inbox N)
      → IsSource recv_frame coming
      → coming c.netbios ≡ fs
      → Distinct (c.pending ++ fs)
      → find_reply mid c.pending ≡ none
      → find_reply mid fs ≡ some p
      → length fs ≤ fuel
      → Answers coming r mid p c (recv_loop recv_frame r fuel mid c)
  unfolding recv_loop dispatch
  recv_loop-Answers fuel mid p [] c source same distinct absent there enough = absurd (cc)
  recv_loop-Answers zero mid p (q ∷ fs) c source same distinct absent there enough =
      absurd (omega arith)
  recv_loop-Answers (suc fuel) mid p (q ∷ fs) c source same distinct absent there enough =
      let (n', got, left) = source.gives c.netbios q fs same in
      elim (Bool-cases (mid_of q == mid)) [
        | inl here ↦
            let found : some q ≡ some p = rw here at there in
            let gone : remove_reply mid (q ∷ fs) ≡ fs = rw here refl in
            rw (got, here)
              (record {
                answer = cc;
                left =
                    ap (λ l. c.pending ++ l) (left ∙ sym gone)
                    ∙ sym (remove_append_right mid c.pending (q ∷ fs) absent)
                    ∙ ap (λ l. remove_reply mid (c.pending ++ l)) (sym same);
                fewer = omega (arith, ap length left, ap length same);
              })
        | inr other ↦
            let none_yet : find_reply (mid_of q) c.pending ≡ none =
              find-Distinct c.pending fs q distinct in
            let later : find_reply mid fs ≡ some p = rw other at there in
            let kept : find_reply mid (q ∷ []) ≡ none = rw other refl in
            let next =
              recv_loop-Answers fuel mid p fs
                (record { netbios = n'; pending = c.pending ++ q ∷ [] }) source left
                (subst Distinct (sym (append_assoc c.pending (q ∷ []) fs)) distinct)
                (find_append_right mid c.pending (q ∷ []) absent ∙ kept) later (omega arith) in
            rw (got, other, none_yet)
              (record {
                answer = next.answer;
                left =
                    next.left
                    ∙ ap (remove_reply mid) (
                        append_assoc c.pending (q ∷ []) (coming n')
                        ∙ ap (λ l. c.pending ++ q ∷ l) left
                        ∙ ap (λ l. c.pending ++ l) (sym same));
                fewer = omega (arith, next.fewer, ap length left, ap length same);
              })
      ]

  -- Where no two replies pending or to come have the same id and one has the request's, `recv` returns
  -- that one, parsed, whatever replies arrive before it; every other reply stays available. Its loop
  -- needs no more fuel than there are replies to come.
  pub recv-Answers :
      (fuel mid : ℕ) (p : PendingReply) (c : Inbox N)
      → IsSource recv_frame coming
      → Distinct (pool coming c)
      → find_reply mid (pool coming c) ≡ some p
      → length (coming c.netbios) ≤ fuel
      → Answers coming r mid p c (recv recv_frame r fuel mid c)
  unfolding recv
  recv-Answers fuel mid p c source distinct there enough = go (find_reply mid c.pending) refl
    where
      go :
          (o : Option PendingReply)
          → find_reply mid c.pending ≡ o
          → Answers coming r mid p c (recv recv_frame r fuel mid c)
      go (some q) h =
          let found : some q ≡ some p =
            sym (find_append_left mid c.pending (coming c.netbios) q h) ∙ there in
          rw (h, recv)
            (record {
              answer = cc;
              left = sym (remove_append_left mid c.pending (coming c.netbios) q h);
              fewer = omega arith;
            })
      go none h =
          rw (h, recv)
            (recv_loop-Answers fuel mid p (coming c.netbios) c source refl distinct h
              (sym (find_append_right mid c.pending (coming c.netbios) h) ∙ there) enough)
