-- ===== src/Client/Commands/Files/Pages.antt =====
-- What the calls for a page return: a page that is empty only where it is the last.
use cifs_client_stream.Common.{ℕ, Option, none, some, Run, done, fails, panics}
use cifs_client_stream.Errors.{Error}
use cifs_client_stream.Media.Names.{Name}
use cifs_client_stream.Smb.Codes.{SmbError}
use cifs_client_stream.Smb.Reply.{Share}
use cifs_client_stream.Smb.Trans2.{SubCmd, transact2_msg}
use cifs_client_stream.Smb.Collector.{CollectTrans2, new_collect, get}
use cifs_client_stream.Smb.Trans2.Search.Filled.{
  Gives, Filled, find_first2-Filled, find_next2-Filled,
}
use cifs_client_stream.Smb.Wire.{Wire}
use cifs_client_stream.Stream.Buffer.{Bytes}
use cifs_client_stream.Utils.{Chrono}
use cifs_client_stream.Client.Commands.{
  Cifs, Network, Call, ◌>>=◌, then_call, from_smb, from_smb_result, transact2, find_first,
  find_next, gather, send,
}

-- What a call gives, where it gives something, satisfies the predicate.
abbrev pub Returns : {N A : Type 0} → (A → Type 0) → Option (Run Error A) × Cifs N → Type 0
Returns P (none, c) = Unit {0}
Returns P (some (done a), c) = P a
Returns P (some (fails e), c) = Unit {0}
Returns P (some panics, c) = Unit {0}

pub Returns-bind :
    {N A B : Type 0} (P : B → Type 0) (o : Option (Run Error A) × Cifs N) (next : A → Call N B)
    → ((a : A) (c : Cifs N) → Returns P (next a c))
    → Returns P (then_call o next)
Returns-bind P (none, c) next h = tt
Returns-bind P (some (done a), c) next h = h a c
Returns-bind P (some (fails e), c) next h = tt
Returns-bind P (some panics, c) next h = tt

Returns-smb :
    {N A : Type 0} (P : A → Type 0) (r : Run SmbError A) (c : Cifs N)
    → Gives P r
    → Returns P (from_smb r c)
Returns-smb P (done a) c h = h
Returns-smb P (fails e) c h = tt
Returns-smb P panics c h = tt

module _ {N : Type 0} (wire : Wire) (network : Network N) (fuel : ℕ) where
  pub transact2-Returns :
      {A : Type 0} (P : A → Type 0) (tid : ℕ) (subcmd : SubCmd)
      (parse : Bytes → Bytes → Run SmbError A) (c : Cifs N)
      → ((parameter content : Bytes) → Gives P (parse parameter content))
      → Returns P (transact2 wire network fuel tid subcmd parse c)
  unfolding transact2
  transact2-Returns {A} P tid subcmd parse c h =
      Returns-bind P
        (send wire network fuel (transact2_msg wire (record { tid = tid; subcmd = subcmd })) c)
        gathered
        λ mid c₁.
          Returns-bind P (gather wire network fuel fuel mid new_collect c₁) with_parameter λ ctx c₂.
            Returns-bind P (from_smb_result (get ctx.parameter) c₂) (with_content ctx)
              λ parameter c₃.
                Returns-bind P (from_smb_result (get ctx.content) c₃)
                  (λ content. from_smb (parse parameter content))
                  λ content c₄. Returns-smb P (parse parameter content) c₄ (h parameter content)
    where
      with_content : CollectTrans2 → Bytes → Call N A
      with_content ctx parameter =
          from_smb_result (get ctx.content) >>= λ content. from_smb (parse parameter content)

      with_parameter : CollectTrans2 → Call N A
      with_parameter ctx = from_smb_result (get ctx.parameter) >>= with_content ctx

      gathered : ℕ → Call N A
      gathered mid = gather wire network fuel fuel mid new_collect >>= with_parameter

  module _ (chrono : Chrono) where
    pub find_first-Filled :
        (share : Share) (pattern : Name) (c : Cifs N)
        → Returns
            (λ page. Filled page.end page.info)
            (find_first wire network fuel chrono share pattern c)
    unfolding find_first
    find_first-Filled share pattern c =
        transact2-Returns (λ page. Filled page.end page.info) share.tid _ _ c
          (find_first2-Filled wire chrono)

    find_next-Filled :
        (share : Share) (sid : ℕ) (last : Name) (c : Cifs N)
        → Returns
            (λ page. Filled page.end page.info)
            (find_next wire network fuel chrono share sid last c)
    unfolding find_next
    find_next-Filled share sid last c =
        transact2-Returns (λ page. Filled page.end page.info) share.tid _ _ c
          (find_next2-Filled wire chrono)
