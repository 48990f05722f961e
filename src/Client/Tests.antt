-- ===== src/Client/Tests.antt =====
-- Two reads whose replies arrive in the other order, behind the reply to a third request.
use cifs_client_stream.Common.{ℕ, refl, ap, List, [], ◌∷◌, done, fails, arith}
use cifs_client_stream.Win.{NtStatus}
use cifs_client_stream.Smb.Codes.{Cmd, known}
use cifs_client_stream.Errors.{netbios, eof}
use cifs_client_stream.Stream.Buffer.{Bytes}
use cifs_client_stream.Client.{PendingReply, ReplyType, Inbox, Source, recv}
use cifs_client_stream.Client.Pool.{Distinct}
use cifs_client_stream.Client.Receiving.{IsSource, Answers, recv-Answers}

abbrev reply : ℕ → ℕ → PendingReply
reply mid byte = record {
  info = record {
    cmd = Cmd.read;
    status = known NtStatus.success;
    flags1 = 0x88;
    flags2 = 0;
    pid = 1;
    tid = 1;
    uid = 1;
    mid = mid;
  };
  body = byte ∷ [];
}

abbrev take_next : Source (List PendingReply)
take_next [] = (fails (netbios eof), [])
take_next (p ∷ ps) = (done p, ps)

take_next-IsSource : IsSource take_next (λ ps. ps)
take_next-IsSource = record { gives = λ n p ps h. (ps, ap take_next h, refl) }

abbrev whole_body : ReplyType Bytes
whole_body = record { cmd = Cmd.read; parse = λ info body. done body }

abbrev inbox : Inbox (List PendingReply)
inbox = record { netbios = reply 9 90 ∷ reply 8 80 ∷ reply 7 70 ∷ []; pending = [] }

inbox-Distinct : Distinct (reply 9 90 ∷ reply 8 80 ∷ reply 7 70 ∷ [])
inbox-Distinct = (
  ((λ e. absurd (omega (arith, e))), ((λ e. absurd (omega (arith, e))), tt)),
  (((λ e. absurd (omega (arith, e))), tt), (tt, tt)),
)

recv-Answers_example :
    Answers (λ ps. ps) whole_body 7 (reply 7 70) inbox (recv take_next whole_body 3 7 inbox)
recv-Answers_example =
    recv-Answers take_next whole_body (λ ps. ps) 3 7 (reply 7 70) inbox take_next-IsSource
      inbox-Distinct refl (omega arith)
