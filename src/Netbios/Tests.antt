-- ===== src/Netbios/Tests.antt =====
-- A socket that gives two bytes and takes three at a time.
use cifs_client_stream.Common.{
  ℕ, refl, ap, [], ◌∷◌, ◌++◌, min, leb, le→leb, if◌then◌else◌, Result, ok, err, length, take, drop,
  arith,
}
use cifs_client_stream.Errors.{IoErrorKind, unexpected_eof}
use cifs_client_stream.Stream.Buffer.{Bytes}
use cifs_client_stream.Netbios.{Socket, recv_message, send_message}
use cifs_client_stream.Netbios.Receiving.{IsReliable, Delivers, recv_message-Delivers}
use cifs_client_stream.Netbios.Sending.{IsWriter, Sent, send_message-Sent}

record Pipe : Type 0 where
  incoming : Bytes
  sent : Bytes

abbrev first : Bytes → Pipe → Result IoErrorKind ℕ × Pipe
first [] p = (err unexpected_eof, p)
first (b ∷ bs) p = (ok b, record p { incoming = bs })

abbrev pipe : Socket Pipe
pipe = record {
  read_u8 = λ p. first p.incoming p;
  read_exact = λ n p.
      if leb n (length p.incoming)
      then (ok (take n p.incoming), record p { incoming = drop n p.incoming })
      else (err unexpected_eof, p);
  read_buf =
      λ n p. (ok (take (min 2 n) p.incoming), record p { incoming = drop (min 2 n) p.incoming });
  write_buf =
      λ b p. (ok (min 3 (length b)), record p { sent = p.sent ++ take (min 3 (length b)) b });
  flush = λ p. (ok tt, p);
}

pipe-IsReliable : IsReliable pipe (λ p. p.incoming)
pipe-IsReliable = record {
  reads_u8 = λ b bs p h. (record p { incoming = bs }, ap (λ l. first l p) h, refl);
  reads_exact = λ n p le.
      (record p { incoming = drop n p.incoming }, rw (le→leb n (length p.incoming) le) refl, refl);
  reads_some = λ n p one le. (min 2 n, _, omega arith, omega arith, refl, refl);
}

pipe-IsWriter : IsWriter pipe (λ p. p.sent)
pipe-IsWriter = record {
  writes_some = λ b p one. (min 3 (length b), _, omega arith, omega arith, refl, refl);
  flushes = λ p. (p, refl, refl);
}

-- A keepalive, a message of five bytes, and the first bytes of the next frame.
abbrev arrived : Pipe
arrived = record {
  incoming = 0x85 ∷ 0 ∷ 0 ∷ 0 ∷ 0 ∷ 0 ∷ 0 ∷ 5 ∷ 1 ∷ 2 ∷ 3 ∷ 4 ∷ 5 ∷ 0 ∷ 0 ∷ [];
  sent = [];
}

recv_message-Delivers_example :
    Delivers (λ p. p.incoming) (recv_message pipe 2 arrived) (1 ∷ 2 ∷ 3 ∷ 4 ∷ 5 ∷ []) (0 ∷ 0 ∷ [])
recv_message-Delivers_example =
    recv_message-Delivers pipe (λ p. p.incoming) 1 2 (1 ∷ 2 ∷ 3 ∷ 4 ∷ 5 ∷ []) (0 ∷ 0 ∷ []) arrived
      pipe-IsReliable (omega arith) (omega arith) refl

send_message-Sent_example :
    Sent pipe
      (λ p. p.sent)
      (7 ∷ 8 ∷ 9 ∷ 10 ∷ [])
      arrived
      (send_message pipe (7 ∷ 8 ∷ 9 ∷ 10 ∷ []) arrived)
send_message-Sent_example =
    send_message-Sent pipe (λ p. p.sent) (7 ∷ 8 ∷ 9 ∷ 10 ∷ []) arrived pipe-IsWriter
