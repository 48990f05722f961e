-- ===== src/Smb/Trans2/Search/Laws.antt =====
-- The entries of a directory, read back from their bytes.
use Prim.Native.Nat.{bit_and}
use cifs_client_stream.Common.{
  ℕ, zero, suc, ◌+◌, ◌^◌, ◌≤◌, ◌<◌, ◌≡◌, refl, List, [], ◌∷◌, ◌++◌, some, true, false, ltb, arith,
  All, length, length-append, Run, done, fails,
}
use cifs_client_stream.Stream.Buffer.{Bytes}
use cifs_client_stream.Media.Names.{Name}
use cifs_client_stream.Smb.Codes.{SmbError}
use cifs_client_stream.Smb.Reply.{ext_file_attr_all}
use cifs_client_stream.Smb.Wire.Plain.{plain, le_bytes, skip}
use cifs_client_stream.Smb.Wire.Laws.{read_le-le_bytes, split-append}
use cifs_client_stream.Smb.Trans2.Search.{DirEntry, read_entry, parse_entry, entry_of_size}
use cifs_client_stream.Utils.{Chrono, decode_windows_time}
use cifs_client_stream.Utils.Unicode.{is_char, encode_utf16le}
use cifs_client_stream.Utils.Unicode.Laws.{decode_utf16le-encode_utf16le}

-- The numbers and the name of an entry as a server sends them (MS-CIFS 2.2.8.1.4).
pub record Sent : Type 0 where
  pub index : ℕ
  pub creation_time : ℕ
  pub access_time : ℕ
  pub write_time : ℕ
  pub change_time : ℕ
  pub filesize : ℕ
  pub allocation : ℕ
  pub attributes : ℕ
  pub filename : Name
  pub padding : Bytes

pub record IsSent (s : Sent) : Type 0 where
  pub creation_small : s.creation_time < 2 ^ 64
  pub access_small : s.access_time < 2 ^ 64
  pub write_small : s.write_time < 2 ^ 64
  pub change_small : s.change_time < 2 ^ 64
  pub size_small : s.filesize < 2 ^ 64
  pub attributes_small : s.attributes < 2 ^ 32
  pub attributes_known : bit_and ext_file_attr_all s.attributes ≡ s.attributes
  pub text : All (λ c. is_char c ≡ true) s.filename
  pub name_short : length (encode_utf16le s.filename) + length s.padding < 2 ^ 16

abbrev pub sent_bytes : Sent → Bytes
sent_bytes s =
    le_bytes 4 s.index
    ++ (le_bytes 8 s.creation_time
        ++ (le_bytes 8 s.access_time
            ++ (le_bytes 8 s.write_time
                ++ (le_bytes 8 s.change_time
                    ++ (le_bytes 8 s.filesize
                        ++ (le_bytes 8 s.allocation
                            ++ (le_bytes 4 s.attributes
                                ++ (le_bytes 4 (length (encode_utf16le s.filename))
                                    ++ (encode_utf16le s.filename ++ s.padding)))))))))

abbrev pub received : (chrono : Chrono) → Sent → DirEntry chrono
received chrono s = record {
  creation_time = decode_windows_time chrono s.creation_time;
  access_time = decode_windows_time chrono s.access_time;
  write_time = decode_windows_time chrono s.write_time;
  change_time = decode_windows_time chrono s.change_time;
  info = record { filename = s.filename; filesize = s.filesize; attributes = s.attributes };
}

skip_bytes : (n x : ℕ) (rest : Bytes) → skip n (le_bytes n x ++ rest) ≡ some rest
unfolding skip le_bytes
skip_bytes zero x rest = refl
skip_bytes (suc n) x rest = skip_bytes n _ rest

pub length-sent_bytes :
    (s : Sent) → length (sent_bytes s) ≡ 60 + length (encode_utf16le s.filename) + length s.padding
unfolding le_bytes
length-sent_bytes s = omega (arith, length-append (encode_utf16le s.filename) s.padding)

plain_entry :
    (chrono : Chrono) (s : Sent)
    → IsSent s
    → parse_entry plain chrono (sent_bytes s) ≡ done (received chrono s)
unfolding parse_entry read_entry
plain_entry chrono s v =
    let name = encode_utf16le s.filename in
    let enough : ltb (length (sent_bytes s)) 60 ≡ false = ground (arith, length-sent_bytes s) in
    let whole : ltb (length (name ++ s.padding)) (length name) ≡ false =
      ground (arith, length-append name s.padding) in
    rw
      (
        enough,
        skip_bytes 4 s.index,
        read_le-le_bytes 8 s.creation_time _ v.creation_small,
        read_le-le_bytes 8 s.access_time _ v.access_small,
        read_le-le_bytes 8 s.write_time _ v.write_small,
        read_le-le_bytes 8 s.change_time _ v.change_small,
        read_le-le_bytes 8 s.filesize _ v.size_small,
        skip_bytes 8 s.allocation,
        read_le-le_bytes 4 s.attributes _ v.attributes_small,
        read_le-le_bytes 4 (length name) _ (omega (arith, v.name_short)),
        whole,
        split-append name s.padding,
        decode_utf16le-encode_utf16le s.filename v.text,
        v.attributes_known,
      )
      refl

-- The entries as FindFirst2 sends them: each with the distance to the next one, the last with 0.
abbrev pub list_bytes : List Sent → Bytes
list_bytes [] = []
list_bytes (s ∷ []) = le_bytes 4 0 ++ sent_bytes s
list_bytes (s ∷ t ∷ ss) =
    le_bytes 4 (4 + length (sent_bytes s)) ++ (sent_bytes s ++ list_bytes (t ∷ ss))

pub entry_of_size_lem :
    (chrono : Chrono) (s : Sent) (rest : Bytes) (others : List (DirEntry chrono)) (left : Bytes)
    (more : Bytes → Run SmbError (List (DirEntry chrono) × Bytes))
    → IsSent s
    → more rest ≡ done (others, left)
    → entry_of_size plain chrono (length (sent_bytes s)) more (sent_bytes s ++ rest)
      ≡ done (received chrono s ∷ others, left)
unfolding entry_of_size
entry_of_size_lem chrono s rest others left more v e =
    let enough : ltb (length (sent_bytes s ++ rest)) (length (sent_bytes s)) ≡ false =
      ground (arith, length-append (sent_bytes s) rest) in
    rw (enough, split-append (sent_bytes s) rest, plain_entry chrono s v, e) refl

pub entry_of_size_fails :
    (chrono : Chrono) (s : Sent) (rest : Bytes) (e : SmbError)
    (more : Bytes → Run SmbError (List (DirEntry chrono) × Bytes))
    → IsSent s
    → more rest ≡ fails e
    → entry_of_size plain chrono (length (sent_bytes s)) more (sent_bytes s ++ rest) ≡ fails e
unfolding entry_of_size
entry_of_size_fails chrono s rest e more v h =
    let enough : ltb (length (sent_bytes s ++ rest)) (length (sent_bytes s)) ≡ false =
      ground (arith, length-append (sent_bytes s) rest) in
    rw (enough, split-append (sent_bytes s) rest, plain_entry chrono s v, h) refl

-- Every entry takes bytes, so that there are at least as many bytes as entries.
pub length-list_bytes : (ss : List Sent) → length ss ≤ length (list_bytes ss)
length-list_bytes [] = omega arith
length-list_bytes (s ∷ []) =
    omega (arith, length-append (le_bytes 4 0) (sent_bytes s), length-sent_bytes s)
length-list_bytes (s ∷ t ∷ ss) = omega (
  arith,
  length-list_bytes (t ∷ ss),
  length-sent_bytes s,
  length-append (le_bytes 4 (4 + length (sent_bytes s))) (sent_bytes s ++ list_bytes (t ∷ ss)),
  length-append (sent_bytes s) (list_bytes (t ∷ ss)),
)
