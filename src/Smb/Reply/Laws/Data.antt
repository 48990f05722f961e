-- ===== src/Smb/Reply/Laws/Data.antt =====
-- The replies that carry data: Read and SessionSetup.
use cifs_client_stream.Common.{
  ℕ, suc, ◌%◌, ◌<◌, ◌≡◌, ◌≢◌, refl, sym, [], ◌∷◌, ◌++◌, true, false, ltb, leb, ◌==◌, Bool-cases,
  inl, inr, arith, length, Run, and_then, done, fails, panics,
}
use cifs_client_stream.Stream.Buffer.{Bytes}
use cifs_client_stream.Smb.Codes.{SmbError, invalid_data}
use cifs_client_stream.Smb.Info.{Info}
use cifs_client_stream.Smb.Wire.{Wire}
use cifs_client_stream.Smb.Wire.Plain.{plain, IsWire, of_plain, le_bytes, skip}
use cifs_client_stream.Smb.Wire.Laws.{read_le-le_bytes, split-append, split_whole, split_short}
use cifs_client_stream.Smb.Frame.{ReplyCtx}
use cifs_client_stream.Smb.Reply.{create_read, read_data, create_session_setup}
use cifs_client_stream.Smb.Reply.Laws.{skip_word}

-- The parameter words of the reply to Read, whose fourth word is the length.
abbrev pub read_words : ℕ → ℕ → ℕ → ℕ → Bytes → Bytes
read_words a b c size rest =
    le_bytes 2 a ++ (le_bytes 2 b ++ (le_bytes 2 c ++ (le_bytes 2 size ++ rest)))

abbrev pub first_of : {A B : Type 0} → Run SmbError (A × B) → Run SmbError A
first_of (done (a, b)) = done a
first_of (fails e) = fails e
first_of panics = panics

abbrev pub read_ctx : Info → ℕ → ℕ → ℕ → ℕ → Bytes → Bytes → ℕ → ReplyCtx
read_ctx info a b c size rest content at = record {
  info = info;
  parameter = read_words a b c size rest;
  content = content;
  data_offset = at;
}

plain_exact : (d : Bytes) → read_data plain (length d) d ≡ done (d, [])
unfolding read_data
plain_exact d =
    let less : ltb (length d) (length d) ≡ false = ground arith in
    let same : (length d == length d) ≡ true = ground arith in rw (less, same, split_whole d) refl

plain_padded : (b : ℕ) (d : Bytes) → read_data plain (length d) (b ∷ d) ≡ done (d, [])
unfolding read_data skip
plain_padded b d =
    let less : ltb (length d) (suc (length d)) ≡ true = ground arith in
    let same : (length d == length d) ≡ true = ground arith in rw (less, same, split_whole d) refl

plain_wrong :
    (size : ℕ) (d : Bytes)
    → length d ≢ size
    → length d ≢ suc size
    → read_data plain size d ≡ fails invalid_data
unfolding read_data skip
plain_wrong size [] h g =
    let less : ltb size 0 ≡ false = ground arith in
    let other : (0 == size) ≡ false = ground arith in rw (less, other) refl
plain_wrong size (b ∷ d) h g = elim (Bool-cases (ltb size (suc (length d)))) [
  | inl e ↦ let other : (length d == size) ≡ false = ground arith in rw (e, other) refl
  | inr e ↦ let other : (suc (length d) == size) ≡ false = ground arith in rw (e, other) refl
]

and_then_first :
    (r : Run SmbError (Bytes × Bytes)) (rest : Bytes)
    → and_then {A = Bytes × Bytes} (and_then r λ x. done (x.0, rest)) (λ x. done x.0) ≡ first_of r
and_then_first (done x) rest = refl
and_then_first (fails e) rest = refl
and_then_first panics rest = refl

plain_read :
    (info : Info) (a b c size : ℕ) (rest d : Bytes) (at : ℕ) (r : Run SmbError (Bytes × Bytes))
    → size < 65536
    → read_data plain size d ≡ r
    → create_read plain (read_ctx info a b c size rest d at) ≡ first_of r
unfolding create_read
plain_read info a b c size rest d at r small e =
    rw (skip_word a, skip_word b, skip_word c, read_le-le_bytes 2 size rest small, e)
      (and_then_first r rest)

plain_replies :
    (info : Info) (a b c size : ℕ) (rest d : Bytes) (pad at : ℕ)
    → size < 65536
    → (length d ≡ size
        → (create_read plain (read_ctx info a b c size rest d at) ≡ done d)
          × (create_read plain (read_ctx info a b c size rest (pad ∷ d) at) ≡ done d))
      × (length d ≢ size
          → length d ≢ suc size
          → create_read plain (read_ctx info a b c size rest d at) ≡ fails invalid_data)
plain_replies info a b c size rest d pad at small = (
  λ e. (
    plain_read info a b c size rest d at (done (d, [])) small (rw (sym e) (plain_exact d)),
    plain_read info a b c size rest (pad ∷ d) at (done (d, [])) small
        (rw (sym e) (plain_padded pad d)),
  ),
  λ h g. plain_read info a b c size rest d at (fails invalid_data) small (plain_wrong size d h g),
)

-- The reply to Read gives the data bytes that it announces, with or without one byte of padding
-- before them, and an error when there are fewer, or more than one byte too many.
pub create_read_lem :
    (wire : Wire)
    → IsWire wire
    → (info : Info) (a b c size : ℕ) (rest d : Bytes) (pad at : ℕ) → size < 65536
    → (length d ≡ size
        → (create_read wire (read_ctx info a b c size rest d at) ≡ done d)
          × (create_read wire (read_ctx info a b c size rest (pad ∷ d) at) ≡ done d))
      × (length d ≢ size
          → length d ≢ suc size
          → create_read wire (read_ctx info a b c size rest d at) ≡ fails invalid_data)
create_read_lem wire w info a b c size rest d pad at small =
    of_plain
      (λ wire.
        (length d ≡ size
          → (create_read wire (read_ctx info a b c size rest d at) ≡ done d)
            × (create_read wire (read_ctx info a b c size rest (pad ∷ d) at) ≡ done d))
        × (length d ≢ size
            → length d ≢ suc size
            → create_read wire (read_ctx info a b c size rest d at) ≡ fails invalid_data))
      wire w (plain_replies info a b c size rest d pad at small)

abbrev pub blob_ctx : Info → ℕ → ℕ → Bytes → Bytes → ℕ → ReplyCtx
blob_ctx info action size rest content at = record {
  info = info;
  parameter = le_bytes 2 action ++ (le_bytes 2 size ++ rest);
  content = content;
  data_offset = at;
}

two_left : (action size : ℕ) (rest : Bytes) → leb 2 (length (le_bytes 2 size ++ rest)) ≡ true
unfolding le_bytes
two_left action size rest = ground arith

plain_session :
    (info : Info) (action : ℕ) (rest blob more : Bytes) (at : ℕ)
    → action < 65536
    → length blob < 65536
    → create_session_setup plain (blob_ctx info action (length blob) rest (blob ++ more) at)
      ≡ done (record { guest_mode = action % 2 == 1; uid = info.uid; security_blob = blob })
unfolding create_session_setup
plain_session info action rest blob more at small short =
    rw
      (
        read_le-le_bytes 2 action (le_bytes 2 (length blob) ++ rest) small,
        two_left action (length blob) rest,
        read_le-le_bytes 2 (length blob) rest short,
        split-append blob more,
      )
      refl

plain_short :
    (info : Info) (action size : ℕ) (rest content : Bytes) (at : ℕ)
    → action < 65536
    → size < 65536
    → length content < size
    → create_session_setup plain (blob_ctx info action size rest content at) ≡ panics
unfolding create_session_setup
plain_short info action size rest content at small short less =
    rw
      (
        read_le-le_bytes 2 action (le_bytes 2 size ++ rest) small,
        two_left action size rest,
        read_le-le_bytes 2 size rest short,
        split_short size content less,
      )
      refl

-- The reply to SessionSetup gives the security blob at the front of the data, the guest bit of the
-- action and the user of the header; where the data is shorter than the announced blob, it panics.
pub create_session_setup_lem :
    (wire : Wire)
    → IsWire wire
    → (info : Info) (action size : ℕ) (rest blob more : Bytes) (at : ℕ) → action < 65536
    → size < 65536
    → (length blob ≡ size
        → create_session_setup wire (blob_ctx info action size rest (blob ++ more) at)
          ≡ done (record { guest_mode = action % 2 == 1; uid = info.uid; security_blob = blob }))
      × (length blob < size
          → create_session_setup wire (blob_ctx info action size rest blob at) ≡ panics)
create_session_setup_lem wire w info action size rest blob more at small short =
    of_plain
      (λ wire.
        (length blob ≡ size
          → create_session_setup wire (blob_ctx info action size rest (blob ++ more) at)
            ≡ done (record { guest_mode = action % 2 == 1; uid = info.uid; security_blob = blob }))
        × (length blob < size
            → create_session_setup wire (blob_ctx info action size rest blob at) ≡ panics))
      wire w
      (
        λ e.
            rw (sym e)
              (plain_session info action rest blob more at small (omega (arith, e, short))),
        plain_short info action size rest blob at small short,
      )

pub length-read_words : (size : ℕ) → length (read_words 0 0 0 size []) ≡ 8
unfolding le_bytes
length-read_words size = refl
