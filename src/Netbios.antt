-- ===== src/Netbios.antt =====
-- `Frame` and `NetBios` of src/netbios.rs, over the socket's operations.
pub mod Receiving
pub mod Sending
mod Tests
use cifs_client_stream.Common.{
  ℕ, zero, suc, ◌+◌, ◌*◌, ◌/◌, ◌%◌, ◌^◌, List, [], ◌∷◌, ◌++◌, Option, none, some, Bool, true, false,
  ltb, leb, ◌==◌, not, if◌then◌else◌, Result, ok, err, length, take, drop, replicate,
}
use cifs_client_stream.Errors.{
  IoErrorKind, NetbiosError, io_error, create_session, invalid_frame_type, invalid_frame,
  frame_too_big, unexpected_frame, eof,
}
use cifs_client_stream.Stream.Buffer.{Bytes, is_nil, sub64}

abbrev pub max_frame_length : ℕ
max_frame_length = 0x1ffff

pub data Frame : Type 0 where
  message session_request : Bytes → Frame
  positive_response : Frame
  negative_response : ℕ → Frame
  retarget keepalive : Frame

-- `Frame::new`, with `FrameType::try_from` as the tests on the discriminants.
unfoldable pub new_frame : ℕ → Bytes → Result NetbiosError Frame
new_frame raw_frame_type frame_data =
    if raw_frame_type == 0x00
    then ok (message frame_data)
    else if raw_frame_type == 0x81
    then ok (session_request frame_data)
    else if raw_frame_type == 0x82
    then (if is_nil frame_data then ok positive_response else err invalid_frame)
    else if raw_frame_type == 0x83
    then single frame_data
    else if raw_frame_type == 0x84
    then (if length frame_data == 6 then ok retarget else err invalid_frame)
    else if raw_frame_type == 0x85
    then (if is_nil frame_data then ok keepalive else err invalid_frame)
    else err (invalid_frame_type raw_frame_type)
  where
    single : Bytes → Result NetbiosError Frame
    single (code ∷ []) = ok (negative_response code)
    single _ = err invalid_frame

-- `Frame::get_type`, as a byte.
unfoldable pub get_type : Frame → ℕ
get_type (message m) = 0x00
get_type (session_request m) = 0x81
get_type positive_response = 0x82
get_type (negative_response code) = 0x83
get_type retarget = 0x84
get_type keepalive = 0x85

-- The three low bytes of the `u32`, big-endian, and the number that `recv` makes of three bytes.
abbrev pub be24 : ℕ → Bytes
be24 n = n / 65536 % 256 ∷ n / 256 % 256 ∷ n % 256 ∷ []

abbrev pub of_be24 : Bytes → ℕ
of_be24 (a ∷ b ∷ c ∷ _) = a * 65536 + b * 256 + c
of_be24 _ = 0

-- `Frame::encode`.
unfoldable pub encode : Frame → Result NetbiosError Bytes
unfolding get_type
encode (message m) =
    if ltb max_frame_length (length m)
    then err invalid_frame
    else if leb (2 ^ 32) (length m)
    then err frame_too_big
    else ok (get_type (message m) ∷ be24 (length m) ++ m)
encode (session_request m) =
    if not (length m == 68)
    then err invalid_frame
    else if leb (2 ^ 32) (length m)
    then err frame_too_big
    else ok (get_type (session_request m) ∷ be24 (length m) ++ m)
encode _ = err invalid_frame

-- The operations of the socket that the session uses; `read_buf` stands behind `take(count)`.
pub record Socket (S : Type 0) : Type 0 where
  pub read_u8 : S → Result IoErrorKind ℕ × S
  pub read_exact : ℕ → S → Result IoErrorKind Bytes × S
  pub read_buf : ℕ → S → Result IoErrorKind Bytes × S
  pub write_buf : Bytes → S → Result IoErrorKind ℕ × S
  pub flush : S → Result IoErrorKind (Unit {0}) × S

-- The outcome of a call on the session: `none` says that the fuel ran out.
abbrev pub Outcome : Type 0 → Type 0 → Type 0
Outcome S A = Option (Result NetbiosError A) × S

abbrev pub and_then : {S A B : Type 0} → Outcome S A → (A → S → Outcome S B) → Outcome S B
and_then (none, s) next = (none, s)
and_then (some (err e), s) next = (some (err e), s)
and_then (some (ok a), s) next = next a s

-- `?` on an I/O result, and on a plain one.
abbrev pub io : {S A : Type 0} → Result IoErrorKind A × S → Outcome S A
io (err k, s) = (some (err (io_error k)), s)
io (ok a, s) = (some (ok a), s)

abbrev pub given : {S A : Type 0} → Result NetbiosError A → S → Outcome S A
given r s = (some r, s)

module _ {S : Type 0} (socket : Socket S) where
  -- The `while count > 0` loop of `read_exactly`, on fuel.
  pub read_loop : ℕ → ℕ → Bytes → S → Outcome S Bytes
  read_loop fuel zero buffer s = (some (ok buffer), s)
  read_loop zero (suc count) buffer s = (none, s)
  read_loop (suc fuel) (suc count) buffer s =
      and_then (io (socket.read_buf (suc count) s)) λ chunk s'.
        let rest = read_loop fuel (sub64 (suc count) (length chunk)) (buffer ++ chunk) s' in
        if length chunk == 0 then (some (err eof), s') else rest

  -- Each round reads a byte at least.
  pub read_exactly : ℕ → S → Outcome S Bytes
  unfolding read_loop
  read_exactly count s = read_loop count count [] s

  -- The `while` loop of `write_exactly`, on fuel.
  pub write_loop : ℕ → Bytes → S → Outcome S (Unit {0})
  write_loop fuel [] s = (some (ok tt), s)
  write_loop zero (b ∷ bs) s = (none, s)
  write_loop (suc fuel) (b ∷ bs) s =
      and_then (io (socket.write_buf (b ∷ bs) s)) λ n s'. write_loop fuel (drop n (b ∷ bs)) s'

  pub write_exactly : Bytes → S → Outcome S (Unit {0})
  unfolding write_loop
  write_exactly buffer s =
      and_then (write_loop (length buffer) buffer s) λ done s'. io (socket.flush s')

  -- `NetBios::send`.
  pub send : Frame → S → Outcome S (Unit {0})
  unfolding encode write_exactly
  send frame s = and_then (given (encode frame) s) write_exactly

  pub send_message : Bytes → S → Outcome S (Unit {0})
  unfolding send
  send_message m s = send (message m) s

  -- `NetBios::recv`.
  pub recv : S → Outcome S Frame
  unfolding read_exactly new_frame
  recv s = and_then (io (socket.read_u8 s)) λ msg_type s₁.
      and_then (io (socket.read_exact 3 s₁)) λ raw_length s₂.
        if ltb max_frame_length (of_be24 raw_length)
        then (some (err frame_too_big), s₂)
        else and_then (read_exactly (of_be24 raw_length) s₂)
            λ msg_data s₃. given (new_frame msg_type msg_data) s₃

  -- A turn of the loop of `recv_message` behind its `recv`.
  pick : (S → Outcome S Bytes) → Frame → S → Outcome S Bytes
  pick next (message m) s = (some (ok m), s)
  pick next keepalive s = next s
  pick next _ s = (some (err unexpected_frame), s)

  -- The `loop` of `recv_message`, on fuel: it skips keepalives, however many come.
  pub recv_message : ℕ → S → Outcome S Bytes
  unfolding recv pick
  recv_message zero s = (none, s)
  recv_message (suc fuel) s = and_then (recv s) (pick (recv_message fuel))

  -- What `create_session` makes of the answer.
  session_answer : Frame → S → Outcome S (Unit {0})
  session_answer positive_response s = (some (ok tt), s)
  session_answer (negative_response code) s = (some (err (create_session code)), s)
  session_answer _ s = (some (err invalid_frame), s)

-- The ASCII characters of a name, which is given by its code points.
abbrev pub ascii : List ℕ → List ℕ
ascii [] = []
ascii (c ∷ cs) = if ltb c 128 then c ∷ ascii cs else ascii cs

-- The two letters of each character.
abbrev pub nibbles : List ℕ → Bytes
nibbles [] = []
nibbles (c ∷ cs) = (65 + c / 16) ∷ (65 + c % 16) ∷ nibbles cs

-- `encode_netbios_name` of src/utils.rs; 16 spaces are enough of `repeat(' ')` under `take(16)`.
unfoldable pub encode_netbios_name : List ℕ → Bytes
encode_netbios_name name = nibbles (take 16 (ascii name ++ replicate 16 32))

-- `*SMBSERVER`.
abbrev smbserver : List ℕ
smbserver = 42 ∷ 83 ∷ 77 ∷ 66 ∷ 83 ∷ 69 ∷ 82 ∷ 86 ∷ 69 ∷ 82 ∷ []

-- The payload of `create_session`'s request.
pub session_payload : List ℕ → List ℕ → Bytes
unfolding encode_netbios_name
session_payload dst src =
    0x20 ∷ encode_netbios_name dst ++ 0x00 ∷ 0x20 ∷ encode_netbios_name src ++ 0x00 ∷ []

-- `NetBios::create_session`.
pub open_session : {S : Type 0} → Socket S → List ℕ → List ℕ → S → Outcome S (Unit {0})
unfolding send recv session_answer session_payload
open_session socket dst src s =
    and_then (send socket (session_request (session_payload dst src)) s)
      λ sent s₁. and_then (recv socket s₁) (session_answer socket)
