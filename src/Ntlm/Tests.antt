-- ===== src/Ntlm/Tests.antt =====
-- A challenge, messages with an origin, and a packet.
use cifs_client_stream.Common.{refl, ◌%◌, length, replicate, ◌≡◌, arith, [], ◌∷◌, ok, done}
use cifs_client_stream.Errors.{need_auth}
use cifs_client_stream.Stream.Buffer.{Bytes}
use cifs_client_stream.Smb.Wire.Plain.{plain, plain-IsWire, le_bytes}
use cifs_client_stream.Utils.Unicode.{encode_utf16le, encode_utf16, le_units, utf16_units}
use cifs_client_stream.Ntlm.{binary, new_packet, append_buffer, to_bytes, base_len, entry_len}
use cifs_client_stream.Ntlm.Auth.{Crypto, IsCrypto, Auth, response}
use cifs_client_stream.Ntlm.Auth.Laws.{string_bytes, Accepts, response_lem}
use cifs_client_stream.Ntlm.Challenge.{ChallengeMsg, parse_challenge}
use cifs_client_stream.Ntlm.Challenge.Laws.{IsChallenge, challenge_bytes, parse_challenge_lem}
use cifs_client_stream.Ntlm.Laws.{IsFit}
use cifs_client_stream.Ntlm.Laws.Buffers.{extended, field_at, to_bytes-field_at}

abbrev small_challenge : ChallengeMsg
small_challenge = record {
  target = 68 ∷ 79 ∷ 77 ∷ [];
  flags = 0x201;
  challenge = 1 ∷ 2 ∷ 3 ∷ 4 ∷ 5 ∷ 6 ∷ 7 ∷ 8 ∷ [];
  info = 9 ∷ 9 ∷ [];
}

small_challenge-IsChallenge : IsChallenge small_challenge
unfolding encode_utf16le encode_utf16 le_units utf16_units le_bytes
small_challenge-IsChallenge = record {
  known = refl;
  word = omega arith;
  unicode = refl;
  eight = refl;
  characters = (refl, (refl, (refl, tt)));
  target_size = omega arith;
  info_size = omega arith;
}

parse_challenge_lem_example :
    parse_challenge plain (challenge_bytes small_challenge (0 ∷ 0 ∷ 0 ∷ 0 ∷ 0 ∷ 0 ∷ 0 ∷ 0 ∷ []))
    ≡ done small_challenge
parse_challenge_lem_example =
    parse_challenge_lem small_challenge (0 ∷ 0 ∷ 0 ∷ 0 ∷ 0 ∷ 0 ∷ 0 ∷ 0 ∷ [])
      small_challenge-IsChallenge refl plain plain-IsWire

to_bytes-field_at_example :
    (out : Bytes) × (to_bytes plain need_auth
        (extended (binary (9 ∷ []) ∷ []) (5 ∷ []) (append_buffer (1 ∷ 2 ∷ []) new_packet))
      ≡ ok out)
    × (field_at plain 0 out ≡ done (1 ∷ 2 ∷ []))
unfolding append_buffer IsFit base_len entry_len
to_bytes-field_at_example =
    to_bytes-field_at plain need_auth (binary (9 ∷ []) ∷ []) (1 ∷ 2 ∷ []) (5 ∷ []) new_packet
      plain-IsWire ((omega arith, omega arith, omega arith), (tt, tt))

abbrev toy_crypto : Crypto
toy_crypto = record {
  md4 = λ content. replicate 16 7;
  hmac_md5 = λ key content. replicate 16 (length content % 256);
  encrypt_block = λ key block. replicate 8 9;
  to_uppercase = λ name. name;
}

toy_crypto-IsCrypto : IsCrypto toy_crypto
toy_crypto-IsCrypto = record {
  md4_size = λ content. refl;
  hmac_size = λ key content. refl;
  block_size = λ key block. refl;
}

abbrev guest : Auth
guest = record { user = 97 ∷ []; workstation = 87 ∷ 83 ∷ []; domain = 68 ∷ []; password = 120 ∷ [] }

response_lem_example :
    (out : Bytes) × (response toy_crypto plain need_auth 5 (replicate 8 3) guest small_challenge
      ≡ ok out)
    × Accepts toy_crypto 5 (replicate 8 3) guest small_challenge plain out
unfolding string_bytes encode_utf16le encode_utf16 le_units utf16_units le_bytes
response_lem_example =
    response_lem toy_crypto toy_crypto-IsCrypto need_auth 5 (replicate 8 3) guest small_challenge
      plain plain-IsWire refl (omega arith) (omega arith) (omega arith) (omega arith)
