-- ===== src/Ntlm/Auth.antt =====
-- The answers to a server's challenge (src/ntlm/auth.rs, `ChallengeMsg::response` of
-- src/ntlm/challenge.rs, `des_oneshot` of src/utils.rs).
pub mod Laws
use cifs_client_stream.Common.{
  ◌≡◌, ℕ, zero, suc, ◌+◌, ◌-◌, ◌*◌, ◌/◌, ◌%◌, ◌^◌, List, [], ◌∷◌, ◌++◌, Option, none, some, Bool,
  true, false, ltb, ◌==◌, if◌then◌else◌, length, take, drop, replicate, Result, ok, err, Run, done,
  fails, panics, and_then,
}
use cifs_client_stream.Errors.{NtlmError}
use cifs_client_stream.Media.Names.{Name}
use cifs_client_stream.Stream.Buffer.{Bytes}
use cifs_client_stream.Smb.Wire.{Wire}
use cifs_client_stream.Utils.Unicode.{encode_utf16le}
use cifs_client_stream.Ntlm.{
  Packet, new_packet, append_binary, append_buffer, append_string, to_bytes, ntlmssp_magic,
}
use cifs_client_stream.Ntlm.Challenge.{ChallengeMsg, is_unicode}

-- What the messages use of the crates `md4`, `hmac`, `md5` and `des`, and `str::to_uppercase`.
pub record Crypto : Type 0 where
  pub md4 : Bytes → Bytes
  pub hmac_md5 : Bytes → Bytes → Bytes
  pub encrypt_block : Bytes → Bytes → Bytes
  pub to_uppercase : Name → Name

-- Digests of 16 bytes and blocks of 8.
pub record IsCrypto (crypto : Crypto) : Type 0 where
  pub md4_size : (content : Bytes) → length (crypto.md4 content) ≡ 16
  pub hmac_size : (key content : Bytes) → length (crypto.hmac_md5 key content) ≡ 16
  pub block_size : (key block : Bytes) → length (crypto.encrypt_block key block) ≡ 8

pub record Auth : Type 0 where
  pub user : Name
  pub workstation : Name
  pub domain : Name
  pub password : Name

-- `u64::from_be_bytes` behind the bytes that were read, and `to_be_bytes` of the lowest `n` bytes.
unfoldable pub from_be_bytes : ℕ → Bytes → ℕ
from_be_bytes value [] = value
from_be_bytes value (b ∷ bs) = from_be_bytes (value * 256 + b) bs

unfoldable pub to_be_bytes : ℕ → ℕ → Bytes
to_be_bytes zero value = []
to_be_bytes (suc n) value = to_be_bytes n (value / 256) ++ value % 256 ∷ []

-- The loop of `expand_des_key`, with `left` turns to go. The parts of `result` are disjoint, so that
-- `|=` is `+=`.
unfoldable pub spread : ℕ → ℕ → ℕ → ℕ → ℕ
spread zero i value result = result
spread (suc left) i value result =
    spread left (i + 1) (value / 128) (result + value % 128 * 2 ^ (i * 8 + 1))

-- `expand_des_key` on at most seven bytes, as its callers have it.
unfoldable pub expand_des_key : Bytes → Bytes
unfolding from_be_bytes spread to_be_bytes
expand_des_key secret =
    let value = from_be_bytes 0 (0 ∷ (secret ++ replicate (7 - length secret) 0)) in
    to_be_bytes 8 (spread 8 0 value 0)

module _ (wire : Wire) where
  -- The blob of `ntlmv2_authenticate`, at a time and with eight random bytes.
  unfoldable pub blob_of : ℕ → Bytes → Bytes → Bytes
  blob_of now random info = wire.put_le 4 0 (
      wire.put info (
        wire.put_le 4 0
          (wire.put random (wire.put_le 8 now (wire.put (1 ∷ 1 ∷ 0 ∷ 0 ∷ 0 ∷ 0 ∷ 0 ∷ 0 ∷ []) [])))))

  -- The packet of `ChallengeMsg::response`; `NTLM_MSG_RESPONSE` is 3.
  unfoldable pub response_packet : Bytes → Auth → Bool → Packet
  unfolding append_binary append_buffer append_string
  response_packet answer auth unicode = append_string auth.workstation unicode (
      append_string auth.user unicode (
        append_string auth.domain unicode (
          append_buffer answer (
            append_buffer (replicate 24 0)
              (append_binary (wire.put_le 4 3 []) (append_binary ntlmssp_magic new_packet))))))

module _ (crypto : Crypto) where
  -- `des_oneshot`: `GenericArray::from_slice` panics on another length than that of a block.
  unfoldable pub des_oneshot : Bytes → Bytes → Run NtlmError Bytes
  des_oneshot secret input =
      if length input == 8
      then done (crypto.encrypt_block (expand_des_key secret) input)
      else panics

  unfoldable pub ntlm_hash : Auth → Bytes
  ntlm_hash auth = crypto.md4 (encode_utf16le auth.password)

  unfoldable pub ntlmv2_hash : Auth → Bytes
  unfolding ntlm_hash
  ntlmv2_hash auth =
      crypto.hmac_md5 (ntlm_hash auth)
        (encode_utf16le (crypto.to_uppercase auth.user ++ auth.domain))

  -- `ntlmv1_authenticate`.
  unfoldable pub ntlmv1_authenticate : Auth → Bytes → Run NtlmError Bytes
  unfolding des_oneshot ntlm_hash
  ntlmv1_authenticate auth challenge =
      let hash = ntlm_hash auth in
      and_then (des_oneshot (take 7 hash) challenge) λ a.
        and_then (des_oneshot (take 7 (drop 7 hash)) challenge)
          λ b. and_then (des_oneshot (take 2 (drop 14 hash)) challenge) λ c. done (a ++ (b ++ c))

  module _ (wire : Wire) where
    -- `ntlmv2_authenticate`: the session key and the response.
    unfoldable pub ntlmv2_authenticate : ℕ → Bytes → Auth → ChallengeMsg → Bytes × Bytes
    unfolding blob_of ntlmv2_hash
    ntlmv2_authenticate now random auth msg =
        let blob = blob_of wire now random msg.info in
        let key = ntlmv2_hash auth in
        let tag = crypto.hmac_md5 key (wire.put blob (wire.put msg.challenge [])) in
        (crypto.hmac_md5 key tag, wire.put blob (wire.put tag []))

    -- `ChallengeMsg::response`.
    unfoldable pub response : NtlmError → ℕ → Bytes → Auth → ChallengeMsg → Result NtlmError Bytes
    unfolding ntlmv2_authenticate response_packet to_bytes
    response numeric_conversion now random auth msg = to_bytes wire numeric_conversion (
        response_packet wire (ntlmv2_authenticate now random auth msg).1 auth
          (is_unicode msg.flags))
