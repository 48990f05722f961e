-- ===== src/Ntlm/Challenge.antt =====
-- The challenge of the server (src/ntlm/challenge.rs) and its texts (src/ntlm/buffer.rs).
pub mod Laws
use cifs_client_stream.Common.{
  ℕ, ◌%◌, Bool, true, false, Option, none, some, List, [], ◌∷◌, ◌==◌, if◌then◌else◌, Run, done,
  fails, panics, and_then,
}
use cifs_client_stream.Errors.{NtlmError, invalid_packet}
use cifs_client_stream.Media.Names.{Name}
use cifs_client_stream.Stream.Buffer.{Bytes}
use cifs_client_stream.Smb.Codes.{SmbError}
use cifs_client_stream.Smb.Info.{same_bytes}
use cifs_client_stream.Smb.Wire.{Wire}
use cifs_client_stream.Utils.Unicode.{decode_utf16le, from_utf8}
use cifs_client_stream.Ntlm.{
  Field, or_panic, parse_field, extract, ntlmssp_magic, ntlm_msg_challenge,
}

-- All flags of `Flags`.
abbrev pub ntlm_flags_all : ℕ
ntlm_flags_all = 0xE2FFFFF7

pub record ChallengeMsg : Type 0 where
  pub target : Name
  pub flags : ℕ
  pub challenge : Bytes
  pub info : Bytes

-- `flags.contains(Flags::UNICODE)`, which is the lowest bit.
abbrev pub is_unicode : ℕ → Bool
is_unicode flags = flags % 2 == 1

abbrev pub fail_unless : {A : Type 0} → Bool → Run NtlmError A → Run NtlmError A
fail_unless true rest = rest
fail_unless false rest = fails invalid_packet

abbrev pub decoded16 : Run SmbError Name → Run NtlmError Name
decoded16 (done name) = done name
decoded16 (fails e) = fails invalid_packet
decoded16 panics = panics

abbrev pub decoded8 : Option Name → Run NtlmError Name
decoded8 (some name) = done name
decoded8 none = fails invalid_packet

abbrev pub decoded : Bool → Bytes → Run NtlmError Name
decoded true raw = decoded16 (decode_utf16le raw)
decoded false raw = decoded8 (from_utf8 none raw)

module _ (wire : Wire) where
  -- `Buffer::extract_string`.
  unfoldable pub extract_string : Field → Bytes → Bool → Run NtlmError Name
  unfolding extract
  extract_string field msg unicode = and_then (extract wire field msg) λ raw. decoded unicode raw

  -- `ChallengeMsg::parse`.
  unfoldable pub parse_challenge : Bytes → Run NtlmError ChallengeMsg
  unfolding extract parse_field extract_string
  parse_challenge msg = and_then (or_panic wire (wire.copy_to_bytes 8 msg)) λ magic.
      fail_unless (same_bytes magic.0 ntlmssp_magic) (
        and_then (or_panic wire (wire.get_le 4 magic.1)) λ msgtype.
          fail_unless (msgtype.0 == ntlm_msg_challenge) (
            and_then (parse_field wire msgtype.1) λ target_buffer.
              and_then (or_panic wire (wire.get_le 4 target_buffer.1)) λ bits.
                let flags = wire.from_bits_truncate ntlm_flags_all bits.0 in
                and_then (or_panic wire (wire.copy_to_bytes 8 bits.1)) λ challenge.
                  and_then (or_panic wire (wire.advance 8 challenge.1)) λ rest.
                    and_then (parse_field wire rest) λ info_buffer.
                      and_then (extract_string target_buffer.0 msg (is_unicode flags)) λ target.
                        and_then (extract wire info_buffer.0 msg) λ info. done (record {
                          target = target;
                          flags = flags;
                          challenge = challenge.0;
                          info = info;
                        })))
