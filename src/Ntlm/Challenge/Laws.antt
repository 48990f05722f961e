-- ===== src/Ntlm/Challenge/Laws.antt =====
-- A server's challenge is read.
use Prim.Native.Nat.{bit_and}
use cifs_client_stream.Common.{
  ℕ, ◌+◌, ◌^◌, ◌<◌, ◌≡◌, refl, sym, ap, ◌∙◌, [], ◌∷◌, ◌++◌, true, some, subst, length, All, done,
  arith, append-nil, append_assoc, length-append,
}
use cifs_client_stream.Stream.Buffer.{Bytes}
use cifs_client_stream.Smb.Wire.{Wire}
use cifs_client_stream.Smb.Wire.Plain.{plain, IsWire, of_plain, le_bytes, split, skip}
use cifs_client_stream.Smb.Wire.Laws.{read_le-le_bytes, split-append}
use cifs_client_stream.Utils.Unicode.{encode_utf16le, is_char}
use cifs_client_stream.Utils.Unicode.Laws.{decode_utf16le-encode_utf16le}
use cifs_client_stream.Ntlm.{Field, extract, ntlmssp_magic, ntlm_msg_challenge}
use cifs_client_stream.Ntlm.Laws.{IsFit, field_bytes, parse_field_lem, extract_lem}
use cifs_client_stream.Ntlm.Challenge.{
  ChallengeMsg, ntlm_flags_all, is_unicode, parse_challenge, extract_string,
}

abbrev pub field_of : Bytes → ℕ → Field
field_of content position = record {
  length = length content;
  capacity = length content;
  position = position;
}

-- A challenge as a server lays it out: the fixed part of 48 bytes, the target and the information.
unfoldable pub fixed_bytes : ChallengeMsg → Bytes → Bytes → Bytes
fixed_bytes c context rest =
    let target = encode_utf16le c.target in
    ntlmssp_magic
    ++ (le_bytes 4 ntlm_msg_challenge
        ++ (field_bytes 0 (field_of target 48)
            ++ (le_bytes 4 c.flags
                ++ (c.challenge
                    ++ (context
                        ++ (field_bytes 0 (field_of c.info (48 + length target)) ++ rest))))))

unfoldable pub challenge_bytes : ChallengeMsg → Bytes → Bytes
challenge_bytes c context = fixed_bytes c context (encode_utf16le c.target ++ c.info)

pub record IsChallenge (c : ChallengeMsg) : Type 0 where
  pub known : bit_and ntlm_flags_all c.flags ≡ c.flags
  pub word : c.flags < 2 ^ 32
  pub unicode : is_unicode c.flags ≡ true
  pub eight : length c.challenge ≡ 8
  pub characters : All (λ x. is_char x ≡ true) c.target
  pub target_size : length (encode_utf16le c.target) < 2 ^ 16
  pub info_size : length c.info < 2 ^ 16

skip-append : (xs rest : Bytes) → skip (length xs) (xs ++ rest) ≡ some rest
unfolding skip
skip-append [] rest = refl
skip-append (x ∷ xs) rest = skip-append xs rest

fixed_split :
    (c : ChallengeMsg) (context rest : Bytes)
    → fixed_bytes c context rest ≡ fixed_bytes c context [] ++ rest
unfolding fixed_bytes field_bytes le_bytes
fixed_split c context rest =
    let info = field_bytes 0 (field_of c.info (48 + length (encode_utf16le c.target))) in
    let moved : c.challenge ++ (context ++ (info ++ rest))
        ≡ (c.challenge ++ (context ++ (info ++ []))) ++ rest =
      sym (
        append_assoc c.challenge (context ++ (info ++ [])) rest
        ∙ ap (λ l. c.challenge ++ l) (append_assoc context (info ++ []) rest)) in
    ap
      (λ l.
        ntlmssp_magic
        ++ (le_bytes 4 ntlm_msg_challenge
            ++ (field_bytes 0 (field_of (encode_utf16le c.target) 48)
                ++ (le_bytes 4 c.flags ++ l))))
      moved

length-fixed_bytes :
    (c : ChallengeMsg) (context : Bytes)
    → length c.challenge ≡ 8
    → length context ≡ 8
    → length (fixed_bytes c context []) ≡ 48
unfolding fixed_bytes field_bytes le_bytes
length-fixed_bytes c context eight size =
    let info = field_bytes 0 (field_of c.info (48 + length (encode_utf16le c.target))) in
    omega (
      arith,
      length-append c.challenge (context ++ (info ++ [])),
      length-append context (info ++ []),
      eight,
      size,
    )

abbrev info_field : ChallengeMsg → Field
info_field c = field_of c.info (48 + length (encode_utf16le c.target))

abbrev behind_flags : ChallengeMsg → Bytes → Bytes
behind_flags c context =
    c.challenge
    ++ (context ++ (field_bytes 0 (info_field c) ++ (encode_utf16le c.target ++ c.info)))

magic_lem :
    (c : ChallengeMsg) (context : Bytes)
    → split 8 (challenge_bytes c context)
      ≡ some (
        ntlmssp_magic,
        le_bytes 4 ntlm_msg_challenge
            ++ (field_bytes 0 (field_of (encode_utf16le c.target) 48)
                ++ (le_bytes 4 c.flags ++ behind_flags c context)),
      )
unfolding challenge_bytes fixed_bytes
magic_lem c context = split-append ntlmssp_magic _

module _ (c : ChallengeMsg) (context : Bytes) (h : IsChallenge c) (size : length context ≡ 8) where
  target_lem :
      extract plain (field_of (encode_utf16le c.target) 48) (challenge_bytes c context)
      ≡ done (encode_utf16le c.target)
  unfolding challenge_bytes
  target_lem =
      let target = encode_utf16le c.target in
      let long = length-fixed_bytes c context h.eight size in
      extract_lem (field_of target 48) (fixed_bytes c context []) target c.info
        (challenge_bytes c context) refl (sym long) (fixed_split c context (target ++ c.info))
        (omega (arith, long, h.target_size))

  info_lem :
      extract plain
        (field_of c.info (0 + (48 + length (encode_utf16le c.target))))
        (challenge_bytes c context)
      ≡ done c.info
  unfolding challenge_bytes
  info_lem =
      let target = encode_utf16le c.target in
      let front = fixed_bytes c context [] in
      let long : 0 + (48 + length target) ≡ length (front ++ target) =
        omega (arith, length-append front target, length-fixed_bytes c context h.eight size) in
      let whole : challenge_bytes c context ≡ (front ++ target) ++ (c.info ++ []) =
        fixed_split c context (target ++ c.info)
        ∙ sym (append_assoc front target c.info)
        ∙ ap (λ l. (front ++ target) ++ l) (sym (append-nil c.info)) in
      extract_lem (field_of c.info (0 + (48 + length target))) (front ++ target) c.info []
        (challenge_bytes c context) refl long whole
        (omega (arith, long, h.target_size, h.info_size))

  unfoldable Parsed : Wire → Type 0
  Parsed wire = parse_challenge wire (challenge_bytes c context) ≡ done c

  Parsed-plain : Parsed plain
  unfolding parse_challenge extract_string IsFit Parsed
  Parsed-plain =
      let target = encode_utf16le c.target in
      let info = field_bytes 0 (info_field c) ++ (target ++ c.info) in
      let nonce : split 8 (c.challenge ++ (context ++ info)) ≡ some (c.challenge, context ++ info) =
        subst
          (λ n. split n (c.challenge ++ (context ++ info)) ≡ some (c.challenge, context ++ info))
          h.eight (split-append c.challenge (context ++ info)) in
      let skipped : skip 8 (context ++ info) ≡ some info =
        subst (λ n. skip n (context ++ info) ≡ some info) size (skip-append context info) in
      rw
        (
          magic_lem c context,
          read_le-le_bytes 4 ntlm_msg_challenge
              (field_bytes 0 (field_of target 48) ++ (le_bytes 4 c.flags ++ behind_flags c context))
              (omega arith),
          parse_field_lem 0 (field_of target 48) (le_bytes 4 c.flags ++ behind_flags c context)
              (h.target_size, h.target_size, omega arith),
          read_le-le_bytes 4 c.flags (behind_flags c context) h.word,
          nonce,
          skipped,
          parse_field_lem 0 (info_field c) (target ++ c.info)
              (h.info_size, h.info_size, omega (arith, h.target_size)),
          h.known,
          h.unicode,
          target_lem,
          decode_utf16le-encode_utf16le c.target h.characters,
          info_lem,
        )
        refl

  -- A challenge in Unicode with known flags is read as the server laid it out: its target, flags, nonce and
  -- information.
  pub parse_challenge_lem :
      (wire : Wire) → IsWire wire → parse_challenge wire (challenge_bytes c context) ≡ done c
  unfolding Parsed
  parse_challenge_lem wire is_wire = of_plain Parsed wire is_wire Parsed-plain
