-- ===== src/Ntlm/Auth/Laws.antt =====
-- A server that knows the password accepts the response.
use cifs_client_stream.Common.{
  ℕ, ◌+◌, ◌^◌, ◌<◌, ◌≡◌, ◌≢◌, ◌==◌, panics, refl, sym, append-nil, ap, subst, ◌∙◌, List, [], ◌∷◌,
  ◌++◌, Bool, true, false, length, take, drop, replicate, ok, done, arith, append_assoc,
  length-append,
}
use cifs_client_stream.Errors.{NtlmError}
use cifs_client_stream.Media.Names.{Name}
use cifs_client_stream.Stream.Buffer.{Bytes}
use cifs_client_stream.Smb.Wire.{Wire}
use cifs_client_stream.Smb.Wire.Plain.{plain, IsWire, plain-IsWire, of_plain, le_bytes}
use cifs_client_stream.Utils.Unicode.{encode_utf16le, as_bytes}
use cifs_client_stream.Ntlm.{
  PacketEntry, buffer, Packet, new_packet, entry_len, base_len, append_binary, append_buffer,
  append_string, to_bytes, ntlmssp_magic,
}
use cifs_client_stream.Ntlm.Laws.{IsFit, IsWritable, entries_bytes, entry_bytes, to_bytes-plain}
use cifs_client_stream.Ntlm.Laws.Buffers.{field_at, extended, to_bytes-field_at}
use cifs_client_stream.Ntlm.Challenge.{ChallengeMsg, is_unicode}
use cifs_client_stream.Ntlm.Auth.{
  Crypto, IsCrypto, Auth, ntlm_hash, expand_des_key, des_oneshot, ntlmv1_authenticate, ntlmv2_hash,
  ntlmv2_authenticate, blob_of, response_packet, response,
}

-- A text as `append_string` writes it.
unfoldable pub string_bytes : Bool → Name → Bytes
string_bytes true = encode_utf16le
string_bytes false = as_bytes

append_string_lem :
    (msg : Name) (unicode : Bool) (p : Packet)
    → append_string msg unicode p ≡ append_buffer (string_bytes unicode msg) p
unfolding append_string string_bytes
append_string_lem msg true p = refl
append_string_lem msg false p = refl

head : Packet
unfolding append_binary
head = append_binary (le_bytes 4 3) (append_binary ntlmssp_magic new_packet)

front : Packet
unfolding append_buffer
front = append_buffer (replicate 24 0) head

module _ (answer domain user workstation : Bytes) where
  whole : Packet
  unfolding front append_buffer
  whole =
      append_buffer workstation
        (append_buffer user (append_buffer domain (append_buffer answer front)))

  abbrev field_of : Bytes → ℕ → PacketEntry
  field_of content position =
      buffer (record { length = length content; capacity = length content; position = position })

  -- What stands behind the answer, the domain and the user.
  abbrev behind_user : List PacketEntry
  behind_user = field_of workstation (length ((((front.extra ++ answer) ++ domain) ++ user))) ∷ []

  abbrev behind_domain : List PacketEntry
  behind_domain = field_of user (length ((front.extra ++ answer) ++ domain)) ∷ behind_user

  abbrev behind_answer : List PacketEntry
  behind_answer = field_of domain (length (front.extra ++ answer)) ∷ behind_domain

  abbrev behind_lm : List PacketEntry
  behind_lm = field_of answer (length front.extra) ∷ behind_answer

  whole_answer :
      whole ≡ extended behind_answer (domain ++ (user ++ workstation)) (append_buffer answer front)
  unfolding whole append_buffer front head append_binary
  whole_answer =
      ap (λ x. record whole { extra = x })
        (append_assoc ((front.extra ++ answer) ++ domain) user workstation
          ∙ append_assoc (front.extra ++ answer) domain (user ++ workstation))

  whole_lm :
      whole
      ≡ extended behind_lm
          (answer ++ (domain ++ (user ++ workstation)))
          (append_buffer (replicate 24 0) head)
  unfolding whole append_buffer front head append_binary
  whole_lm =
      ap (λ x. record whole { extra = x })
        (append_assoc ((front.extra ++ answer) ++ domain) user workstation
          ∙ append_assoc (front.extra ++ answer) domain (user ++ workstation)
          ∙ append_assoc front.extra answer (domain ++ (user ++ workstation)))

  whole_domain :
      whole
      ≡ extended behind_domain
          (user ++ workstation)
          (append_buffer domain (append_buffer answer front))
  unfolding whole append_buffer front head append_binary
  whole_domain =
      ap (λ x. record whole { extra = x })
        (append_assoc ((front.extra ++ answer) ++ domain) user workstation)

  whole_user :
      whole
      ≡ extended behind_user workstation
          (append_buffer user (append_buffer domain (append_buffer answer front)))
  unfolding whole append_buffer front head append_binary
  whole_user = refl

  whole_workstation :
      whole
      ≡ extended [] [] (
          append_buffer workstation
            (append_buffer user (append_buffer domain (append_buffer answer front))))
  unfolding whole append_buffer front head append_binary
  whole_workstation = ap (λ x. record whole { extra = x }) (sym (append-nil whole.extra))

  whole-IsWritable :
      length answer < 2 ^ 16
      → length domain < 2 ^ 16
      → length user < 2 ^ 16
      → length workstation < 2 ^ 16
      → IsWritable whole
  unfolding whole front head append_buffer append_binary IsFit base_len entry_len le_bytes
  whole-IsWritable a d u w =
      let to_domain = length-append answer domain in
      let to_user = length-append (answer ++ domain) user in
      (
        tt,
        (
          tt,
          (
            (omega arith, omega arith, omega arith),
            (
              (a, a, omega (arith, a)),
              (
                (d, d, omega (arith, a, d)),
                (
                  (u, u, omega (arith, a, d, u, to_domain)),
                  ((w, w, omega (arith, a, d, u, w, to_domain, to_user)), tt),
                ),
              ),
            ),
          ),
        ),
      )

length-blob_of :
    (now : ℕ) (random info : Bytes)
    → length random ≡ 8
    → length (blob_of plain now random info) ≡ 32 + length info
unfolding blob_of le_bytes
length-blob_of now random info eight =
    let head : Bytes = 1 ∷ 1 ∷ 0 ∷ 0 ∷ 0 ∷ 0 ∷ 0 ∷ 0 ∷ [] in
    let timed = head ++ le_bytes 8 now in
    omega (
      arith,
      length-append (((timed ++ random) ++ le_bytes 4 0) ++ info) (le_bytes 4 0),
      length-append ((timed ++ random) ++ le_bytes 4 0) info,
      length-append (timed ++ random) (le_bytes 4 0),
      length-append timed random,
      eight,
    )

-- The message as it is written, and the data of its fields.
unfoldable message : Packet → Bytes
message p = entries_bytes (base_len p.entries) p.entries ++ p.extra

message-field_at :
    (nc : NtlmError) (whole : Packet) (later : List PacketEntry) (content tail : Bytes) (p : Packet)
    → IsWritable whole
    → whole ≡ extended later tail (append_buffer content p)
    → field_at plain (base_len p.entries) (message whole) ≡ done content
unfolding message
message-field_at nc whole later content tail p fit split =
    let (out, written, found) =
      to_bytes-field_at plain nc later content tail p plain-IsWire (subst IsWritable split fit) in
    let again : to_bytes plain nc whole ≡ ok out = ap (to_bytes plain nc) split ∙ written in
    let direct = to_bytes-plain nc whole fit in
    let same : out ≡ message whole = cc in
    subst (λ b. field_at plain (base_len p.entries) b ≡ done content) same found

-- What a server checks of an AUTHENTICATE message (MS-NLMP 2.2.1.3 and 3.3.2): its signature and its
-- number, the texts that name the client, an LM answer of zeros, and that the answer is the digest of the
-- server's own challenge and the rest of the answer, under the key that the server computes from the
-- password, the user in upper case and the domain; the rest holds the time, the client's challenge and
-- the information that the server sent.
pub record Accepts (crypto : Crypto) (now : ℕ) (random : Bytes) (auth : Auth) (msg : ChallengeMsg)
    (wire : Wire) (out : Bytes) : Type 0 where
  pub signature : take 8 out ≡ 78 ∷ 84 ∷ 76 ∷ 77 ∷ 83 ∷ 83 ∷ 80 ∷ 0 ∷ []
  pub number : take 4 (drop 8 out) ≡ 3 ∷ 0 ∷ 0 ∷ 0 ∷ []
  pub lm : field_at wire 12 out ≡ done (replicate 24 0)
  pub proof : Bytes
  pub blob : Bytes
  pub answer : field_at wire 20 out ≡ done (proof ++ blob)
  pub proof_size : length proof ≡ 16
  pub digest :
      proof
      ≡ crypto.hmac_md5
          (crypto.hmac_md5
            (crypto.md4 (encode_utf16le auth.password))
            (encode_utf16le (crypto.to_uppercase auth.user ++ auth.domain)))
          (msg.challenge ++ blob)
  pub layout :
      blob
      ≡ (1 ∷ 1 ∷ 0 ∷ 0 ∷ 0 ∷ 0 ∷ 0 ∷ 0 ∷ [])
        ++ (le_bytes 8 now
            ++ (random ++ ((0 ∷ 0 ∷ 0 ∷ 0 ∷ []) ++ (msg.info ++ (0 ∷ 0 ∷ 0 ∷ 0 ∷ [])))))
  pub domain : field_at wire 28 out ≡ done (string_bytes (is_unicode msg.flags) auth.domain)
  pub user : field_at wire 36 out ≡ done (string_bytes (is_unicode msg.flags) auth.user)
  pub workstation :
      field_at wire 44 out ≡ done (string_bytes (is_unicode msg.flags) auth.workstation)

blob_of_lem :
    (now : ℕ) (random info : Bytes)
    → blob_of plain now random info
      ≡ (1 ∷ 1 ∷ 0 ∷ 0 ∷ 0 ∷ 0 ∷ 0 ∷ 0 ∷ [])
        ++ (le_bytes 8 now ++ (random ++ ((0 ∷ 0 ∷ 0 ∷ 0 ∷ []) ++ (info ++ (0 ∷ 0 ∷ 0 ∷ 0 ∷ [])))))
unfolding blob_of le_bytes
blob_of_lem now random info =
    let start : Bytes = 1 ∷ 1 ∷ 0 ∷ 0 ∷ 0 ∷ 0 ∷ 0 ∷ 0 ∷ [] in
    let zeros : Bytes = 0 ∷ 0 ∷ 0 ∷ 0 ∷ [] in
    append_assoc (((start ++ le_bytes 8 now) ++ random) ++ zeros) info zeros
    ∙ append_assoc ((start ++ le_bytes 8 now) ++ random) zeros (info ++ zeros)
    ∙ append_assoc (start ++ le_bytes 8 now) random (zeros ++ (info ++ zeros))
    ∙ append_assoc start (le_bytes 8 now) (random ++ (zeros ++ (info ++ zeros)))

message-front :
    (answer domain user workstation : Bytes)
    → (take 8 (message (whole answer domain user workstation))
        ≡ 78 ∷ 84 ∷ 76 ∷ 77 ∷ 83 ∷ 83 ∷ 80 ∷ 0 ∷ [])
      × (take 4 (drop 8 (message (whole answer domain user workstation))) ≡ 3 ∷ 0 ∷ 0 ∷ 0 ∷ [])
unfolding message whole front head append_buffer append_binary entries_bytes entry_bytes le_bytes
message-front answer domain user workstation = (refl, refl)

module _ (crypto : Crypto) (is_crypto : IsCrypto crypto) (nc : NtlmError) (now : ℕ) (random : Bytes)
    (auth : Auth) (msg : ChallengeMsg) where
  abbrev text : Name → Bytes
  text = string_bytes (is_unicode msg.flags)

  unfoldable Answered : Wire → Type 0
  Answered wire =
      (out : Bytes) × (response crypto wire nc now random auth msg ≡ ok out)
      × Accepts crypto now random auth msg wire out

  response_packet_lem :
      (answer : Bytes)
      → response_packet plain answer auth (is_unicode msg.flags)
        ≡ whole answer (text auth.domain) (text auth.user) (text auth.workstation)
  unfolding response_packet whole front head
  response_packet_lem answer =
      rw
        (
          append_string_lem auth.domain (is_unicode msg.flags) _,
          append_string_lem auth.user (is_unicode msg.flags) _,
          append_string_lem auth.workstation (is_unicode msg.flags) _,
        )
        refl

  Answered-plain :
      length random ≡ 8
      → length msg.info + 48 < 2 ^ 16
      → length (text auth.domain) < 2 ^ 16
      → length (text auth.user) < 2 ^ 16
      → length (text auth.workstation) < 2 ^ 16
      → Answered plain
  unfolding Answered response ntlmv2_authenticate ntlmv2_hash ntlm_hash front head append_buffer
      append_binary base_len entry_len message le_bytes
  Answered-plain eight room d u w =
      let blob = blob_of plain now random msg.info in
      let tag = crypto.hmac_md5 (ntlmv2_hash crypto auth) (msg.challenge ++ blob) in
      let size = is_crypto.hmac_size (ntlmv2_hash crypto auth) (msg.challenge ++ blob) in
      let answer = tag ++ blob in
      let domain = text auth.domain in
      let user = text auth.user in
      let station = text auth.workstation in
      let packet = whole answer domain user station in
      let fit : IsWritable packet =
        whole-IsWritable answer domain user station
          (omega
            (arith, length-append tag blob, size, length-blob_of now random msg.info eight, room))
          d u w in
      let start = message-front answer domain user station in
      (
        message packet,
        ap (to_bytes plain nc) (response_packet_lem answer) ∙ to_bytes-plain nc packet fit,
        record {
          signature = start.0;
          number = start.1;
          lm =
              message-field_at nc packet _ (replicate 24 0) _ head fit
                (whole_lm answer domain user station);
          proof = tag;
          blob = blob;
          answer =
              message-field_at nc packet _ answer _ front fit
                (whole_answer answer domain user station);
          proof_size = size;
          digest = refl;
          layout = blob_of_lem now random msg.info;
          domain =
              message-field_at nc packet _ domain _ (append_buffer answer front) fit
                (whole_domain answer domain user station);
          user =
              message-field_at nc packet _ user _
                (append_buffer domain (append_buffer answer front)) fit
                (whole_user answer domain user station);
          workstation =
              message-field_at nc packet _ station _
                (append_buffer user (append_buffer domain (append_buffer answer front))) fit
                (whole_workstation answer domain user station);
        },
      )

  -- Where the texts and the server's information fit their 16 bits of length and eight random bytes are
  -- drawn, the response is written, and a server that computes the key from the user's password accepts it:
  -- it finds the signature, the message's number, the three texts, an LM answer of zeros, and an answer
  -- whose first 16 bytes are the digest of its challenge and the rest under the key; and the rest is the
  -- version, the time, the random bytes and the server's information.
  pub response_lem :
      (wire : Wire)
      → IsWire wire
      → length random ≡ 8
      → length msg.info + 48 < 2 ^ 16
      → length (text auth.domain) < 2 ^ 16
      → length (text auth.user) < 2 ^ 16
      → length (text auth.workstation) < 2 ^ 16
      → (out : Bytes) × (response crypto wire nc now random auth msg ≡ ok out)
        × Accepts crypto now random auth msg wire out
  unfolding Answered
  response_lem wire is_wire eight room d u w =
      of_plain Answered wire is_wire (Answered-plain eight room d u w)

-- A challenge of eight bytes is answered by 24 bytes, and any other makes the client panic.
pub ntlmv1_authenticate_cases :
    (crypto : Crypto) (auth : Auth) (challenge : Bytes)
    → IsCrypto crypto
    → (length challenge ≡ 8
        → (answer : Bytes) × (ntlmv1_authenticate crypto auth challenge ≡ done answer)
          × (length answer ≡ 24))
      × (length challenge ≢ 8 → ntlmv1_authenticate crypto auth challenge ≡ panics)
unfolding ntlmv1_authenticate des_oneshot
ntlmv1_authenticate_cases crypto auth challenge is_crypto =
    let hash = ntlm_hash crypto auth in
    let part = λ (key : Bytes). crypto.encrypt_block (expand_des_key key) challenge in
    (
      λ e.
          let yes_eight : (length challenge == 8) ≡ true = ground arith in
          let a = part (take 7 hash) in
          let b = part (take 7 (drop 7 hash)) in
          let c = part (take 2 (drop 14 hash)) in
          (
            a ++ (b ++ c),
            rw yes_eight refl,
            omega (
              arith,
              length-append a (b ++ c),
              length-append b c,
              is_crypto.block_size (expand_des_key (take 7 hash)) challenge,
              is_crypto.block_size (expand_des_key (take 7 (drop 7 hash))) challenge,
              is_crypto.block_size (expand_des_key (take 2 (drop 14 hash))) challenge,
            ),
          ),
      λ ne. let other : (length challenge == 8) ≡ false = ground arith in rw other refl,
    )
