-- ===== src/Smb/Reply/Laws/Names.antt =====
-- The reply to TreeConnect: the share's rights and names.
use Prim.Native.Nat.{bit_and}
use cifs_client_stream.Common.{
  ℕ, zero, suc, ◌%◌, ◌^◌, ◌<◌, ◌≡◌, refl, sym, ◌∙◌, [], ◌∷◌, ◌++◌, some, none, Option, Bool, true,
  false, leb, ◌==◌, arith, All, length, replicate, done,
}
use cifs_client_stream.Stream.Buffer.{Bytes}
use cifs_client_stream.Media.Names.{Name}
use cifs_client_stream.Smb.Info.{Info, has_flag, flag_unicode}
use cifs_client_stream.Smb.Wire.{Wire}
use cifs_client_stream.Smb.Wire.Plain.{plain, plain-IsWire, IsWire, of_plain, le_bytes, skip}
use cifs_client_stream.Smb.Wire.Laws.{read_le-le_bytes}
use cifs_client_stream.Smb.Frame.{ReplyCtx}
use cifs_client_stream.Smb.Reply.{dir_access_all, Share, create_share, share_names, skip_padding}
use cifs_client_stream.Smb.Reply.Laws.{skip_word}
use cifs_client_stream.Utils.Unicode.{as_bytes, encode_utf16le_0}
use cifs_client_stream.Utils.Unicode.Laws.Terminated.{IsText, parse_0-encode}

-- The padding that aligns the second name, whose text is UTF-16 where the header says so.
abbrev pub padding : Name → Bytes
padding service = replicate (length (as_bytes service) % 2) 0

abbrev pub name_bytes : Bool → Name → Name → Bytes → Bytes
name_bytes true service filesystem rest =
    as_bytes service ++ 0 ∷ (padding service ++ (encode_utf16le_0 filesystem ++ rest))
name_bytes false service filesystem rest = as_bytes service ++ 0 ∷ (as_bytes filesystem ++ 0 ∷ rest)

skip_padding_lem :
    (n : ℕ) (rest : Bytes)
    → skip_padding plain (n % 2 == 1) (replicate (n % 2) 0 ++ rest) ≡ done (tt, rest)
unfolding skip
skip_padding_lem n rest = go (n % 2) (omega arith)
  where
    go : (k : ℕ) → k < 2 → skip_padding plain (k == 1) (replicate k 0 ++ rest) ≡ done (tt, rest)
    go zero h = refl
    go (suc zero) h = refl
    go (suc (suc k)) h = absurd (omega (arith, h))

plain_names :
    (unicode : Bool) (service filesystem : Name) (rest : Bytes)
    → All IsText service
    → All IsText filesystem
    → share_names plain unicode (name_bytes unicode service filesystem rest)
      ≡ done ((service, filesystem), rest)
unfolding share_names
plain_names true service filesystem rest h g =
    rw
      (
        (parse_0-encode plain plain-IsWire service
            (padding service ++ (encode_utf16le_0 filesystem ++ rest)) h).1,
        skip_padding_lem (length (as_bytes service)) (encode_utf16le_0 filesystem ++ rest),
        (parse_0-encode plain plain-IsWire filesystem rest g).0,
      )
      refl
plain_names false service filesystem rest h g =
    rw
      (
        (parse_0-encode plain plain-IsWire service (as_bytes filesystem ++ 0 ∷ rest) h).1,
        (parse_0-encode plain plain-IsWire filesystem rest g).1,
      )
      refl

-- The parameter of the reply: the optional masks, of which the second follows the first.
abbrev pub mask_words : Option ℕ → Option ℕ → Bytes
mask_words none guest = []
mask_words (some access) none = le_bytes 4 access ++ []
mask_words (some access) (some guest) = le_bytes 4 access ++ (le_bytes 4 guest ++ [])

abbrev pub guest_of : Option ℕ → Option ℕ → Option ℕ
guest_of none guest = none
guest_of (some access) guest = guest

abbrev pub IsMask : Option ℕ → Type 0
IsMask none = Unit {0}
IsMask (some bits) = (bit_and dir_access_all bits ≡ bits) × (bits < 2 ^ 32)

abbrev pub share_ctx : Info → ℕ → Share → Bytes → ℕ → ReplyCtx
share_ctx info support s rest at = record {
  info = info;
  parameter = le_bytes 2 support ++ mask_words s.access_rights s.guest_rights;
  content = name_bytes (has_flag info.flags2 flag_unicode) s.service s.filesystem rest;
  data_offset = at;
}

enough_left : (x : ℕ) (rest : Bytes) → leb 4 (length (le_bytes 4 x ++ rest)) ≡ true
unfolding le_bytes
enough_left x rest = ground arith

plain_share :
    (info : Info) (support : ℕ) (access guest : Option ℕ) (service filesystem : Name) (rest : Bytes)
    (at : ℕ)
    → IsMask access
    → IsMask guest
    → All IsText service
    → All IsText filesystem
    → create_share plain (
        share_ctx info support
          (record {
            access_rights = access;
            guest_rights = guest;
            service = service;
            filesystem = filesystem;
            tid = info.tid;
          })
          rest
          at)
      ≡ done (record {
        access_rights = access;
        guest_rights = guest_of access guest;
        service = service;
        filesystem = filesystem;
        tid = info.tid;
      })
unfolding create_share
plain_share info support none guest service filesystem rest at a g h f =
    rw
      (
        skip_word support,
        plain_names (has_flag info.flags2 flag_unicode) service filesystem rest h f,
      )
      refl
plain_share info support (some access) none service filesystem rest at a g h f =
    rw
      (
        skip_word support,
        enough_left access [],
        read_le-le_bytes 4 access [] a.1,
        a.0,
        plain_names (has_flag info.flags2 flag_unicode) service filesystem rest h f,
      )
      refl
plain_share info support (some access) (some guest) service filesystem rest at a g h f =
    rw
      (
        skip_word support,
        enough_left access (le_bytes 4 guest ++ []),
        read_le-le_bytes 4 access (le_bytes 4 guest ++ []) a.1,
        a.0,
        enough_left guest [],
        read_le-le_bytes 4 guest [] g.1,
        g.0,
        plain_names (has_flag info.flags2 flag_unicode) service filesystem rest h f,
      )
      refl

-- The reply to TreeConnect is read as the share that its parameter and its data describe, with none,
-- one or both of the access masks, and with the second name in UTF-16 behind its padding or in UTF-8,
-- as the header says.
pub create_share_lem :
    (wire : Wire)
    → IsWire wire
    → (info : Info) (support : ℕ) (s : Share) (rest : Bytes) (at : ℕ) → IsMask s.access_rights
    → IsMask s.guest_rights
    → All IsText s.service
    → All IsText s.filesystem
    → s.tid ≡ info.tid
    → s.guest_rights ≡ guest_of s.access_rights s.guest_rights
    → create_share wire (share_ctx info support s rest at) ≡ done s
create_share_lem wire w info support s rest at a g h f t only =
    of_plain (λ wire. create_share wire (share_ctx info support s rest at) ≡ done s) wire w
      (plain_share info support s.access_rights s.guest_rights s.service s.filesystem rest at a g h
          f
        ∙ (λ i. done (record {
          access_rights = s.access_rights;
          guest_rights = sym only i;
          service = s.service;
          filesystem = s.filesystem;
          tid = sym t i;
        })))
