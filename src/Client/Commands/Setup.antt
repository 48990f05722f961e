-- ===== src/Client/Commands/Setup.antt =====
-- Setting a connection up (src/lib.rs): `Cifs::open`, `setup_connection` and the two ways to
-- authenticate.
pub mod Laws
pub mod Unfinished
mod Tests
use cifs_client_stream.Common.{
  ℕ, [], ◌∷◌, Option, none, some, Bool, true, false, Result, ok, err, Run, done, fails, panics,
}
use cifs_client_stream.Errors.{Error, NtlmError, ntlm_error}
use cifs_client_stream.Media.Names.{Name}
use cifs_client_stream.Ntlm.{InitMsg, new_init, set_origin, set_default_version, init_bytes}
use cifs_client_stream.Ntlm.Auth.{Crypto, Auth, ntlmv1_authenticate, response}
use cifs_client_stream.Ntlm.Challenge.{ChallengeMsg, parse_challenge}
use cifs_client_stream.Smb.Info.{has_flag}
use cifs_client_stream.Smb.Reply.{ServerSetup}
use cifs_client_stream.Smb.Wire.{Wire}
use cifs_client_stream.Stream.Buffer.{Bytes}
use cifs_client_stream.Utils.{Chrono, encode_windows_time}
use cifs_client_stream.Client.Stats.{no_stats}
use cifs_client_stream.Client.Commands.Monad.{
  Cifs, Network, Call, ◌>>=◌, ◌>>◌, pure, from_run, as_run,
}
use cifs_client_stream.Client.Commands.{negotiate, session_setup, session_setup_ntlmv2}

-- `OsRng`, of which the client takes eight bytes, and `Utc::now`.
pub record Entropy (N : Type 0) (chrono : Chrono) : Type 0 where
  pub random : N → Bytes
  pub clock : N → chrono.Date

-- `From<ntlm::Error>`.
abbrev pub lift_ntlm : {A : Type 0} → Run NtlmError A → Run Error A
lift_ntlm (done a) = done a
lift_ntlm (fails e) = fails (ntlm_error e)
lift_ntlm panics = panics

abbrev pub from_ntlm : {N A : Type 0} → Run NtlmError A → Call N A
from_ntlm r = from_run (lift_ntlm r)

-- `Capabilities::UNICODE` and `Capabilities::EXTENDED_SECURITY`.
abbrev pub cap_unicode : ℕ
cap_unicode = 0x0004

abbrev pub cap_extended_security : ℕ
cap_extended_security = 0x80000000

abbrev pub set_uid : {N : Type 0} → ℕ → Call N (Unit {0})
set_uid uid c = (some (done tt), record c { uid = uid })

-- What `setup_connection` learns from the server.
abbrev pub learn : {N : Type 0} {chrono : Chrono} → ServerSetup chrono → Call N (Unit {0})
learn setup c = (
  some (done tt),
  record c {
    max_smb_size = setup.max_buffer_size;
    use_unicode = has_flag setup.capabilities cap_unicode;
  },
)

-- The initial message: Unicode, OEM, the target requested, NTLM, and both names supplied.
abbrev pub init_of : Auth → InitMsg
init_of auth = set_default_version (set_origin auth.domain auth.workstation (new_init 0x3207))

-- The defaults of `Cifs::open`; the workstation is `ANONYMOUS`.
abbrev pub or_anonymous : Name → Option Auth → Auth
or_anonymous host (some auth) = auth
or_anonymous host none = record {
  user = [];
  password = [];
  domain = host;
  workstation = 65 ∷ 78 ∷ 79 ∷ 78 ∷ 89 ∷ 77 ∷ 79 ∷ 85 ∷ 83 ∷ [];
}

abbrev pub new_cifs : {N : Type 0} → N → Auth → Cifs N
new_cifs netbios auth = record {
  inbox = record { netbios = netbios; pending = [] };
  auth = auth;
  max_smb_size = 1024;
  use_unicode = true;
  uid = 0;
  mid = 0;
  io_stats = no_stats;
}

module _ {N : Type 0} (wire : Wire) (network : Network N) (fuel : ℕ) (chrono : Chrono)
    (entropy : Entropy N chrono) (crypto : Crypto) (numeric_conversion : NtlmError) where
  unfoldable pub authenticate_ntlm : Bytes → Call N (Unit {0})
  authenticate_ntlm challenge c =
      (do
        answer ← from_ntlm (ntlmv1_authenticate crypto c.auth challenge)
        reply ← session_setup wire network fuel c.auth.user c.auth.domain answer
        set_uid reply.uid)
        c

  -- `ntlm_challenge.response(&self.auth)`, with the time, which may panic, and the random bytes.
  abbrev pub timed : Option ℕ → Auth → ChallengeMsg → Bytes → Run NtlmError Bytes
  timed none auth challenge random = panics
  timed (some now) auth challenge random =
      as_run (response crypto wire numeric_conversion now random auth challenge)

  unfoldable pub respond : ChallengeMsg → Call N Bytes
  respond challenge c =
      let n = c.inbox.netbios in
      from_ntlm
        (timed (encode_windows_time chrono (entropy.clock n)) c.auth challenge (entropy.random n)) c

  unfoldable pub authenticate_ntlmv2 : Call N (Unit {0})
  unfolding respond
  authenticate_ntlmv2 c =
      (do
        ntlm_init ← from_ntlm (as_run (init_bytes wire numeric_conversion (init_of c.auth)))
        reply ← session_setup_ntlmv2 wire network fuel ntlm_init
        set_uid reply.uid
        challenge ← from_ntlm (parse_challenge wire reply.security_blob)
        answer ← respond challenge
        last ← session_setup_ntlmv2 wire network fuel answer
        pure tt)
        c

  abbrev pub authenticate : Bool → Bytes → Call N (Unit {0})
  unfolding authenticate_ntlm authenticate_ntlmv2
  authenticate true challenge = authenticate_ntlmv2
  authenticate false challenge = authenticate_ntlm challenge

  unfoldable pub setup_connection : Call N (Unit {0})
  unfolding authenticate
  setup_connection = do
    setup ← negotiate wire network fuel chrono
    learn setup
    authenticate (has_flag setup.capabilities cap_extended_security) setup.challenge

  -- `Cifs::open` behind `NetBios::open`, or `NetBios::open_raw` with a port.
  abbrev pub connected : Run Error N → Auth → Option (Run Error (Unit {0})) × Option (Cifs N)
  unfolding setup_connection
  connected (fails e) auth = (some (fails e), none)
  connected panics auth = (some panics, none)
  connected (done netbios) auth =
      let r = setup_connection (new_cifs netbios auth) in (r.0, some r.1)
