-- ===== src/Client/Commands/Setup/Laws.antt =====
-- How setting a connection up ends.
use cifs_client_stream.Common.{ℕ, ◌≡◌, ◌≢◌, refl, some, false, done, panics, length}
use cifs_client_stream.Errors.{NtlmError}
use cifs_client_stream.Ntlm.Auth.{Crypto, IsCrypto}
use cifs_client_stream.Ntlm.Auth.Laws.{ntlmv1_authenticate_cases}
use cifs_client_stream.Smb.Info.{has_flag}
use cifs_client_stream.Smb.Reply.{ServerSetup}
use cifs_client_stream.Smb.Wire.{Wire}
use cifs_client_stream.Utils.{Chrono}
use cifs_client_stream.Client.Commands.Monad.{Cifs, Network}
use cifs_client_stream.Client.Commands.{negotiate}
use cifs_client_stream.Client.Commands.Setup.{
  Entropy, cap_extended_security, authenticate_ntlm, authenticate, setup_connection,
}

module _ {N : Type 0} (wire : Wire) (network : Network N) (fuel : ℕ) (chrono : Chrono)
    (entropy : Entropy N chrono) (crypto : Crypto) (nc : NtlmError) where
  -- A server without extended security whose challenge has not eight bytes makes the client panic.
  pub setup_connection_panics :
      (c : Cifs N) (setup : ServerSetup chrono) (after : Cifs N)
      → IsCrypto crypto
      → negotiate wire network fuel chrono c ≡ (some (done setup), after)
      → has_flag setup.capabilities cap_extended_security ≡ false
      → length setup.challenge ≢ 8
      → (setup_connection wire network fuel chrono entropy crypto nc c).0 ≡ some panics
  unfolding setup_connection authenticate authenticate_ntlm
  setup_connection_panics c setup after is_crypto negotiated plain_security odd =
      rw
        (
          negotiated,
          plain_security,
          (ntlmv1_authenticate_cases crypto after.auth setup.challenge is_crypto).1 odd,
        )
        refl
