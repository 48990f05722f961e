-- ===== src/Errors.antt =====
-- src/error.rs: the crate's error type and its classification, with the error types of
-- src/netbios.rs and src/ntlm/error.rs that it wraps.
pub mod Laws
use cifs_client_stream.Common.{ℕ, String, Bool, true, false}
use cifs_client_stream.Smb.Codes.{Cmd, Status, SmbError}

-- The kinds of `std::io::Error` that the code tells apart; an `io::Error` is read only through its kind.
pub data IoErrorKind : Type 0 where
  timed_out would_block broken_pipe connection_aborted connection_reset not_connected : IoErrorKind
  unexpected_eof other : IoErrorKind

-- `netbios::Error`.
pub data NetbiosError : Type 0 where
  io_error : IoErrorKind → NetbiosError
  create_session invalid_frame_type : ℕ → NetbiosError
  invalid_frame frame_too_big unexpected_frame eof : NetbiosError

-- `ntlm::Error`.
pub data NtlmError : Type 0 where
  io : IoErrorKind → NtlmError
  input_parameter : String → NtlmError
  invalid_packet need_auth : NtlmError

pub data ErrorKind : Type 0 where
  network timeout protocol server auth unsupported config invalid_input internal : ErrorKind

pub data Error : Type 0 where
  netbios : NetbiosError → Error
  smb_error : SmbError → Error
  ntlm_error : NtlmError → Error
  internal_error : String → Error
  unexpected_reply : Cmd → Cmd → Error
  too_many_replies : ℕ → Error
  server_error : Status → Error
  unsupported_feature invalid_config timed_out_error : String → Error
  invalid_uri : Error

pub io_error_kind : IoErrorKind → ErrorKind
io_error_kind timed_out = timeout
io_error_kind would_block = timeout
io_error_kind _ = network

pub netbios_error_kind : NetbiosError → ErrorKind
unfolding io_error_kind
netbios_error_kind (io_error k) = io_error_kind k
netbios_error_kind eof = network
netbios_error_kind _ = protocol

pub smb_error_kind : SmbError → ErrorKind
smb_error_kind (SmbError.unsupported what) = unsupported
smb_error_kind _ = protocol

pub ntlm_error_kind : NtlmError → ErrorKind
unfolding io_error_kind
ntlm_error_kind (io k) = io_error_kind k
ntlm_error_kind need_auth = auth
ntlm_error_kind (input_parameter what) = invalid_input
ntlm_error_kind invalid_packet = protocol

pub kind : Error → ErrorKind
unfolding netbios_error_kind smb_error_kind ntlm_error_kind
kind (netbios e) = netbios_error_kind e
kind (smb_error e) = smb_error_kind e
kind (ntlm_error e) = ntlm_error_kind e
kind (internal_error what) = internal
kind (unexpected_reply want got) = protocol
kind (too_many_replies n) = protocol
kind (server_error s) = server
kind (unsupported_feature what) = unsupported
kind (invalid_config what) = config
kind (timed_out_error what) = timeout
kind invalid_uri = invalid_input

pub is_retryable : Error → Bool
unfolding kind
is_retryable e = elim (kind e) [ network ↦ true | timeout ↦ true | _ ↦ false ]

pub is_timeout : Error → Bool
unfolding kind
is_timeout e = elim (kind e) [ timeout ↦ true | _ ↦ false ]

-- The free function `is_connection_lost`, on the kind of an I/O error.
pub is_lost_kind : IoErrorKind → Bool
is_lost_kind broken_pipe = true
is_lost_kind connection_aborted = true
is_lost_kind connection_reset = true
is_lost_kind not_connected = true
is_lost_kind unexpected_eof = true
is_lost_kind _ = false

-- `Error::is_connection_lost`.
unfoldable pub is_connection_lost : Error → Bool
unfolding is_lost_kind
is_connection_lost (netbios eof) = true
is_connection_lost (netbios (io_error k)) = is_lost_kind k
is_connection_lost (ntlm_error (io k)) = is_lost_kind k
is_connection_lost _ = false
