-- ===== src/Client/Commands/Setup/Tests.antt =====
-- A server without extended security, with a challenge of eight bytes and with none.
use cifs_client_stream.Common.{
  ℕ, ◌≡◌, refl, List, [], ◌∷◌, ◌++◌, some, done, panics, replicate, Run, fails, arith,
}
use cifs_client_stream.Errors.{Error, need_auth, internal_error}
use cifs_client_stream.Ntlm.Auth.{Crypto, IsCrypto, Auth}
use cifs_client_stream.Smb.Codes.{Cmd}
use cifs_client_stream.Smb.Info.{default_info}
use cifs_client_stream.Smb.Reply.{ServerSetup}
use cifs_client_stream.Smb.Wire.Plain.{plain}
use cifs_client_stream.Client.Commands.{command, send, recv_reply, request_info, session_setup}
use cifs_client_stream.Smb.Frame.{
  write, write_frame, parse_body, parse_parts, parse_andx, skip_andx, write_andx,
}
use cifs_client_stream.Smb.Info.{write_info}
use cifs_client_stream.Smb.Wire.Plain.{le_bytes, read_le, split, skip}
use cifs_client_stream.Smb.Msg.{put_dialects, session_setup_body, put_mode}
use cifs_client_stream.Utils.Unicode.{
  as_bytes, utf8_bytes, encode_utf16le, encode_utf16, utf16_units, le_units, encode_utf16le_0,
}
use cifs_client_stream.Client.{recv, parse_reply, dispatch, recv_loop, status_allowed}
use cifs_client_stream.Smb.Codes.{find_cmd, status_code}
use cifs_client_stream.Smb.Reply.{create_server_setup, read_setup, create_session_setup}
use cifs_client_stream.Utils.{decode_windows_time}
use cifs_client_stream.Client.Commands.Setup.{authenticate, authenticate_ntlm}
use cifs_client_stream.Ntlm.Auth.{ntlmv1_authenticate, des_oneshot, ntlm_hash}
use cifs_client_stream.Smb.Codes as Codes
use cifs_client_stream.Win as Win
use cifs_client_stream.Stream.Buffer.{Bytes}
use cifs_client_stream.Utils.{Chrono}
use cifs_client_stream.Client.{PendingReply}
use cifs_client_stream.Client.Commands.Monad.{Cifs, Network}
use cifs_client_stream.Client.Commands.{negotiate}
use cifs_client_stream.Client.Commands.Setup.{Entropy, new_cifs, setup_connection}
use cifs_client_stream.Client.Commands.Setup.Laws.{setup_connection_panics}
use cifs_client_stream.Client.Commands.Setup.Unfinished.{
  unfinished_network, seen, seen_call, setup_connection_unfinished,
}

abbrev take_next : List PendingReply → Run Error PendingReply × List PendingReply
take_next [] = (fails (internal_error "closed"), [])
take_next (p ∷ ps) = (done p, ps)

abbrev network : Network (List PendingReply)
network = record {
  send_message = λ frame replies. (some (done tt), replies);
  recv_frame = take_next;
  now = λ replies. 0;
}

abbrev chrono : Chrono
chrono = record {
  Date = ℕ;
  windows_epoch = 0;
  plus_microseconds = λ date n. n;
  microseconds_since = λ date start. some date;
}

abbrev entropy : Entropy (List PendingReply) chrono
entropy = record { random = λ replies. replicate 8 3; clock = λ replies. 5 }

abbrev crypto : Crypto
crypto = record {
  md4 = λ content. replicate 16 7;
  hmac_md5 = λ key content. replicate 16 5;
  encrypt_block = λ key block. replicate 8 9;
  to_uppercase = λ name. name;
}

crypto-IsCrypto : IsCrypto crypto
crypto-IsCrypto = record {
  md4_size = λ content. refl;
  hmac_size = λ key content. refl;
  block_size = λ key block. refl;
}

abbrev guest : Auth
guest = record { user = 97 ∷ []; workstation = []; domain = []; password = [] }

-- The capabilities are those of a server with Unicode.
abbrev offer : ℕ → Bytes → PendingReply
offer size challenge = record {
  info = default_info Cmd.negotiate;
  body = 17 ∷ (replicate 19 0 ++ 4 ∷ (replicate 13 0 ++ size ∷ size ∷ 0 ∷ challenge));
}

abbrev welcome : PendingReply
welcome = record {
  info = record (default_info Cmd.session_setup) { mid = 1; uid = 42 };
  body = 3 ∷ 0xff ∷ 0 ∷ 0 ∷ 0 ∷ 0 ∷ 0 ∷ 0 ∷ 0 ∷ [];
}

abbrev polite : Cifs (List PendingReply)
polite = new_cifs (offer 8 (replicate 8 1) ∷ welcome ∷ []) guest

abbrev silent : Cifs (List PendingReply)
silent = new_cifs (offer 0 [] ∷ []) guest

abbrev set_up : Cifs (List PendingReply)
set_up = record (new_cifs [] guest) { max_smb_size = 0; uid = 42; mid = 2 }

polite_lem :
    setup_connection plain network 2 chrono entropy crypto need_auth polite
    ≡ (some (done tt), set_up)
unfolding negotiate command send write write_frame write_info le_bytes put_dialects as_bytes
    utf8_bytes recv_reply recv parse_reply parse_body parse_parts read_le split request_info
    dispatch recv_loop status_allowed find_cmd status_code parse_andx skip_andx write_andx
    create_server_setup read_setup decode_windows_time setup_connection authenticate
    authenticate_ntlm session_setup ntlmv1_authenticate des_oneshot ntlm_hash create_session_setup
    skip encode_utf16le encode_utf16 utf16_units le_units encode_utf16le_0 Codes.code Codes.try_from
    Win.code session_setup_body put_mode
polite_lem = refl

setup_connection_unfinished_example :
    setup_connection plain
      (unfinished_network network)
      2
      chrono
      entropy
      crypto
      need_auth
      (seen polite)
    ≡ seen_call (setup_connection plain network 2 chrono entropy crypto need_auth polite)
setup_connection_unfinished_example =
    setup_connection_unfinished plain network 2 chrono entropy crypto need_auth polite

abbrev offered : ServerSetup chrono
offered = record {
  dialect = 0;
  security_mode = 0;
  max_mpx_count = 0;
  max_number_vcs = 0;
  max_buffer_size = 0;
  max_raw_size = 0;
  session_key = 0;
  capabilities = 4;
  system_time = 0;
  timezone = 0;
  challenge = [];
}

silent_lem :
    negotiate plain network 2 chrono silent
    ≡ (some (done offered), record (new_cifs [] guest) { mid = 1 })
unfolding negotiate command send write write_frame write_info le_bytes put_dialects as_bytes
    utf8_bytes recv_reply recv parse_reply parse_body parse_parts read_le split request_info
    dispatch recv_loop status_allowed find_cmd status_code parse_andx skip_andx write_andx
    create_server_setup read_setup decode_windows_time setup_connection authenticate
    authenticate_ntlm session_setup ntlmv1_authenticate des_oneshot ntlm_hash create_session_setup
    skip encode_utf16le encode_utf16 utf16_units le_units encode_utf16le_0 Codes.code Codes.try_from
    Win.code session_setup_body put_mode
silent_lem = refl

setup_connection_panics_example :
    (setup_connection plain network 2 chrono entropy crypto need_auth silent).0 ≡ some panics
setup_connection_panics_example =
    setup_connection_panics plain network 2 chrono entropy crypto need_auth silent offered
      (record (new_cifs [] guest) { mid = 1 }) crypto-IsCrypto silent_lem refl
      (λ e. absurd (omega (arith, e)))
