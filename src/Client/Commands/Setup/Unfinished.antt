-- ===== src/Client/Commands/Setup/Unfinished.antt =====
-- What `setup_connection` (src/lib.rs) makes of a session setup that the server has not finished.
use cifs_client_stream.Common.{
  ℕ, ◌≡◌, refl, ap, ◌∙◌, [], ◌+◌, ◌*◌, ◌%◌, Option, none, some, Bool, true, false, Run, done, fails,
  panics, and_then,
}
use cifs_client_stream.Errors.{Error, NtlmError}
use cifs_client_stream.Smb.Codes.{Status, SmbError}
use cifs_client_stream.Smb.Frame.{
  Message, Reply, ReplyCtx, parse_body, parse_parts, skip_andx, write, check_andx,
}
use cifs_client_stream.Smb.Info.{write_info, has_flag, smb_header_len}
use cifs_client_stream.Smb.Reply.{
  server_setup_reply, session_setup_reply, create_server_setup, create_session_setup,
}
use cifs_client_stream.Smb.Wire.{Wire, get_u8, get_u16_le, copy_to_bytes}
use cifs_client_stream.Stream.Buffer.{Bytes}
use cifs_client_stream.Utils.{Chrono}
use cifs_client_stream.Media.Names.{Name}
use cifs_client_stream.Ntlm.{init_bytes}
use cifs_client_stream.Ntlm.Auth.{Crypto, ntlmv1_authenticate}
use cifs_client_stream.Ntlm.Challenge.{parse_challenge}
use cifs_client_stream.Client.Commands.{
  Cifs, Network, Call, then_call, pure, from_smb, transmit, on_inbox, transmit_frame, send,
  recv_reply, command, as_reply_type, request_info, negotiate, session_setup, session_setup_ntlmv2,
  as_run,
}
use cifs_client_stream.Client.Commands.Setup.{
  Entropy, cap_extended_security, learn, from_ntlm, init_of, respond, authenticate_ntlm,
  authenticate_ntlmv2, authenticate, setup_connection,
}
use cifs_client_stream.Client.Unfinished.{
  with_status, unfinished_next, IsBlind, seen_inbox, recv_lem,
}

-- The same server, but for what its session setups say.
abbrev pub unfinished_network : {N : Type 0} → Network N → Network N
unfinished_network network = record network {
  recv_frame = λ n. unfinished_next (network.recv_frame n);
}

-- The same client, with the pending replies of the other server.
abbrev pub seen : {N : Type 0} → Cifs N → Cifs N
seen c = record c { inbox = seen_inbox c.inbox }

abbrev pub seen_call :
    {N A : Type 0} → Option (Run Error A) × Cifs N → Option (Run Error A) × Cifs N
seen_call o = (o.0, seen o.1)

-- Calls that go the same way one after the other.
then_call_lem :
    {N A B : Type 0} (o' o : Option (Run Error A) × Cifs N) (next' next : A → Call N B)
    → o' ≡ seen_call o
    → ((a : A) (c : Cifs N) → next' a (seen c) ≡ seen_call (next a c))
    → then_call o' next' ≡ seen_call (then_call o next)
then_call_lem o' o next' next e h = ap (λ x. then_call x next') e ∙ go o
  where
    go :
        (x : Option (Run Error _) × Cifs _)
        → then_call (seen_call x) next' ≡ seen_call (then_call x next)
    go (none, c) = refl
    go (some (fails x), c) = refl
    go (some panics, c) = refl
    go (some (done a), c) = h a c

-- Two chains that agree behind what they have in common agree.
same_behind :
    {E X B C : Type 0} (o : Run E X) (f g : X → Run E B) (k : B → Run E C)
    → ((x : X) → and_then (f x) k ≡ and_then (g x) k)
    → and_then (and_then o f) k ≡ and_then (and_then o g) k
same_behind (done x) f g k h = h x
same_behind (fails e) f g k h = refl
same_behind panics f g k h = refl

-- The same calls on both servers.
module _ {N : Type 0} (wire : Wire) (network : Network N) (fuel : ℕ) where
  send_lem :
      (m : Message) (c : Cifs N)
      → send wire (unfinished_network network) fuel m (seen c)
        ≡ seen_call (send wire network fuel m c)
  unfolding send request_info
  send_lem m c =
      let info = m.fix_header (request_info m.cmd c) in
      let next : Cifs N = record c { mid = (c.mid + 1) % 65536 } in
      let frame = write wire m info (write_info wire info []) in
      then_call_lem _ (transmit_frame wire network fuel info m next) (λ u. pure c.mid)
        (λ u. pure c.mid)
        (then_call_lem _ (from_smb frame next) (transmit (unfinished_network network))
          (transmit network) refl (λ bytes d. refl))
        (λ u d. refl)

  recv_reply_lem :
      {A : Type 0} (r : Reply A) (mid : ℕ) (c : Cifs N)
      → IsBlind (as_reply_type wire r)
      → recv_reply wire (unfinished_network network) fuel r mid (seen c)
        ≡ seen_call (recv_reply wire network fuel r mid c)
  unfolding recv_reply
  recv_reply_lem r mid c blind =
      ap (λ o. on_inbox o c)
        (recv_lem network.recv_frame (as_reply_type wire r) blind fuel mid c.inbox)

  command_lem :
      {A : Type 0} (m : Message) (r : Reply A) (c : Cifs N)
      → IsBlind (as_reply_type wire r)
      → command wire (unfinished_network network) fuel m r (seen c)
        ≡ seen_call (command wire network fuel m r c)
  unfolding command
  command_lem m r c blind =
      then_call_lem _ (send wire network fuel m c) _ (recv_reply wire network fuel r) (send_lem m c)
        (λ mid d. recv_reply_lem r mid d blind)

  -- The parsers of the replies to a set-up do not look at the status.
  parse_body-IsBlind :
      {A : Type 0} (r : Reply A)
      → ((s : Status) (ctx : ReplyCtx)
          → r.create (record ctx { info = with_status s ctx.info }) ≡ r.create ctx)
      → IsBlind (as_reply_type wire r)
  unfolding parse_body parse_parts skip_andx
  parse_body-IsBlind r same s info body =
      let behind : ReplyCtx × Bytes → Run SmbError _ =
        λ q. and_then (skip_andx wire r.andx q.0) r.create in
      same_behind (get_u8 wire body) _ _ behind λ a.
        same_behind (copy_to_bytes wire (2 * a.0) a.1) _ _ behind λ b.
          same_behind (get_u16_le wire b.1) _ _ behind λ d.
            same_behind (copy_to_bytes wire d.0 d.1) _ _ behind λ e.
              same_behind (check_andx wire r.andx b.0) _ _ r.create λ q. same s (record {
                info = info;
                parameter = q.1;
                content = e.0;
                data_offset = smb_header_len + 1 + 2 * a.0 + 2;
              })

  session_setup-IsBlind : IsBlind (as_reply_type wire (session_setup_reply wire))
  unfolding create_session_setup
  session_setup-IsBlind = parse_body-IsBlind (session_setup_reply wire) (λ s ctx. refl)

  module _ (chrono : Chrono) where
    server_setup-IsBlind : IsBlind (as_reply_type wire (server_setup_reply wire chrono))
    unfolding create_server_setup
    server_setup-IsBlind = parse_body-IsBlind (server_setup_reply wire chrono) (λ s ctx. refl)

    module _ (entropy : Entropy N chrono) (crypto : Crypto) (nc : NtlmError) where
      session_setup_lem :
          (user domain : Name) (secret : Bytes) (c : Cifs N)
          → session_setup wire (unfinished_network network) fuel user domain secret (seen c)
            ≡ seen_call (session_setup wire network fuel user domain secret c)
      unfolding session_setup
      session_setup_lem user domain secret c = command_lem _ _ c session_setup-IsBlind

      session_setup_ntlmv2_lem :
          (blob : Bytes) (c : Cifs N)
          → session_setup_ntlmv2 wire (unfinished_network network) fuel blob (seen c)
            ≡ seen_call (session_setup_ntlmv2 wire network fuel blob c)
      unfolding session_setup_ntlmv2
      session_setup_ntlmv2_lem blob c = command_lem _ _ c session_setup-IsBlind

      authenticate_ntlm_lem :
          (challenge : Bytes) (c : Cifs N)
          → authenticate_ntlm wire
              (unfinished_network network)
              fuel
              chrono
              entropy
              crypto
              nc
              challenge
              (seen c)
            ≡ seen_call (authenticate_ntlm wire network fuel chrono entropy crypto nc challenge c)
      unfolding authenticate_ntlm
      authenticate_ntlm_lem challenge c =
          then_call_lem _ (from_ntlm (ntlmv1_authenticate crypto c.auth challenge) c) _ _ refl
            λ answer d.
              then_call_lem _ (session_setup wire network fuel c.auth.user c.auth.domain answer d) _
                _ (session_setup_lem c.auth.user c.auth.domain answer d) λ reply e. refl

      authenticate_ntlmv2_lem :
          (c : Cifs N)
          → authenticate_ntlmv2 wire
              (unfinished_network network)
              fuel
              chrono
              entropy
              crypto
              nc
              (seen c)
            ≡ seen_call (authenticate_ntlmv2 wire network fuel chrono entropy crypto nc c)
      unfolding authenticate_ntlmv2 respond
      authenticate_ntlmv2_lem c =
          then_call_lem _ (from_ntlm (as_run (init_bytes wire nc (init_of c.auth))) c) _ _ refl
            λ ntlm_init d.
              then_call_lem _ (session_setup_ntlmv2 wire network fuel ntlm_init d) _ _
                (session_setup_ntlmv2_lem ntlm_init d)
                λ reply e.
                  then_call_lem _
                    (from_ntlm (parse_challenge wire reply.security_blob)
                      (record e { uid = reply.uid }))
                    _ _ refl
                    λ challenge g.
                      then_call_lem _
                        (respond wire network fuel chrono entropy crypto nc challenge g) _ _ refl
                        λ answer h.
                          then_call_lem _ (session_setup_ntlmv2 wire network fuel answer h) _ _
                            (session_setup_ntlmv2_lem answer h) λ last k. refl

      authenticate_lem :
          (extended : Bool) (challenge : Bytes) (c : Cifs N)
          → authenticate wire
              (unfinished_network network)
              fuel
              chrono
              entropy
              crypto
              nc
              extended
              challenge
              (seen c)
            ≡ seen_call
                (authenticate wire network fuel chrono entropy crypto nc extended challenge c)
      unfolding authenticate
      authenticate_lem true challenge c = authenticate_ntlmv2_lem c
      authenticate_lem false challenge c = authenticate_ntlm_lem challenge c

      -- For every server: where each of its session setups that says SUCCESS says MORE_PROCESSING instead,
      -- which is that the authentication is not finished, `setup_connection` ends in the same way on every
      -- client, success included, and leaves the same client but for the replies that are pending.
      pub setup_connection_unfinished :
          (c : Cifs N)
          → setup_connection wire
              (unfinished_network network)
              fuel
              chrono
              entropy
              crypto
              nc
              (seen c)
            ≡ seen_call (setup_connection wire network fuel chrono entropy crypto nc c)
      unfolding setup_connection negotiate
      setup_connection_unfinished c =
          then_call_lem _ (negotiate wire network fuel chrono c) _ _
            (command_lem _ _ c server_setup-IsBlind)
            λ setup d.
              authenticate_lem (has_flag setup.capabilities cap_extended_security) setup.challenge
                (learn setup d).1
