-- ===== src/Smb/Reply/Laws/Safe.antt =====
-- How many words the replies need.
use cifs_client_stream.Common.{ℕ, ◌*◌, ◌≤◌, ◌≢◌, length, panics}
use cifs_client_stream.Stream.Buffer.{Bytes}
use cifs_client_stream.Smb.Wire.{Wire}
use cifs_client_stream.Smb.Wire.Plain.{plain, IsWire, of_plain}
use cifs_client_stream.Smb.Wire.Laws.{Takes, taking, Takes-check, on_lem}
use cifs_client_stream.Smb.Frame.{ReplyCtx}
use cifs_client_stream.Smb.Reply.{create_handle, read_handle_words, create_server_setup, read_setup}
use cifs_client_stream.Utils.{Chrono}

handle-Takes : (tid : ℕ) → Takes 64 (read_handle_words plain tid)
unfolding read_handle_words
handle-Takes tid = search taking depth 60

setup-Takes : (chrono : Chrono) (content : Bytes) → Takes 34 (read_setup plain chrono content)
unfolding read_setup
setup-Takes chrono content = search taking depth 60

plain_never_panic :
    (chrono : Chrono) (ctx : ReplyCtx)
    → (64 ≤ length ctx.parameter → create_handle plain ctx ≢ panics)
      × (34 ≤ length ctx.parameter → create_server_setup plain chrono ctx ≢ panics)
unfolding create_handle create_server_setup
plain_never_panic chrono ctx = (
  on_lem 64 (read_handle_words plain ctx.info.tid) ctx.parameter (handle-Takes ctx.info.tid),
  on_lem 34 _ ctx.parameter (Takes-check 34 _ _ _ (setup-Takes chrono ctx.content)),
)

-- The replies to Create and to Negotiate never panic on 32 and on 17 words of parameter, the numbers
-- of words that the protocol gives them, whatever the words and the data are.
pub create_never_panics :
    (wire : Wire)
    → IsWire wire
    → (chrono : Chrono) (ctx : ReplyCtx)
    → (2 * 32 ≤ length ctx.parameter → create_handle wire ctx ≢ panics)
      × (2 * 17 ≤ length ctx.parameter → create_server_setup wire chrono ctx ≢ panics)
create_never_panics wire w chrono ctx =
    of_plain
      (λ wire.
        (2 * 32 ≤ length ctx.parameter → create_handle wire ctx ≢ panics)
        × (2 * 17 ≤ length ctx.parameter → create_server_setup wire chrono ctx ≢ panics))
      wire w (plain_never_panic chrono ctx)
