-- ===== src/Client/Commands/Monad.antt =====
-- The state of `Cifs` (src/lib.rs) and the calls on it. A call that gives `none` ran out of fuel.
use cifs_client_stream.Common.{
  ℕ, Option, none, some, Bool, Result, ok, err, Run, done, fails, panics,
}
use cifs_client_stream.Errors.{Error}
use cifs_client_stream.Ntlm.Auth.{Auth}
use cifs_client_stream.Smb.Codes.{SmbError}
use cifs_client_stream.Stream.Buffer.{Bytes}
use cifs_client_stream.Client.{Inbox, Outcome, Source, lift_smb}
use cifs_client_stream.Client.Stats.{CifsIoStats}

-- `Cifs`.
pub record Cifs (N : Type 0) : Type 0 where
  pub inbox : Inbox N
  pub auth : Auth
  pub max_smb_size : ℕ
  pub use_unicode : Bool
  pub uid : ℕ
  pub mid : ℕ
  pub io_stats : CifsIoStats

-- The connection: `send_message`, `recv_frame`, and the clock in nanoseconds.
pub record Network (N : Type 0) : Type 0 where
  pub send_message : Bytes → N → Option (Run Error (Unit {0})) × N
  pub recv_frame : Source N
  pub now : N → ℕ

abbrev pub Call : Type 0 → Type 0 → Type 0
Call N A = Cifs N → Option (Run Error A) × Cifs N

-- `?` between two calls.
abbrev pub then_call :
    {N A B : Type 0}
    → Option (Run Error A) × Cifs N
    → (A → Call N B)
    → Option (Run Error B) × Cifs N
then_call (none, c) next = (none, c)
then_call (some (fails e), c) next = (some (fails e), c)
then_call (some panics, c) next = (some panics, c)
then_call (some (done a), c) next = next a c

infixl 5 ◌>>=◌ ◌>>◌
abbrev pub ◌>>=◌ : {N A B : Type 0} → Call N A → (A → Call N B) → Call N B
(first >>= next) c = then_call (first c) next

abbrev pub ◌>>◌ : {N B : Type 0} → Call N (Unit {0}) → Call N B → Call N B
(first >> rest) c = then_call (first c) λ u. rest

abbrev pub pure : {N A : Type 0} → A → Call N A
pure a c = (some (done a), c)

abbrev pub out_of_fuel : {N A : Type 0} → Call N A
out_of_fuel c = (none, c)

abbrev pub from_run : {N A : Type 0} → Run Error A → Call N A
from_run r c = (some r, c)

abbrev pub from_smb : {N A : Type 0} → Run SmbError A → Call N A
from_smb r c = (some (lift_smb r), c)

abbrev pub as_run : {E A : Type 0} → Result E A → Run E A
as_run (ok a) = done a
as_run (err e) = fails e

abbrev pub from_result : {N A : Type 0} → Result Error A → Call N A
from_result r c = (some (as_run r), c)

abbrev pub from_smb_result : {N A : Type 0} → Result SmbError A → Call N A
from_smb_result r c = (some (lift_smb (as_run r)), c)

abbrev pub on_inbox : {N A : Type 0} → Outcome N A → Cifs N → Option (Run Error A) × Cifs N
on_inbox o c = (o.0, record c { inbox = o.1 })

abbrev pub with_network :
    {N A : Type 0} → Option (Run Error A) × N → Cifs N → Option (Run Error A) × Cifs N
with_network o c = (o.0, record c { inbox = record { netbios = o.1; pending = c.inbox.pending } })

abbrev pub transmit : {N : Type 0} → Network N → Bytes → Call N (Unit {0})
transmit network frame c = with_network (network.send_message frame c.inbox.netbios) c
