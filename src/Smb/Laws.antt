-- ===== src/Smb/Laws.antt =====
-- The codes of src/smb: commands and statuses against the numbers on the wire.
use cifs_client_stream.Common.{
  ℕ, ◌≡◌, refl, ◌↔◌, List, [], ◌∷◌, some, none, Option, ok, err, arith, ap, sym, ◌∙◌,
}
use cifs_client_stream.Win
use cifs_client_stream.Win.Laws.{try_from-eq_some}
use cifs_client_stream.Smb.Codes.{
  Cmd, invalid_command, code, all_cmds, find_cmd, try_from, status_of, status_code,
}

find_cmd-code : (n : ℕ) (cs : List Cmd) (c : Cmd) → find_cmd n cs ≡ some c → code c ≡ n
unfolding find_cmd
find_cmd-code n [] c h = ground arith
find_cmd-code n (x ∷ cs) c h = ground (arith, find_cmd-code n cs c)

code-try_from : (n : ℕ) (c : Cmd) → try_from n ≡ ok c → code c ≡ n
unfolding try_from
code-try_from n c h = find_cmd-code n all_cmds c (found (find_cmd n all_cmds) h)
  where
    found :
        (o : Option Cmd)
        → elim o [ some c ↦ ok c | none ↦ err (invalid_command n) ] ≡ ok c
        → o ≡ some c
    found (some d) e = cc
    found none e = absurd (cc)

try_from-code : (c : Cmd) → try_from (code c) ≡ ok c
unfolding try_from find_cmd code
try_from-code Cmd.close = refl
try_from-code Cmd.read = refl
try_from-code Cmd.transact2 = refl
try_from-code Cmd.tree_disconnect = refl
try_from-code Cmd.negotiate = refl
try_from-code Cmd.session_setup = refl
try_from-code Cmd.tree_connect = refl
try_from-code Cmd.create = refl
try_from-code Cmd.no_command = refl

-- A command is read back from the byte it is sent as, and no other byte gives it.
pub try_from_iff : (n : ℕ) (c : Cmd) → (try_from n ≡ ok c) ↔ (code c ≡ n)
try_from_iff n c = (code-try_from n c, λ e. ap try_from (sym e) ∙ try_from-code c)

-- A status that is read from a number, known or not, is written as that number.
pub status_code-status_of : (n : ℕ) → status_code (status_of n) ≡ n
unfolding status_code status_of
status_code-status_of n = go (Win.try_from n) refl
  where
    go : (o : Option Win.NtStatus) → Win.try_from n ≡ o → status_code (status_of n) ≡ n
    go (some s) e = rw (e, status_code, status_of) (try_from-eq_some n s e)
    go none e = rw (e, status_code, status_of) refl
