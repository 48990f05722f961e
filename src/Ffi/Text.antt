-- ===== src/Ffi/Text.antt =====
-- Texts of the C interface (src/ffi.rs): the literals, numbers in decimal, and the strings that go to
-- the caller.
use Prim.Native.String.{String}
use Prim.Native.Char.{code}
use cifs_client_stream.Common.{
  ℕ, zero, suc, ◌+◌, ◌/◌, ◌%◌, [], ◌∷◌, Bool, false, ◌||◌, ltb, ◌==◌, if◌then◌else◌, Run, done,
  panics,
}
use cifs_client_stream.Media.Names.{Name}

-- The code points of a literal.
unfoldable pub codes : String → Name
codes String.[] = []
codes (String.◌∷◌ c s) = code c ∷ codes s

-- `to_string` of a u64, which has at most 20 digits.
unfoldable pub digits : ℕ → ℕ → Name → Name
digits zero n behind = behind
digits (suc fuel) n behind =
    let longer = digits fuel (n / 10) ((48 + n % 10) ∷ behind) in
    if ltb n 10 then (48 + n) ∷ behind else longer

unfoldable pub decimal : ℕ → Name
unfolding digits
decimal n = digits 20 n []

unfoldable pub has_nul : Name → Bool
has_nul [] = false
has_nul (c ∷ cs) = c == 0 || has_nul cs

-- `string_into_raw`: `CString::new` refuses a text with a NUL, and the `expect` panics.
unfoldable pub string_into_raw : {E : Type 0} → Name → Run E Name
unfolding has_nul
string_into_raw value = if has_nul value then panics else done value
