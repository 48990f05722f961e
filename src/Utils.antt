-- ===== src/Utils.antt =====
-- src/utils.rs: alignment, paths and times. Text is in Utils/Unicode.
pub mod Unicode
pub mod Laws
mod Tests
use cifs_client_stream.Common.{
  ℕ, ◌+◌, ◌-◌, ◌*◌, ◌/◌, ◌%◌, Option, none, some, List, [], ◌∷◌, map, ltb, ◌==◌, if◌then◌else◌,
}
use cifs_client_stream.Media.Names.{Name}

-- `round_up_4n`, `fill_up_4n` and `try_sub`.
unfoldable pub round_up_4n : ℕ → ℕ
round_up_4n n = 4 * ((n + 3) / 4)

unfoldable pub fill_up_4n : ℕ → ℕ
fill_up_4n n = (4 - n % 4) % 4

unfoldable pub try_sub : ℕ → ℕ → Option ℕ
try_sub a b = if ltb a b then none else some (a - b)

-- `sanitize_path`: `/` is 0x2f, `\` is 0x5c.
abbrev pub backslash : ℕ → ℕ
backslash c = if c == 0x2f then 0x5c else c

unfoldable pub sanitize_path : Name → Name
sanitize_path = map backslash

-- What the times use of the crate `chrono`: the dates, the start of 1601, a date that many
-- microseconds later, and the microseconds between two dates (`none`: more than an i64 holds).
pub record Chrono : Type 1 where
  pub Date : Type 0
  pub windows_epoch : Date
  pub plus_microseconds : Date → ℕ → Date
  pub microseconds_since : Date → Date → Option ℕ

-- `decode_windows_time`.
unfoldable pub decode_windows_time : (chrono : Chrono) → ℕ → chrono.Date
decode_windows_time chrono time = chrono.plus_microseconds chrono.windows_epoch (time / 10)

-- `encode_windows_time` of a date from 1601 on; `none` is the panic of its `expect`.
abbrev pub tenths : Option ℕ → Option ℕ
tenths none = none
tenths (some duration) = some (10 * duration)

unfoldable pub encode_windows_time : (chrono : Chrono) → chrono.Date → Option ℕ
encode_windows_time chrono date = tenths (chrono.microseconds_since date chrono.windows_epoch)
